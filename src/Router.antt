-- ===== src/Router.antt =====
-- internal/router/router.go: the table of the routes and the selection of a backend. A copy of a
-- status override is the override itself, since values are not shared here.
pub mod Table
pub mod Laws
use mc_router.Prelude.{
  Bool, true, false, not, ◌&&◌, Option, none, some, List, [], ◌∷◌, ◌++◌, Bytes, if◌then◌else◌, ◌==◌,
  bytes_Eq, lookup, insert, codes,
}
use mc_router.Go.Text.{is_empty}
use mc_router.HostAddr.{normalize}
use mc_router.Config.{Config, Route, StatusOverride, unknown_host_default}
use mc_router.Config.Fields.{Env}
use mc_router.Config.Validate.{validate}

abbrev pub match_kind_canonical : Bytes
match_kind_canonical = codes "canonical"

abbrev pub match_kind_alias : Bytes
match_kind_alias = codes "alias"

abbrev pub match_kind_default : Bytes
match_kind_default = codes "default"

abbrev pub route_source_default : Bytes
route_source_default = codes "default"

-- discovery.RouteSourceStatic
abbrev pub route_source_static : Bytes
route_source_static = codes "static"

pub data Error : Type 0 where
  invalid_config no_route invalid_server_address : Error

pub data Result {ℓ} (A : Type ℓ) : Type ℓ where
  ok : A → Result A
  err : Error → Result A

pub record RouteEntry : Type 0 where
  pub route : Route
  pub match_kind : Bytes

pub record Router : Type 0 where
  pub routes : List (Bytes × RouteEntry)
  pub default_backend : Bytes
  pub unknown_host_policy : Bytes

pub record Selection : Type 0 where
  pub backend : Bytes
  pub status_backend : Bytes
  pub matched_by : Bytes
  pub match_kind : Bytes
  pub route_source : Bytes
  pub canonical_server_address : Bytes
  pub status_override : Option StatusOverride

-- The route as the table keeps it.
abbrev pub stored : Route → Bytes → Route
stored r address = record r {
  server_address = address;
  source = if is_empty r.source then route_source_static else r.source;
}

unfoldable pub add_aliases :
    Route → List Bytes → List (Bytes × RouteEntry) → Result (List (Bytes × RouteEntry))
add_aliases route [] table = ok table
add_aliases route (alias ∷ aliases) table = elim (normalize alias) [
  | none ↦ err invalid_server_address
  | some address ↦
      add_aliases route aliases
        (insert address (record { route = route; match_kind = match_kind_alias }) table)
]

unfoldable pub add_route : Route → List (Bytes × RouteEntry) → Result (List (Bytes × RouteEntry))
add_route r table = elim (normalize r.server_address) [
  | none ↦ err invalid_server_address
  | some address ↦ add_aliases (stored r address) r.aliases (
      insert address (record { route = stored r address; match_kind = match_kind_canonical }) table)
]

unfoldable pub add_routes :
    List Route → List (Bytes × RouteEntry) → Result (List (Bytes × RouteEntry))
add_routes [] table = ok table
add_routes (r ∷ rs) table = elim (add_route r table) [
  | err e ↦ err e
  | ok table' ↦ add_routes rs table'
]

unfoldable pub new : Env → Config → Result Router
new env c = elim (is_empty (validate env c).0) [
  | false ↦ err invalid_config
  | true ↦ elim (add_routes c.routes []) [
    | err e ↦ err e
    | ok table ↦ ok (record {
      routes = table;
      default_backend = c.default_route.backend;
      unknown_host_policy = c.unknown_host_policy;
    })
  ]
]

abbrev pub entry_selection : RouteEntry → Selection
entry_selection e = record {
  backend = e.route.backend;
  status_backend = e.route.status_backend;
  matched_by = codes "route";
  match_kind = e.match_kind;
  route_source = e.route.source;
  canonical_server_address = e.route.server_address;
  status_override = e.route.status_override;
}

abbrev pub default_selection : Bytes → Selection
default_selection backend = record {
  backend = backend;
  status_backend = codes "";
  matched_by = codes "default";
  match_kind = match_kind_default;
  route_source = route_source_default;
  canonical_server_address = codes "";
  status_override = none;
}

unfoldable pub select : Router → Bytes → Result Selection
select r server_address = elim (normalize server_address) [
  | none ↦ err invalid_server_address
  | some address ↦ elim (lookup address r.routes) [
    | some entry ↦ ok (entry_selection entry)
    | none ↦
        if r.unknown_host_policy == unknown_host_default && not (is_empty r.default_backend)
        then ok (default_selection r.default_backend)
        else err no_route
  ]
]
