-- ===== src/Discovery/Merge.antt =====
-- internal/discovery/merge.go: static routes win over discovered ones. The text of an error is
-- determined by the reason, the host and the backend, so the comparison of the texts, the last one
-- in the order of the ignored routes, never decides, and the texts are left out.
use mc_router.Prelude.{
  ℕ, Bool, true, false, not, ◌&&◌, Option, none, some, List, [], ◌∷◌, ◌++◌, Bytes, codes,
  if◌then◌else◌, ltb, all, length, ◌==◌, bytes_Eq, lookup, insert,
}
use mc_router.Prelude.Sorting.{sort_stable}
use mc_router.Go.Text.{is_blank, split, bytes_lt}
use mc_router.Go.HostPort.{split_host_port, join_host_port}
use mc_router.HostAddr.{normalize}
use mc_router.Config.{Route, DefaultRoute}
use mc_router.Config.Fields.{is_dns_label, port_ok}
use mc_router.Discovery.Annotations.{DiscoveredRoute, count, counted}

-- The reasons, by their texts.
abbrev pub reason_static_route_precedence : Bytes
reason_static_route_precedence = codes "static_route_precedence"

abbrev pub reason_duplicate_discovered : Bytes
reason_duplicate_discovered = codes "duplicate_discovered_host"

abbrev pub reason_invalid_discovered : Bytes
reason_invalid_discovered = codes "invalid_discovered_route"

abbrev pub route_source_static : Bytes
route_source_static = codes "static"

abbrev pub route_source_discovered : Bytes
route_source_discovered = codes "discovered"

pub record IgnoredRoute : Type 0 where
  pub host : Bytes
  pub backend : Bytes
  pub reason : Bytes

pub record MergeStats : Type 0 where
  pub static_routes : ℕ
  pub discovered_routes : ℕ
  pub merged_routes : ℕ
  pub ignored_discovered_routes : ℕ
  pub has_default_route : Bool
  pub ignored_by_reason : List (Bytes × ℕ)

pub record MergeResult : Type 0 where
  pub routes : List Route
  pub ignored : List IgnoredRoute
  pub stats : MergeStats

abbrev pub Hosts : Type 0
Hosts = List (Bytes × Bool)

-- The loop over the aliases of a static route.
unfoldable pub static_aliases : List Bytes → Hosts → List Bytes × Hosts
static_aliases [] hosts = ([], hosts)
static_aliases (alias ∷ aliases) hosts = elim (normalize alias) [
  | none ↦ (alias ∷ (static_aliases aliases hosts).0, (static_aliases aliases hosts).1)
  | some host ↦ (
    host ∷ (static_aliases aliases (insert host true hosts)).0,
    (static_aliases aliases (insert host true hosts)).1,
  )
]

unfoldable pub static_address : Bytes → Hosts → Bytes × Hosts
static_address address hosts = elim (normalize address) [
  | none ↦ (address, hosts)
  | some host ↦ (host, insert host true hosts)
]

-- The loop over the static routes: the routes in normal form, and their hosts.
unfoldable pub static_routes : List Route → Hosts → List Route × Hosts
static_routes [] hosts = ([], hosts)
static_routes (r ∷ rs) hosts =
    let (address, hosts1) = static_address r.server_address hosts in
    let (aliases, hosts2) = static_aliases r.aliases hosts1 in
    let (routes, hosts3) = static_routes rs hosts2 in
    (
      record r { server_address = address; aliases = aliases; source = route_source_static }
          ∷ routes,
      hosts3,
    )

unfoldable pub service_dns_parts : List Bytes → Bool
service_dns_parts (service ∷ namespace ∷ svc ∷ domain ∷ domains) =
    is_dns_label service
    && is_dns_label namespace
    && svc == codes "svc"
    && all is_dns_label (domain ∷ domains)
service_dns_parts _ = false

unfoldable pub validate_service_dns_backend : Bytes → Bool
validate_service_dns_backend host = service_dns_parts (split b'.' host)

unfoldable pub validate_backend_port : Bytes → Bool
validate_backend_port port = if is_blank port then false else port_ok port

-- The host and the backend of a discovered route in normal form.
unfoldable pub validate_discovered_route : DiscoveredRoute → Option DiscoveredRoute
validate_discovered_route r = elim (normalize r.host) [
  | none ↦ none
  | some host ↦ elim (if is_blank r.backend then none else split_host_port r.backend) [
    | none ↦ none
    | some (backend_host, port) ↦ elim (normalize backend_host) [
      | none ↦ none
      | some h ↦
          if validate_backend_port port && validate_service_dns_backend h
          then some (record { host = host; backend = join_host_port h port })
          else none
    ]
  ]
]

-- What has been ignored so far.
pub record Ignored : Type 0 where
  pub list : List IgnoredRoute
  pub by_reason : List (Bytes × ℕ)

unfoldable pub add_ignored : Bytes → DiscoveredRoute → Ignored → Ignored
add_ignored reason r i = record {
  list = i.list ++ (record { host = r.host; backend = r.backend; reason = reason } ∷ []);
  by_reason = count reason i.by_reason;
}

-- The loop over the discovered routes: the candidates, how often each host occurs, and the ignored.
unfoldable pub collect :
    List DiscoveredRoute
    → List DiscoveredRoute × List (Bytes × ℕ) × Ignored
    → List DiscoveredRoute × List (Bytes × ℕ) × Ignored
collect [] acc = acc
collect (r ∷ rs) (candidates, counts, ignored) = elim (validate_discovered_route r) [
  | none ↦ collect rs (candidates, counts, add_ignored reason_invalid_discovered r ignored)
  | some candidate ↦
      collect rs (candidates ++ (candidate ∷ []), count candidate.host counts, ignored)
]

unfoldable pub less_text_pair : Bytes × Bytes → Bytes × Bytes → Bool
less_text_pair (a, b) (c, d) = if a == c then bytes_lt b d else bytes_lt a c

unfoldable pub less_config_route : Route → Route → Bool
less_config_route l r = less_text_pair (l.server_address, l.backend) (r.server_address, r.backend)

unfoldable pub less_discovered_candidate : DiscoveredRoute → DiscoveredRoute → Bool
less_discovered_candidate l r = less_text_pair (l.host, l.backend) (r.host, r.backend)

unfoldable pub less_ignored : IgnoredRoute → IgnoredRoute → Bool
less_ignored l r =
    if l.reason == r.reason
    then less_text_pair (l.host, l.backend) (r.host, r.backend)
    else bytes_lt l.reason r.reason

abbrev pub discovered_config_route : DiscoveredRoute → Route
discovered_config_route r = record {
  server_address = r.host;
  aliases = [];
  backend = r.backend;
  status_backend = [];
  status_override = none;
  source = route_source_discovered;
}

-- The loop over the candidates: a host that is discovered twice or that a static route has is ignored.
unfoldable pub select_candidates :
    Hosts → List (Bytes × ℕ) → List DiscoveredRoute → List Route × Ignored → List Route × Ignored
select_candidates hosts counts [] acc = acc
select_candidates hosts counts (c ∷ cs) (routes, ignored) = elim (ltb 1 (counted c.host counts)) [
  | true ↦
      select_candidates hosts counts cs (routes, add_ignored reason_duplicate_discovered c ignored)
  | false ↦ elim (lookup c.host hosts) [
    | some known ↦
        select_candidates hosts counts cs
          (routes, add_ignored reason_static_route_precedence c ignored)
    | none ↦ select_candidates hosts counts cs (routes ++ (discovered_config_route c ∷ []), ignored)
  ]
]

abbrev pub none_ignored : Ignored
none_ignored = record { list = []; by_reason = [] }

-- The collected candidates, in their order, and what the two loops leave.
abbrev pub selected : List Route → List DiscoveredRoute → List Route × Ignored
selected statics discovered =
    let (candidates, counts, ignored) = collect discovered ([], [], none_ignored) in
    select_candidates (static_routes statics []).1 counts
      (sort_stable less_discovered_candidate candidates) ((static_routes statics []).0, ignored)

unfoldable pub merge_routes : List Route → List DiscoveredRoute → DefaultRoute → MergeResult
merge_routes statics discovered default_route =
    let (found, ignored) = selected statics discovered in
    let routes = sort_stable less_config_route found in
    let ordered = sort_stable less_ignored ignored.list in
    record {
      routes = routes;
      ignored = ordered;
      stats = record {
        static_routes = length statics;
        discovered_routes = length discovered;
        merged_routes = length routes;
        ignored_discovered_routes = length ordered;
        has_default_route = not (is_blank default_route.backend);
        ignored_by_reason = ignored.by_reason;
      };
    }
