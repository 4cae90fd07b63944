-- ===== src/BedrockRoute.antt =====
-- internal/bedrockroute: host names of Bedrock routes, and the table that selects a backend.
pub mod Laws
use mc_router.Prelude.{
  ℕ, zero, suc, ◌+◌, Bool, true, false, not, ◌&&◌, ◌||◌, Option, none, some, List, [], ◌∷◌, Bytes,
  if◌then◌else◌, nat_eq, lookup, insert, bytes_Eq, codes,
}
use mc_router.Go.Text.{trim_space, is_blank, is_empty, cut}
use mc_router.Go.HostPort.{split_host_port}
use mc_router.HostAddr.{normalize}

unfoldable pub count_byte : ℕ → Bytes → ℕ
count_byte c [] = 0
count_byte c (x ∷ xs) = count_byte c xs + (if nat_eq x c then 1 else 0)

-- The text in front of a single colon, where both sides are there.
unfoldable pub cut_port : Bytes → Bytes
cut_port value = elim (cut b':' value) [ some (a ∷ before, b ∷ after) ↦ a ∷ before | _ ↦ value ]

unfoldable pub host_part : Bytes → Bytes
host_part value = elim (split_host_port value) [
  | some (host, port) ↦ host
  | none ↦ if nat_eq (count_byte b':' value) 1 then cut_port value else value
]

unfoldable pub normalize_host : Bytes → Option Bytes
normalize_host raw =
    if is_empty (trim_space raw)
    then none
    else if is_blank (host_part (trim_space raw))
    then none
    else normalize (host_part (trim_space raw))

pub record Route : Type 0 where
  pub name : Bytes
  pub hosts : List Bytes
  pub backend : Bytes

pub record Selection : Type 0 where
  pub route_name : Bytes
  pub backend : Bytes
  pub matched : Bool

pub record Router : Type 0 where
  pub default_backend : Bytes
  pub hosts : List (Bytes × Selection)

-- The inner loop of NewRouter: the hosts of one route; none is the error of the source.
unfoldable pub add_hosts :
    Route → List Bytes → List (Bytes × Selection) → Option (List (Bytes × Selection))
add_hosts route [] hosts = some hosts
add_hosts route (raw ∷ raws) hosts = elim (normalize_host raw) [
  | none ↦ none
  | some host ↦ elim (lookup host hosts) [
    | some existing ↦ none
    | none ↦ add_hosts route raws (
        insert host (record { route_name = route.name; backend = route.backend; matched = true })
          hosts)
  ]
]

unfoldable pub add_routes :
    List Route → List (Bytes × Selection) → Option (List (Bytes × Selection))
add_routes [] hosts = some hosts
add_routes (route ∷ routes) hosts = elim (add_hosts route route.hosts hosts) [
  | none ↦ none
  | some hosts' ↦ add_routes routes hosts'
]

unfoldable pub new_router : Bytes → List Route → Option Router
new_router default_backend routes = elim (add_routes routes []) [
  | none ↦ none
  | some hosts ↦ some (record { default_backend = default_backend; hosts = hosts })
]

unfoldable pub fallback : Router → Selection
fallback r = record { route_name = codes "default"; backend = r.default_backend; matched = false }

unfoldable pub select : Router → Bytes → Selection
select r requested = elim (normalize_host requested) [
  | none ↦ fallback r
  | some host ↦ elim (lookup host r.hosts) [ none ↦ fallback r | some s ↦ s ]
]
