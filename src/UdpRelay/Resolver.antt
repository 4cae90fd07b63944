-- ===== src/UdpRelay/Resolver.antt =====
-- internal/udprelay/router.go, and the start in relay.go: which backend address a client gets. Name
-- resolution by the net package is an argument, none where it fails.
use mc_router.Prelude.{
  ℕ, Bool, false, not, Option, none, some, List, [], ◌∷◌, Bytes, if◌then◌else◌, map, lookup, insert,
  bytes_Eq,
}
use mc_router.Go.Text.{bytes_lt}
use mc_router.Prelude.Int.{ℤ, pos_part}
use mc_router.Prelude.Sorting.{sort_stable}
use mc_router.Go.Netip.{Addr, is_unspecified, is_multicast, is_broadcast}
use mc_router.Config.Fields.{not_positive}

-- A nil IP is none.
pub record UdpAddr : Type 0 where
  pub ip : Option Addr
  pub port : ℕ

pub data Error : Type 0 where
  bad_idle_timeout bad_dial_timeout bad_max_sessions bad_max_packet_size : Error
  bad_listen bad_backend duplicate_route listen_failed : Error

pub data Result {ℓ} (A : Type ℓ) : Type ℓ where
  ok : A → Result A
  err : Error → Result A

abbrev pub Resolve : Type 0
Resolve = Bytes → Option UdpAddr

-- validateBackendAddr
unfoldable pub validate_backend_addr : UdpAddr → Bool
validate_backend_addr a = elim a.ip [
  | none ↦ false
  | some ip ↦
      if is_unspecified ip then false else if is_multicast ip then false else not (is_broadcast ip)
]

unfoldable pub resolve_backend : Resolve → Bytes → Option UdpAddr
resolve_backend resolve backend = elim (resolve backend) [
  | none ↦ none
  | some a ↦ if validate_backend_addr a then some a else none
]

pub data Resolver : Type 0 where
  static_resolver : UdpAddr → Resolver
  named_resolver : UdpAddr → List (Bytes × UdpAddr) → Resolver

unfoldable pub new_static_backend_resolver : Resolve → Bytes → Result Resolver
new_static_backend_resolver resolve backend = elim (resolve_backend resolve backend) [
  | none ↦ err bad_backend
  | some a ↦ ok (static_resolver a)
]

pub record NamedBackendRoute : Type 0 where
  pub name : Bytes
  pub backend : Bytes

-- The loop over the routes with the addresses resolved so far.
unfoldable pub resolve_routes :
    Resolve → List NamedBackendRoute → List (Bytes × UdpAddr) → Result (List (Bytes × UdpAddr))
resolve_routes resolve [] table = ok table
resolve_routes resolve (route ∷ routes) table = elim (lookup route.name table) [
  | some known ↦ err duplicate_route
  | none ↦ elim (resolve_backend resolve route.backend) [
    | none ↦ err bad_backend
    | some a ↦ resolve_routes resolve routes (insert route.name a table)
  ]
]

unfoldable pub new_named_backend_resolver :
    Resolve → Bytes → List NamedBackendRoute → Result Resolver
new_named_backend_resolver resolve default_backend routes =
    elim (resolve_backend resolve default_backend) [
      | none ↦ err bad_backend
      | some a ↦ elim (resolve_routes resolve routes []) [
        | err e ↦ err e
        | ok table ↦ ok (named_resolver a table)
      ]
    ]

-- ResolveBackend: both resolvers give every client the default backend.
unfoldable pub backend_of : Resolver → UdpAddr
backend_of (static_resolver a) = a
backend_of (named_resolver a table) = a

unfoldable pub route_names : Resolver → List Bytes
route_names (static_resolver a) = []
route_names (named_resolver a table) =
    sort_stable bytes_lt (map (λ (x : Bytes × UdpAddr). x.0) table)

-- The configuration as it is given.
pub record Config : Type 0 where
  pub listen : Bytes
  pub backend : Bytes
  pub resolver : Option Resolver
  pub idle_timeout : ℤ
  pub backend_dial_timeout : ℤ
  pub max_sessions : ℤ
  pub max_packet_size : ℤ

-- The limits of a relay that was made.
pub record Limits : Type 0 where
  pub idle_timeout : ℕ
  pub max_sessions : ℕ
  pub max_packet_size : ℕ

abbrev pub limits_of : Config → Limits
limits_of c = record {
  idle_timeout = pos_part c.idle_timeout;
  max_sessions = pos_part c.max_sessions;
  max_packet_size = pos_part c.max_packet_size;
}

abbrev pub resolver_of : Resolve → Config → Result Resolver
resolver_of resolve c = elim c.resolver [
  | some r ↦ ok r
  | none ↦ new_static_backend_resolver resolve c.backend
]

-- New: the limits and the resolver. `listens` is the outcome of net.ListenUDP.
unfoldable pub new : Resolve → Bool → Config → Result (Limits × Resolver)
new resolve listens c =
    if not_positive c.idle_timeout
    then err bad_idle_timeout
    else if not_positive c.backend_dial_timeout
    then err bad_dial_timeout
    else if not_positive c.max_sessions
    then err bad_max_sessions
    else if not_positive c.max_packet_size
    then err bad_max_packet_size
    else elim (resolve c.listen) [
      | none ↦ err bad_listen
      | some a ↦ elim (resolver_of resolve c) [
        | err e ↦ err e
        | ok r ↦ if listens then ok (limits_of c, r) else err listen_failed
      ]
    ]
