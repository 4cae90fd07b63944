-- ===== src/Discovery/Annotations.antt =====
-- internal/discovery/kubernetes/annotations.go: the route that a service's annotations describe.
use mc_router.Prelude.{
  ℕ, ◌+◌, Bool, true, false, not, ◌||◌, Option, none, some, List, [], ◌∷◌, ◌++◌, Bytes, codes,
  if◌then◌else◌, ltb, nat_eq, any, ◌==◌, bytes_Eq, lookup, insert,
}
use mc_router.Prelude.Int.{pos, negsuc}
use mc_router.Go.Text.{trim_space, is_blank}
use mc_router.Go.Conv.{atoi, itoa}
use mc_router.Go.HostPort.{join_host_port}
use mc_router.HostAddr.{normalize}
use mc_router.Config.Fields.{is_dns_label, validate_annotation_prefix}

pub data Reason : Type 0 where
  disabled invalid_annotation_prefix invalid_service_name invalid_namespace missing_host : Reason
  invalid_host missing_port invalid_port port_not_found duplicate_host : Reason

pub record ServicePort : Type 0 where
  pub name : Bytes
  pub port : ℕ

pub record ServiceInput : Type 0 where
  pub name : Bytes
  pub namespace : Bytes
  pub annotations : List (Bytes × Bytes)
  pub ports : List ServicePort

pub record DiscoveredRoute : Type 0 where
  pub host : Bytes
  pub backend : Bytes

pub data ParseResult : Type 0 where
  route : DiscoveredRoute → ParseResult
  skip : Reason → ParseResult

pub record SkippedRoute : Type 0 where
  pub host : Bytes
  pub backend : Bytes
  pub reason : Reason

-- m[key] of a map of strings: a missing key reads as the empty text.
abbrev pub annotation : Bytes → Bytes → List (Bytes × Bytes) → Bytes
annotation prefix name annotations = elim (lookup (prefix ++ (b'/' ∷ name)) annotations) [
  | none ↦ []
  | some v ↦ v
]

unfoldable pub service_has_port : List ServicePort → ℕ → Bool
service_has_port ports p = any (λ s. nat_eq s.port p) ports

-- A port number from 1 to 65535.
unfoldable pub parse_port : Bytes → Option ℕ
parse_port value = elim (atoi value) [
  | none ↦ none
  | some (negsuc n) ↦ none
  | some (pos n) ↦ if ltb n 1 || ltb 65535 n then none else some n
]

abbrev pub cluster_suffix : Bytes
cluster_suffix = codes ".svc.cluster.local"

abbrev pub service_backend : ServiceInput → ℕ → Bytes
service_backend s p = join_host_port (s.name ++ (b'.' ∷ (s.namespace ++ cluster_suffix))) (itoa p)

unfoldable pub parse_port_annotation : Bytes → ServiceInput → Bytes → ParseResult
parse_port_annotation prefix s host =
    let value = annotation prefix (codes "port") s.annotations in
    if is_blank value then skip missing_port else elim (parse_port (trim_space value)) [
      | none ↦ skip invalid_port
      | some p ↦
          if not (service_has_port s.ports p)
          then skip port_not_found
          else route (record { host = host; backend = service_backend s p })
    ]

unfoldable pub parse_service_annotations : Bytes → ServiceInput → ParseResult
parse_service_annotations prefix s =
    let value = annotation prefix (codes "host") s.annotations in
    if not (validate_annotation_prefix prefix)
    then skip invalid_annotation_prefix
    else if not (annotation prefix (codes "enabled") s.annotations == codes "true")
    then skip disabled
    else if not (is_dns_label s.name)
    then skip invalid_service_name
    else if not (is_dns_label s.namespace)
    then skip invalid_namespace
    else if is_blank value
    then skip missing_host
    else elim (normalize value) [
      | none ↦ skip invalid_host
      | some host ↦ parse_port_annotation prefix s host
    ]

-- counts[host]++
abbrev pub count : Bytes → List (Bytes × ℕ) → List (Bytes × ℕ)
count host counts = insert host (1 + elim (lookup host counts) [ none ↦ 0 | some n ↦ n ]) counts

abbrev pub counted : Bytes → List (Bytes × ℕ) → ℕ
counted host counts = elim (lookup host counts) [ none ↦ 0 | some n ↦ n ]

-- The first loop of DropDuplicateHosts: the routes with their hosts normalized, the ones skipped, and
-- how often each host occurs.
unfoldable pub normalize_routes :
    List DiscoveredRoute
    → List DiscoveredRoute × List SkippedRoute × List (Bytes × ℕ)
    → List DiscoveredRoute × List SkippedRoute × List (Bytes × ℕ)
normalize_routes [] acc = acc
normalize_routes (r ∷ rs) (normalized, skipped, counts) = elim (normalize r.host) [
  | none ↦ normalize_routes rs (
    normalized,
    skipped ++ (record { host = r.host; backend = r.backend; reason = invalid_host } ∷ []),
    counts,
  )
  | some host ↦
      normalize_routes rs (
        normalized ++ (record { host = host; backend = r.backend } ∷ []),
        skipped,
        count host counts,
      )
]

-- The second loop: a host that occurs more than once loses all its routes.
unfoldable pub keep_single :
    List (Bytes × ℕ)
    → List DiscoveredRoute
    → List DiscoveredRoute × List SkippedRoute
    → List DiscoveredRoute × List SkippedRoute
keep_single counts [] acc = acc
keep_single counts (r ∷ rs) (kept, skipped) = elim (ltb 1 (counted r.host counts)) [
  | true ↦ keep_single counts rs (
    kept,
    skipped ++ (record { host = r.host; backend = r.backend; reason = duplicate_host } ∷ []),
  )
  | false ↦ keep_single counts rs (kept ++ (r ∷ []), skipped)
]

unfoldable pub drop_duplicate_hosts :
    List DiscoveredRoute → List DiscoveredRoute × List SkippedRoute
drop_duplicate_hosts routes =
    let (normalized, skipped, counts) = normalize_routes routes ([], [], []) in
    keep_single counts normalized ([], skipped)
