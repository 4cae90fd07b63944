-- ===== src/Discovery/Controller.antt =====
-- internal/discovery/kubernetes/controller.go: the routes of a complete set of services. The texts of
-- errors come from fmt and are arguments; a panic that safeParseServiceAnnotations would catch has no
-- counterpart.
use mc_router.Prelude.{
  ℕ, Bool, true, false, List, [], ◌∷◌, ◌++◌, Bytes, codes, if◌then◌else◌, ltb, ◌==◌, bytes_Eq,
  insert, map,
}
use mc_router.Prelude.Sorting.{sort_stable}
use mc_router.Go.Text.{is_empty, bytes_lt}
use mc_router.Config.{default_kubernetes_annotation_prefix}
use mc_router.Discovery.Annotations.{
  Reason, disabled, invalid_annotation_prefix, invalid_service_name, invalid_namespace,
  missing_host, invalid_host, missing_port, invalid_port, port_not_found, duplicate_host,
  ServiceInput, DiscoveredRoute, route, skip, parse_service_annotations, count, counted,
}

abbrev pub reason_text : Reason → Bytes
reason_text disabled = codes "disabled"
reason_text invalid_annotation_prefix = codes "invalid_annotation_prefix"
reason_text invalid_service_name = codes "invalid_service_name"
reason_text invalid_namespace = codes "invalid_namespace"
reason_text missing_host = codes "missing_host"
reason_text invalid_host = codes "invalid_host"
reason_text missing_port = codes "missing_port"
reason_text invalid_port = codes "invalid_port"
reason_text port_not_found = codes "port_not_found"
reason_text duplicate_host = codes "duplicate_host"

pub record SkippedResource : Type 0 where
  pub service_name : Bytes
  pub namespace : Bytes
  pub host : Bytes
  pub backend : Bytes
  pub reason : Reason
  pub error_text : Bytes

pub record RouteCandidate : Type 0 where
  pub route : DiscoveredRoute
  pub service_name : Bytes
  pub namespace : Bytes

pub record Result : Type 0 where
  pub routes : List DiscoveredRoute
  pub skipped : List SkippedResource
  pub duplicate_hosts : List Bytes
  pub skipped_by_reason : List (Bytes × ℕ)

-- The texts of the errors: of a service that cannot be parsed under a prefix, and of a host.
pub record ErrorTexts : Type 0 where
  pub parse : Bytes → ServiceInput → Bytes
  pub duplicate : Bytes → Bytes

-- What has been skipped so far, with addSkipped.
pub record Skipped : Type 0 where
  pub list : List SkippedResource
  pub by_reason : List (Bytes × ℕ)

unfoldable pub add_skipped : SkippedResource → Skipped → Skipped
add_skipped r s = record {
  list = s.list ++ (r ∷ []);
  by_reason = count (reason_text r.reason) s.by_reason;
}

abbrev pub unparsed : ErrorTexts → Bytes → ServiceInput → Reason → SkippedResource
unparsed texts prefix s reason = record {
  service_name = s.name;
  namespace = s.namespace;
  host = [];
  backend = [];
  reason = reason;
  error_text = texts.parse prefix s;
}

abbrev pub candidate_of : ServiceInput → DiscoveredRoute → RouteCandidate
candidate_of s r = record { route = r; service_name = s.name; namespace = s.namespace }

-- The loop over the services.
unfoldable pub parse_services :
    ErrorTexts
    → Bytes
    → List ServiceInput
    → List RouteCandidate × Skipped
    → List RouteCandidate × Skipped
parse_services texts prefix [] acc = acc
parse_services texts prefix (s ∷ ss) (candidates, skipped) =
    elim (parse_service_annotations prefix s) [
      | skip reason ↦
          parse_services texts prefix ss
            (candidates, add_skipped (unparsed texts prefix s reason) skipped)
      | route r ↦ parse_services texts prefix ss (candidates ++ (candidate_of s r ∷ []), skipped)
    ]

-- The first of the comparisons that tells the two apart.
unfoldable pub less_texts : List (Bytes × Bytes) → Bool
less_texts [] = false
less_texts ((a, b) ∷ rest) = if a == b then less_texts rest else bytes_lt a b

unfoldable pub less_candidate : RouteCandidate → RouteCandidate → Bool
less_candidate l r = less_texts (
    (l.route.host, r.route.host)
    ∷ (l.route.backend, r.route.backend)
    ∷ (l.namespace, r.namespace)
    ∷ (l.service_name, r.service_name)
    ∷ [])

unfoldable pub less_skipped : SkippedResource → SkippedResource → Bool
less_skipped l r = less_texts (
    (reason_text l.reason, reason_text r.reason)
    ∷ (l.host, r.host)
    ∷ (l.namespace, r.namespace)
    ∷ (l.service_name, r.service_name)
    ∷ (l.backend, r.backend)
    ∷ (l.error_text, r.error_text)
    ∷ [])

-- The loop that counts the hosts.
unfoldable pub count_hosts : List RouteCandidate → List (Bytes × ℕ) → List (Bytes × ℕ)
count_hosts [] counts = counts
count_hosts (c ∷ cs) counts = count_hosts cs (count c.route.host counts)

-- The routes, the hosts found twice and what is skipped, so far.
pub record Kept : Type 0 where
  pub routes : List DiscoveredRoute
  pub duplicates : List (Bytes × Unit {0})
  pub skipped : Skipped

abbrev pub duplicated : ErrorTexts → RouteCandidate → SkippedResource
duplicated texts c = record {
  service_name = c.service_name;
  namespace = c.namespace;
  host = c.route.host;
  backend = c.route.backend;
  reason = duplicate_host;
  error_text = texts.duplicate c.route.host;
}

-- The loop that keeps the candidates whose host is theirs alone.
unfoldable pub keep_candidates : ErrorTexts → List (Bytes × ℕ) → List RouteCandidate → Kept → Kept
keep_candidates texts hosts [] k = k
keep_candidates texts hosts (c ∷ cs) k = elim (ltb 1 (counted c.route.host hosts)) [
  | true ↦ keep_candidates texts hosts cs (record {
    routes = k.routes;
    duplicates = insert c.route.host tt k.duplicates;
    skipped = add_skipped (duplicated texts c) k.skipped;
  })
  | false ↦ keep_candidates texts hosts cs (record {
    routes = k.routes ++ (c.route ∷ []);
    duplicates = k.duplicates;
    skipped = k.skipped;
  })
]

abbrev pub prefix_or_default : Bytes → Bytes
prefix_or_default prefix = if is_empty prefix then default_kubernetes_annotation_prefix else prefix

-- The sorted candidates, and what was skipped before.
abbrev pub sorted_candidates :
    ErrorTexts → Bytes → List ServiceInput → List RouteCandidate × Skipped
sorted_candidates texts prefix services =
    let parsed = parse_services texts prefix services ([], record { list = []; by_reason = [] }) in
    (sort_stable less_candidate parsed.0, parsed.1)

unfoldable pub build_discovered_routes : ErrorTexts → Bytes → List ServiceInput → Result
build_discovered_routes texts annotation_prefix services =
    let (candidates, skipped) =
      sorted_candidates texts (prefix_or_default annotation_prefix) services in
    let kept =
      keep_candidates texts (count_hosts candidates []) candidates
        (record { routes = []; duplicates = []; skipped = skipped }) in
    record {
      routes = kept.routes;
      skipped = sort_stable less_skipped kept.skipped.list;
      duplicate_hosts = sort_stable bytes_lt (map (λ (x : Bytes × Unit {0}). x.0) kept.duplicates);
      skipped_by_reason = kept.skipped.by_reason;
    }
