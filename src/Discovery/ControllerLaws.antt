-- ===== src/Discovery/ControllerLaws.antt =====
-- What BuildDiscoveredRoutes promises, whatever the order of the services.
use mc_router.Prelude.{
  ℕ, suc, ◌+◌, ◌≤◌, ◌≡◌, ◌↔◌, ◌⊎◌, inl, inr, refl, sym, ap, subst, ◌∙◌, arith, Bool, true, not,
  List, [], ◌∷◌, ◌++◌, Bytes, map, select, length, ltb, ◌==◌, bytes_Eq, bytes_eq_iff, lookup,
  lookup-insert, if◌then◌else◌, Bool-cases,
}
use mathlib.Core.List.{append_assoc, append-nil, Memᴰ}
use mathlib.Core.List.Memᴰ.{head, tail}
use mc_router.Prelude.Members.{Memᴰ-select}
use mc_router.Prelude.Sorting.{
  sort_stable, Memᴰ-sort_stable, Memᴰ-sort_stable_back, occurring-sort_stable,
}
use mc_router.Discovery.Annotations.{
  ServiceInput, DiscoveredRoute, ParseResult, route, skip, parse_service_annotations, count,
  counted, Reason,
}
use mc_router.Discovery.Controller.{
  RouteCandidate, ErrorTexts, Skipped, Kept, parse_services, less_candidate, count_hosts,
  keep_candidates, prefix_or_default, sorted_candidates, build_discovered_routes, candidate_of,
}

-- The routes that the services' annotations describe.
abbrev pub parsed : Bytes → List ServiceInput → List DiscoveredRoute
parsed prefix [] = []
parsed prefix (s ∷ ss) = elim (parse_service_annotations prefix s) [
  | skip reason ↦ parsed prefix ss
  | route r ↦ r ∷ parsed prefix ss
]

abbrev pub occurrences : Bytes → List DiscoveredRoute → ℕ
occurrences host routes = length (select (λ (r : DiscoveredRoute). r.host == host) routes)

abbrev routes_of : List RouteCandidate → List DiscoveredRoute
routes_of cs = map (λ (c : RouteCandidate). c.route) cs

ParseResult-cases :
    (x : ParseResult)
    → ((reason : Reason) × (x ≡ skip reason)) ⊎ ((r : DiscoveredRoute) × (x ≡ route r))
ParseResult-cases (skip reason) = inl (reason, refl)
ParseResult-cases (route r) = inr (r, refl)

routes_of-append : (a b : List RouteCandidate) → routes_of (a ++ b) ≡ routes_of a ++ routes_of b
routes_of-append [] b = refl
routes_of-append (c ∷ a) b = ap (λ t. c.route ∷ t) (routes_of-append a b)

parse_services-parsed :
    (texts : ErrorTexts) (prefix : Bytes) (ss : List ServiceInput) (cs : List RouteCandidate)
    (k : Skipped)
    → routes_of (parse_services texts prefix ss (cs, k)).0 ≡ routes_of cs ++ parsed prefix ss
unfolding parse_services
parse_services-parsed texts prefix [] cs k = sym (append-nil (routes_of cs))
parse_services-parsed texts prefix (s ∷ ss) cs k =
    elim (ParseResult-cases (parse_service_annotations prefix s)) [
      | inl (reason, e) ↦
          rw (parse_services, parsed, e) (parse_services-parsed texts prefix ss cs _)
      | inr (r, e) ↦
          rw (parse_services, parsed, e)
            (parse_services-parsed texts prefix ss (cs ++ (candidate_of s r ∷ [])) k
              ∙ ap (λ t. t ++ parsed prefix ss) (routes_of-append cs (candidate_of s r ∷ []))
              ∙ append_assoc (routes_of cs) (r ∷ []) (parsed prefix ss))
    ]

occurring-routes_of :
    (host : Bytes) (cs : List RouteCandidate)
    → length (select (λ (c : RouteCandidate). c.route.host == host) cs)
      ≡ occurrences host (routes_of cs)
occurring-routes_of host [] = refl
occurring-routes_of host (c ∷ cs) = elim (Bool-cases (c.route.host == host)) [
  | inl b ↦ rw (b) (ap (λ n. suc n) (occurring-routes_of host cs))
  | inr b ↦ rw (b) (occurring-routes_of host cs)
]

pub counted-count :
    (k host : Bytes) (m : List (Bytes × ℕ))
    → counted host (count k m) ≡ (if k == host then 1 + counted host m else counted host m)
counted-count k host m =
    ground (arith, lookup-insert k host (1 + counted k m) m, bytes_eq_iff k host)

count_hosts-counted :
    (host : Bytes) (cs : List RouteCandidate) (m : List (Bytes × ℕ))
    → counted host (count_hosts cs m)
      ≡ length (select (λ (c : RouteCandidate). c.route.host == host) cs) + counted host m
unfolding count_hosts
count_hosts-counted host [] m = omega arith
count_hosts-counted host (c ∷ cs) m =
    let rest = count_hosts-counted host cs (count c.route.host m) in
    let step = counted-count c.route.host host m in
    elim (Bool-cases (c.route.host == host)) [
      | inl b ↦ ground (arith, rest, step, b)
      | inr b ↦ ground (arith, rest, step, b)
    ]

-- A candidate whose host is its own among those that were counted.
abbrev alone : List (Bytes × ℕ) → RouteCandidate → Bool
alone hosts c = not (ltb 1 (counted c.route.host hosts))

keep_candidates-alone :
    (texts : ErrorTexts) (hosts : List (Bytes × ℕ)) (cs : List RouteCandidate) (k : Kept)
    → (keep_candidates texts hosts cs k).routes ≡ k.routes ++ routes_of (select (alone hosts) cs)
unfolding keep_candidates
keep_candidates-alone texts hosts [] k = sym (append-nil k.routes)
keep_candidates-alone texts hosts (c ∷ cs) k =
    elim (Bool-cases (ltb 1 (counted c.route.host hosts))) [
      | inl b ↦ rw (keep_candidates, b) (keep_candidates-alone texts hosts cs _)
      | inr b ↦
          rw (keep_candidates, b)
            (keep_candidates-alone texts hosts cs _
              ∙ append_assoc k.routes (c.route ∷ []) (routes_of (select (alone hosts) cs)))
    ]

routes_of-select :
    (p : RouteCandidate → Bool) (c : RouteCandidate) (cs : List RouteCandidate)
    → ((p c ≡ true) × (routes_of (select p (c ∷ cs)) ≡ c.route ∷ routes_of (select p cs)))
      ⊎ (routes_of (select p (c ∷ cs)) ≡ routes_of (select p cs))
routes_of-select p c cs = elim (Bool-cases (p c)) [
  | inl b ↦ inl (b, rw (b) refl)
  | inr b ↦ inr (rw (b) refl)
]

Memᴰ-routes_of :
    (r : DiscoveredRoute) (p : RouteCandidate → Bool) (cs : List RouteCandidate)
    → Memᴰ r (routes_of (select p cs))
    → (c : RouteCandidate) × (r ≡ c.route) × (p c ≡ true) × Memᴰ c cs
Memᴰ-routes_of r p [] m = elim m [ ]
Memᴰ-routes_of r p (c ∷ cs) m = elim (routes_of-select p c cs) [
  | inl (b, e) ↦ elim (subst (Memᴰ r) e m) [
    | head same ↦ (c, same, b, head refl)
    | tail m' ↦
        let (d, same, alone, there) = Memᴰ-routes_of r p cs m' in (d, same, alone, tail there)
  ]
  | inr e ↦
      let (d, same, alone, there) = Memᴰ-routes_of r p cs (subst (Memᴰ r) e m) in
      (d, same, alone, tail there)
]

Memᴰ-routes_of_back :
    (r : DiscoveredRoute) (cs : List RouteCandidate)
    → Memᴰ r (routes_of cs)
    → (c : RouteCandidate) × (r ≡ c.route) × Memᴰ c cs
Memᴰ-routes_of_back r [] m = elim m [ ]
Memᴰ-routes_of_back r (c ∷ cs) (head e) = (c, e, head refl)
Memᴰ-routes_of_back r (c ∷ cs) (tail m) =
    let (d, e, there) = Memᴰ-routes_of_back r cs m in (d, e, tail there)

routes_of-Memᴰ :
    (c : RouteCandidate) (cs : List RouteCandidate) → Memᴰ c cs → Memᴰ c.route (routes_of cs)
routes_of-Memᴰ c [] m = elim m [ ]
routes_of-Memᴰ c (d ∷ cs) (head e) = head (ap (λ (x : RouteCandidate). x.route) e)
routes_of-Memᴰ c (d ∷ cs) (tail m) = tail (routes_of-Memᴰ c cs m)

alone-few :
    (hosts : List (Bytes × ℕ)) (c : RouteCandidate) (n : ℕ)
    → counted c.route.host hosts ≡ n
    → alone hosts c ≡ true
    → n ≤ 1
alone-few hosts c n e h = ground (arith, e, h)

few-alone :
    (hosts : List (Bytes × ℕ)) (c : RouteCandidate) (n : ℕ)
    → counted c.route.host hosts ≡ n
    → n ≤ 1
    → alone hosts c ≡ true
few-alone hosts c n e h = ground (arith, e, h)

abbrev nothing : Skipped
nothing = record { list = []; by_reason = [] }

-- The counts of the sorted candidates are the occurrences among what the services describe.
hosts-occurrences :
    (texts : ErrorTexts) (prefix : Bytes) (ss : List ServiceInput) (host : Bytes)
    → counted host (count_hosts (sorted_candidates texts prefix ss).0 [])
      ≡ occurrences host (parsed prefix ss)
unfolding lookup
hosts-occurrences texts prefix ss host =
    let found = (parse_services texts prefix ss ([], nothing)).0 in
    let a = count_hosts-counted host (sort_stable less_candidate found) [] in
    let b =
      occurring-sort_stable less_candidate (λ (c : RouteCandidate). c.route.host == host) found in
    let d = occurring-routes_of host found in
    let e = ap (occurrences host) (parse_services-parsed texts prefix ss [] nothing) in
    let nowhere : counted host [] ≡ 0 = refl in omega (arith, a, b, d, e, nowhere)

build_discovered_routes-routes :
    (texts : ErrorTexts) (p : Bytes) (ss : List ServiceInput)
    → let sorted = (sorted_candidates texts (prefix_or_default p) ss).0 in
      (build_discovered_routes texts p ss).routes
      ≡ routes_of (select (alone (count_hosts sorted [])) sorted)
unfolding build_discovered_routes
build_discovered_routes-routes texts p ss =
    let (sorted, skipped) = sorted_candidates texts (prefix_or_default p) ss in
    keep_candidates-alone texts (count_hosts sorted []) sorted
      (record { routes = []; duplicates = []; skipped = skipped })

-- A route is in a snapshot exactly if a service describes it and no other service describes a route for
-- its host, in whatever order the services are given.
pub build_discovered_routes-once :
    (texts : ErrorTexts) (p : Bytes) (ss : List ServiceInput) (r : DiscoveredRoute)
    → Memᴰ r (build_discovered_routes texts p ss).routes ↔ (
        Memᴰ r (parsed (prefix_or_default p) ss)
        × (occurrences r.host (parsed (prefix_or_default p) ss) ≤ 1))
build_discovered_routes-once texts p ss r =
    let prefix = prefix_or_default p in
    let found = (parse_services texts prefix ss ([], nothing)).0 in
    let sorted = sort_stable less_candidate found in
    let all = parse_services-parsed texts prefix ss [] nothing in
    let built = build_discovered_routes-routes texts p ss in
    let times = hosts-occurrences texts prefix ss r.host in
    (
      λ m.
          let (c, same, single, there) =
            Memᴰ-routes_of r (alone (count_hosts sorted [])) sorted (subst (Memᴰ r) built m) in
          let inside = routes_of-Memᴰ c found (Memᴰ-sort_stable less_candidate c found there) in
          (
            subst (Memᴰ r) all (subst (λ x. Memᴰ x (routes_of found)) (sym same) inside),
            alone-few (count_hosts sorted []) c (occurrences r.host (parsed prefix ss))
                (ap (λ (x : DiscoveredRoute). counted x.host (count_hosts sorted [])) (sym same)
                  ∙ times)
                single,
          ),
      λ (m, few).
          let (c, same, there) = Memᴰ-routes_of_back r found (subst (Memᴰ r) (sym all) m) in
          let kept =
            Memᴰ-select (alone (count_hosts sorted [])) c sorted
              (few-alone (count_hosts sorted []) c (occurrences r.host (parsed prefix ss))
                (ap (λ (x : DiscoveredRoute). counted x.host (count_hosts sorted [])) (sym same)
                  ∙ times)
                few)
              (Memᴰ-sort_stable_back less_candidate c found there) in
          subst (Memᴰ r) (sym built) (
            subst (λ x. Memᴰ x (routes_of (select (alone (count_hosts sorted [])) sorted)))
              (sym same) (routes_of-Memᴰ c (select (alone (count_hosts sorted [])) sorted) kept)),
    )
