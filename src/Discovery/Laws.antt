-- ===== src/Discovery/Laws.antt =====
-- What the merge of merge.go keeps.
use mc_router.Prelude.{
  ℕ, ◌+◌, ◌≡◌, ◌⊎◌, inl, inr, refl, arith, none, some, List, [], ◌∷◌, ◌++◌, Bytes, Option-cases,
  Bool-cases, length, length-append, ltb, lookup, bytes_Eq,
}
use mc_router.Prelude.Sorting.{sort_stable, length-sort_stable}
use mc_router.Config.{Route, DefaultRoute}
use mc_router.Discovery.Annotations.{DiscoveredRoute, count, counted}
use mc_router.Discovery.Merge.{
  Hosts, Ignored, static_aliases, static_address, static_routes, validate_discovered_route,
  add_ignored, collect, less_config_route, less_discovered_candidate, less_ignored,
  discovered_config_route, select_candidates, selected, merge_routes, none_ignored,
  reason_invalid_discovered, reason_duplicate_discovered, reason_static_route_precedence,
}

-- A discovered route is ignored as invalid, or becomes a candidate in its normal form.
pub collect-cons :
    (r : DiscoveredRoute) (rs cs : List DiscoveredRoute) (counts : List (Bytes × ℕ)) (i : Ignored)
    → ((validate_discovered_route r ≡ none)
        × (collect (r ∷ rs) (cs, counts, i)
            ≡ collect rs (cs, counts, add_ignored reason_invalid_discovered r i)))
      ⊎ ((c : DiscoveredRoute) × (validate_discovered_route r ≡ some c)
          × (collect (r ∷ rs) (cs, counts, i)
              ≡ collect rs (cs ++ (c ∷ []), count c.host counts, i)))
unfolding collect
collect-cons r rs cs counts i = elim (Option-cases (validate_discovered_route r)) [
  | inl e ↦ inl (e, rw (collect, e) refl)
  | inr (c, e) ↦ inr (c, e, rw (collect, e) refl)
]

length-add_ignored :
    (reason : Bytes) (r : DiscoveredRoute) (i : Ignored)
    → length (add_ignored reason r i).list ≡ length i.list + 1
unfolding add_ignored
length-add_ignored reason r i = length-append i.list _

length-collect :
    (rs cs : List DiscoveredRoute) (counts : List (Bytes × ℕ)) (i : Ignored)
    → length (collect rs (cs, counts, i)).0 + length (collect rs (cs, counts, i)).2.list
      ≡ length rs + (length cs + length i.list)
unfolding collect
length-collect [] cs counts i = omega arith
length-collect (r ∷ rs) cs counts i = elim (collect-cons r rs cs counts i) [
  | inl (e, step) ↦
      let ignored = add_ignored reason_invalid_discovered r i in
      let rest = length-collect rs cs counts ignored in
      let more = length-add_ignored reason_invalid_discovered r i in rw (step) (omega arith)
  | inr (c, e, step) ↦
      let rest = length-collect rs (cs ++ (c ∷ [])) (count c.host counts) i in
      let more = length-append cs (c ∷ []) in rw (step) (omega arith)
]

-- A candidate is ignored, or it becomes a route, and then no static route has its host.
pub select_candidates-cons :
    (hosts : Hosts) (counts : List (Bytes × ℕ)) (c : DiscoveredRoute) (cs : List DiscoveredRoute)
    (routes : List Route) (i : Ignored)
    → ((reason : Bytes) × (select_candidates hosts counts (c ∷ cs) (routes, i)
          ≡ select_candidates hosts counts cs (routes, add_ignored reason c i)))
      ⊎ ((lookup c.host hosts ≡ none)
          × (select_candidates hosts counts (c ∷ cs) (routes, i)
              ≡ select_candidates hosts counts cs (routes ++ (discovered_config_route c ∷ []), i)))
unfolding select_candidates
select_candidates-cons hosts counts c cs routes i =
    elim (Bool-cases (ltb 1 (counted c.host counts))) [
      | inl twice ↦ inl (reason_duplicate_discovered, rw (select_candidates, twice) refl)
      | inr once ↦ elim (Option-cases (lookup c.host hosts)) [
        | inl l ↦ inr (l, rw (select_candidates, once, l) refl)
        | inr (known, l) ↦
            inl (reason_static_route_precedence, rw (select_candidates, once, l) refl)
      ]
    ]

length-select_candidates :
    (hosts : Hosts) (counts : List (Bytes × ℕ)) (cs : List DiscoveredRoute) (routes : List Route)
    (i : Ignored)
    → length (select_candidates hosts counts cs (routes, i)).0
        + length (select_candidates hosts counts cs (routes, i)).1.list
      ≡ length cs + (length routes + length i.list)
unfolding select_candidates
length-select_candidates hosts counts [] routes i = omega arith
length-select_candidates hosts counts (c ∷ cs) routes i =
    elim (select_candidates-cons hosts counts c cs routes i) [
      | inl (reason, step) ↦
          let rest = length-select_candidates hosts counts cs routes (add_ignored reason c i) in
          let more = length-add_ignored reason c i in rw (step) (omega arith)
      | inr (l, step) ↦
          let route = discovered_config_route c in
          let rest = length-select_candidates hosts counts cs (routes ++ (route ∷ [])) i in
          let more = length-append routes (route ∷ []) in rw (step) (omega arith)
    ]

length-static_routes :
    (rs : List Route) (hosts : Hosts) → length (static_routes rs hosts).0 ≡ length rs
unfolding static_routes
length-static_routes [] hosts = refl
length-static_routes (r ∷ rs) hosts =
    let hosts1 = (static_address r.server_address hosts).1 in
    let rest = length-static_routes rs (static_aliases r.aliases hosts1).1 in omega arith

-- The merged and the ignored routes are as many as the static and the discovered ones.
pub merge_routes-counts :
    (statics : List Route) (discovered : List DiscoveredRoute) (d : DefaultRoute)
    → let m = merge_routes statics discovered d in
      (m.stats.merged_routes + m.stats.ignored_discovered_routes
        ≡ m.stats.static_routes + m.stats.discovered_routes)
      × (m.stats.merged_routes ≡ length m.routes)
      × (m.stats.ignored_discovered_routes ≡ length m.ignored)
unfolding merge_routes
merge_routes-counts statics discovered d =
    let (found, ignored) = selected statics discovered in
    let s1 = length-sort_stable less_config_route found in
    let s2 = length-sort_stable less_ignored ignored.list in
    let (candidates, counts, invalid) = collect discovered ([], [], none_ignored) in
    let ordered = sort_stable less_discovered_candidate candidates in
    let s3 = length-sort_stable less_discovered_candidate candidates in
    let (routes, hosts) = static_routes statics [] in
    let s4 = length-select_candidates hosts counts ordered routes invalid in
    let s5 = length-collect discovered [] [] none_ignored in
    let s6 = length-static_routes statics [] in (omega arith, refl, refl)
