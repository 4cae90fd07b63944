-- ===== src/Discovery/Candidates.antt =====
-- What the two loops of merge.go over the discovered routes do with each of them.
use mc_router.Prelude.{
  ℕ, ◌+◌, ◌<◌, ◌≤◌, ◌≡◌, ◌≢◌, ◌⊎◌, inl, inr, ap, ◌∙◌, arith, none, some, List, [], ◌∷◌, ◌++◌, Bytes,
  Option-cases, Bool-cases, ltb, lookup, if◌then◌else◌, ◌==◌, bytes_Eq,
}
use mathlib.Core.List.{Memᴰ}
use mathlib.Core.List.Memᴰ.{head, tail}
use mc_router.Prelude.Members.{Memᴰ-append_left, Memᴰ-append_last}
use mc_router.Config.{Route}
use mc_router.Discovery.Annotations.{DiscoveredRoute, count, counted}
use mc_router.Discovery.ControllerLaws.{counted-count}
use mc_router.Discovery.Laws.{collect-cons, select_candidates-cons}
use mc_router.Discovery.Merge.{
  Hosts, Ignored, IgnoredRoute, validate_discovered_route, add_ignored, collect,
  discovered_config_route, select_candidates, reason_invalid_discovered,
  reason_duplicate_discovered, reason_static_route_precedence,
}

-- How often a host is discovered, by the normal forms of the routes that are valid.
abbrev pub times : Bytes → List DiscoveredRoute → ℕ
times host [] = 0
times host (r ∷ rs) = elim (validate_discovered_route r) [
  | none ↦ times host rs
  | some c ↦ (if c.host == host then 1 else 0) + times host rs
]

-- A route that was left out, for a reason.
abbrev pub ignored_for : Bytes → DiscoveredRoute → IgnoredRoute
ignored_for reason r = record { host = r.host; backend = r.backend; reason = reason }

add_ignored-kept :
    (reason : Bytes) (r : DiscoveredRoute) (i : Ignored) (x : IgnoredRoute)
    → Memᴰ x i.list
    → Memᴰ x (add_ignored reason r i).list
unfolding add_ignored
add_ignored-kept reason r i x m = Memᴰ-append_left x i.list (ignored_for reason r ∷ []) m

add_ignored-added :
    (reason : Bytes) (r : DiscoveredRoute) (i : Ignored)
    → Memᴰ (ignored_for reason r) (add_ignored reason r i).list
unfolding add_ignored
add_ignored-added reason r i = Memᴰ-append_last (ignored_for reason r) i.list

collect-ignored_kept :
    (rs cs : List DiscoveredRoute) (counts : List (Bytes × ℕ)) (i : Ignored) (x : IgnoredRoute)
    → Memᴰ x i.list
    → Memᴰ x (collect rs (cs, counts, i)).2.list
unfolding collect
collect-ignored_kept [] cs counts i x m = m
collect-ignored_kept (r ∷ rs) cs counts i x m = elim (collect-cons r rs cs counts i) [
  | inl (e, step) ↦
      rw (step)
        (collect-ignored_kept rs cs counts _ x (add_ignored-kept reason_invalid_discovered r i x m))
  | inr (c, e, step) ↦ rw (step) (collect-ignored_kept rs _ _ i x m)
]

collect-candidate_kept :
    (rs cs : List DiscoveredRoute) (counts : List (Bytes × ℕ)) (i : Ignored) (x : DiscoveredRoute)
    → Memᴰ x cs
    → Memᴰ x (collect rs (cs, counts, i)).0
unfolding collect
collect-candidate_kept [] cs counts i x m = m
collect-candidate_kept (r ∷ rs) cs counts i x m = elim (collect-cons r rs cs counts i) [
  | inl (e, step) ↦ rw (step) (collect-candidate_kept rs cs counts _ x m)
  | inr (c, e, step) ↦
      rw (step) (collect-candidate_kept rs _ _ i x (Memᴰ-append_left x cs (c ∷ []) m))
]

-- A discovered route is ignored as invalid, or its normal form becomes a candidate.
pub collect-each :
    (rs cs : List DiscoveredRoute) (counts : List (Bytes × ℕ)) (i : Ignored) (r : DiscoveredRoute)
    → Memᴰ r rs
    → ((validate_discovered_route r ≡ none)
        × Memᴰ (ignored_for reason_invalid_discovered r) (collect rs (cs, counts, i)).2.list)
      ⊎ ((c : DiscoveredRoute) × (validate_discovered_route r ≡ some c)
          × Memᴰ c (collect rs (cs, counts, i)).0)
collect-each [] cs counts i r m = elim m [ ]
collect-each (r' ∷ rs) cs counts i r (head same) = elim (collect-cons r' rs cs counts i) [
  | inl (e, step) ↦ inl (
    ap validate_discovered_route same ∙ e,
    rw (step, same)
        (collect-ignored_kept rs cs counts _ _ (add_ignored-added reason_invalid_discovered r' i)),
  )
  | inr (c, e, step) ↦ inr (
    c,
    ap validate_discovered_route same ∙ e,
    rw (step) (collect-candidate_kept rs _ _ i c (Memᴰ-append_last c cs)),
  )
]
collect-each (r' ∷ rs) cs counts i r (tail m) = elim (collect-cons r' rs cs counts i) [
  | inl (e, step) ↦ rw (step) (collect-each rs cs counts _ r m)
  | inr (c, e, step) ↦ rw (step) (collect-each rs _ _ i r m)
]

-- The hosts are counted by their normal forms.
pub counted-collect :
    (host : Bytes) (rs cs : List DiscoveredRoute) (counts : List (Bytes × ℕ)) (i : Ignored)
    → counted host (collect rs (cs, counts, i)).1 ≡ times host rs + counted host counts
unfolding collect
counted-collect host [] cs counts i = omega arith
counted-collect host (r ∷ rs) cs counts i = elim (collect-cons r rs cs counts i) [
  | inl (e, step) ↦ rw (step, times, e) (counted-collect host rs cs counts _)
  | inr (c, e, step) ↦
      let rest = counted-collect host rs (cs ++ (c ∷ [])) (count c.host counts) i in
      let first = counted-count c.host host counts in
      rw (step, times, e) ground (arith, rest, first)
]

-- What becomes of a candidate, by the counts and the static hosts.
pub data Fate (hosts : Hosts) (counts : List (Bytes × ℕ)) (c : DiscoveredRoute)
    (routes : List Route) (ignored : List IgnoredRoute) : Type 0 where
  repeated :
      1 < counted c.host counts
      → Memᴰ (ignored_for reason_duplicate_discovered c) ignored
      → Fate hosts counts c routes ignored
  taken :
      counted c.host counts ≤ 1
      → lookup c.host hosts ≢ none
      → Memᴰ (ignored_for reason_static_route_precedence c) ignored
      → Fate hosts counts c routes ignored
  merged :
      counted c.host counts ≤ 1
      → lookup c.host hosts ≡ none
      → Memᴰ (discovered_config_route c) routes
      → Fate hosts counts c routes ignored

-- What has been merged before the loop stays merged.
pub select_candidates-kept :
    (hosts : Hosts) (counts : List (Bytes × ℕ)) (cs : List DiscoveredRoute) (routes : List Route)
    (i : Ignored) (route : Route)
    → Memᴰ route routes
    → Memᴰ route (select_candidates hosts counts cs (routes, i)).0
unfolding select_candidates
select_candidates-kept hosts counts [] routes i route m = m
select_candidates-kept hosts counts (c ∷ cs) routes i route m =
    elim (select_candidates-cons hosts counts c cs routes i) [
      | inl (reason, step) ↦ rw (step) (select_candidates-kept hosts counts cs routes _ route m)
      | inr (l, step) ↦ rw (step) (
          select_candidates-kept hosts counts cs _ i route
            (Memᴰ-append_left route routes (discovered_config_route c ∷ []) m))
    ]

-- What has been ignored before the loop stays ignored.
pub select_candidates-ignored_kept :
    (hosts : Hosts) (counts : List (Bytes × ℕ)) (cs : List DiscoveredRoute) (routes : List Route)
    (i : Ignored) (x : IgnoredRoute)
    → Memᴰ x i.list
    → Memᴰ x (select_candidates hosts counts cs (routes, i)).1.list
unfolding select_candidates
select_candidates-ignored_kept hosts counts [] routes i x m = m
select_candidates-ignored_kept hosts counts (c ∷ cs) routes i x m =
    elim (select_candidates-cons hosts counts c cs routes i) [
      | inl (reason, step) ↦ rw (step) (
          select_candidates-ignored_kept hosts counts cs routes _ x
            (add_ignored-kept reason c i x m))
      | inr (l, step) ↦ rw (step) (select_candidates-ignored_kept hosts counts cs _ i x m)
    ]

-- The loop over the candidates gives the first one its fate.
select_candidates-first :
    (hosts : Hosts) (counts : List (Bytes × ℕ)) (c : DiscoveredRoute) (cs : List DiscoveredRoute)
    (routes : List Route) (i : Ignored)
    → Fate hosts counts c
        (select_candidates hosts counts (c ∷ cs) (routes, i)).0
        (select_candidates hosts counts (c ∷ cs) (routes, i)).1.list
unfolding select_candidates
select_candidates-first hosts counts c cs routes i =
    elim (Bool-cases (ltb 1 (counted c.host counts))) [
      | inl twice ↦
          repeated ground (arith, twice)
            (rw (select_candidates, twice)
              (select_candidates-ignored_kept hosts counts cs routes _ _
                (add_ignored-added reason_duplicate_discovered c i)))
      | inr once ↦ elim (Option-cases (lookup c.host hosts)) [
        | inl l ↦
            merged ground (arith, once) l
              (rw (select_candidates, once, l)
                (select_candidates-kept hosts counts cs _ i _
                  (Memᴰ-append_last (discovered_config_route c) routes)))
        | inr (known, l) ↦
            taken ground (arith, once) (λ e. cc)
              (rw (select_candidates, once, l)
                (select_candidates-ignored_kept hosts counts cs routes _ _
                  (add_ignored-added reason_static_route_precedence c i)))
      ]
    ]

pub select_candidates-Fate :
    (hosts : Hosts) (counts : List (Bytes × ℕ)) (cs : List DiscoveredRoute) (routes : List Route)
    (i : Ignored) (c : DiscoveredRoute)
    → Memᴰ c cs
    → Fate hosts counts c
        (select_candidates hosts counts cs (routes, i)).0
        (select_candidates hosts counts cs (routes, i)).1.list
select_candidates-Fate hosts counts [] routes i c m = elim m [ ]
select_candidates-Fate hosts counts (c' ∷ cs) routes i c (head same) =
    rw (same) (select_candidates-first hosts counts c' cs routes i)
select_candidates-Fate hosts counts (c' ∷ cs) routes i c (tail m) =
    elim (select_candidates-cons hosts counts c' cs routes i) [
      | inl (reason, step) ↦ rw (step) (select_candidates-Fate hosts counts cs routes _ c m)
      | inr (l, step) ↦ rw (step) (select_candidates-Fate hosts counts cs _ i c m)
    ]
