-- ===== src/BedrockRoute/Laws.antt =====
-- What the table of the Bedrock routes promises.
use mc_router.Prelude.{
  ◌≡◌, inl, inr, refl, sym, ap, subst, ◌∙◌, arith, true, none, some, List, [], ◌∷◌, Bytes,
  Option-cases, lookup, insert, bytes_Eq, lookup-insert_same, lookup-insert_other,
}
use mathlib.Core.List.{Memᴰ}
use mathlib.Core.List.Memᴰ.{head, tail}
use mc_router.BedrockRoute.{
  Route, Selection, Router, normalize_host, add_hosts, add_routes, new_router, select,
}

abbrev route_selection : Route → Selection
route_selection r = record { route_name = r.name; backend = r.backend; matched = true }

add_hosts-cons :
    (r : Route) (raw : Bytes) (raws : List Bytes) (hosts hosts' : List (Bytes × Selection))
    → add_hosts r (raw ∷ raws) hosts ≡ some hosts'
    → (a : Bytes) × (normalize_host raw ≡ some a)
      × (lookup a hosts ≡ none)
      × (add_hosts r raws (insert a (route_selection r) hosts) ≡ some hosts')
unfolding add_hosts
add_hosts-cons r raw raws hosts hosts' h = elim (Option-cases (normalize_host raw)) [
  | inl e ↦ ground (arith, e)
  | inr (a, e) ↦ elim (Option-cases (lookup a hosts)) [
    | inl l ↦ (a, e, l, ground (arith, e, l))
    | inr (s, l) ↦ ground (arith, e, l)
  ]
]

-- A host that is there keeps its selection.
add_hosts-kept :
    (r : Route) (raws : List Bytes) (hosts hosts' : List (Bytes × Selection)) (k : Bytes)
    (s : Selection)
    → add_hosts r raws hosts ≡ some hosts'
    → lookup k hosts ≡ some s
    → lookup k hosts' ≡ some s
unfolding add_hosts
add_hosts-kept r [] hosts hosts' k s h there = cc
add_hosts-kept r (raw ∷ raws) hosts hosts' k s h there =
    let (a, e, l, rest) = add_hosts-cons r raw raws hosts hosts' h in
    add_hosts-kept r raws _ hosts' k s rest
      (lookup-insert_other a k _ hosts hosts s l there ∙ there)

add_hosts-entered :
    (r : Route) (raws : List Bytes) (hosts hosts' : List (Bytes × Selection)) (raw k : Bytes)
    → add_hosts r raws hosts ≡ some hosts'
    → Memᴰ raw raws
    → (a : Bytes) × (normalize_host raw ≡ some a) × (lookup a hosts' ≡ some (route_selection r))
add_hosts-entered r [] hosts hosts' raw k h m = elim m [ ]
add_hosts-entered r (first ∷ raws) hosts hosts' raw k h (head same) =
    let (a, e, l, rest) = add_hosts-cons r first raws hosts hosts' h in
    (
      a,
      ap normalize_host same ∙ e,
      add_hosts-kept r raws _ hosts' a _ rest (lookup-insert_same a (route_selection r) hosts),
    )
add_hosts-entered r (first ∷ raws) hosts hosts' raw k h (tail m) =
    let (a, e, l, rest) = add_hosts-cons r first raws hosts hosts' h in
    add_hosts-entered r raws _ hosts' raw k rest m

add_routes-cons :
    (r : Route) (rs : List Route) (hosts hosts' : List (Bytes × Selection))
    → add_routes (r ∷ rs) hosts ≡ some hosts'
    → (mid : List (Bytes × Selection)) × (add_hosts r r.hosts hosts ≡ some mid)
      × (add_routes rs mid ≡ some hosts')
unfolding add_routes
add_routes-cons r rs hosts hosts' h = elim (Option-cases (add_hosts r r.hosts hosts)) [
  | inl e ↦ ground (arith, e)
  | inr (mid, e) ↦ (mid, e, ground (arith, e))
]

add_routes-kept :
    (rs : List Route) (hosts hosts' : List (Bytes × Selection)) (k : Bytes) (s : Selection)
    → add_routes rs hosts ≡ some hosts'
    → lookup k hosts ≡ some s
    → lookup k hosts' ≡ some s
unfolding add_routes
add_routes-kept [] hosts hosts' k s h there = cc
add_routes-kept (r ∷ rs) hosts hosts' k s h there =
    let (mid, e, rest) = add_routes-cons r rs hosts hosts' h in
    add_routes-kept rs mid hosts' k s rest (add_hosts-kept r r.hosts hosts mid k s e there)

add_routes-entered :
    (rs : List Route) (hosts hosts' : List (Bytes × Selection)) (r : Route) (raw : Bytes)
    → add_routes rs hosts ≡ some hosts'
    → Memᴰ r rs
    → Memᴰ raw r.hosts
    → (a : Bytes) × (normalize_host raw ≡ some a) × (lookup a hosts' ≡ some (route_selection r))
add_routes-entered [] hosts hosts' r raw h m n = elim m [ ]
add_routes-entered (r' ∷ rs) hosts hosts' r raw h (tail m) n =
    let (mid, e, rest) = add_routes-cons r' rs hosts hosts' h in
    add_routes-entered rs mid hosts' r raw rest m n
add_routes-entered (r' ∷ rs) hosts hosts' r raw h (head same) n =
    let (mid, e, rest) = add_routes-cons r' rs hosts hosts' h in
    let (a, known, l) =
      add_hosts-entered r' r'.hosts hosts mid raw raw e (subst (λ x. Memᴰ raw x.hosts) same n) in
    (
      a,
      known,
      add_routes-kept rs mid hosts' a _ rest l ∙ ap (λ x. some (route_selection x)) (sym same),
    )

select-known :
    (t : Router) (requested a : Bytes) (s : Selection)
    → normalize_host requested ≡ some a
    → lookup a t.hosts ≡ some s
    → select t requested ≡ s
unfolding select
select-known t requested a s e l = rw (select, e, l) refl

new_router-hosts :
    (d : Bytes) (rs : List Route) (t : Router)
    → new_router d rs ≡ some t
    → add_routes rs [] ≡ some t.hosts
unfolding new_router
new_router-hosts d rs t h = elim (Option-cases (add_routes rs [])) [
  | inl e ↦ ground (arith, e)
  | inr (hosts, e) ↦ ground (arith, e, h)
]

-- In a table that could be built, a request for a host of a route, in any spelling that is normalized
-- to the same, selects that route.
pub select-configured_host :
    (d : Bytes) (rs : List Route) (t : Router) (r : Route) (host requested : Bytes)
    → new_router d rs ≡ some t
    → Memᴰ r rs
    → Memᴰ host r.hosts
    → normalize_host requested ≡ normalize_host host
    → select t requested ≡ record { route_name = r.name; backend = r.backend; matched = true }
select-configured_host d rs t r host requested h m n same =
    let (a, e, l) = add_routes-entered rs [] t.hosts r host (new_router-hosts d rs t h) m n in
    select-known t requested a _ (same ∙ e) l
