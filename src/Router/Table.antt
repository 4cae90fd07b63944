-- ===== src/Router/Table.antt =====
-- The table of router.go, built from routes that passed the checks of the configuration.
use mc_router.Prelude.{
  Bool, true, ◌≡◌, inl, inr, refl, sym, subst, ◌∙◌, arith, none, some, List, [], ◌∷◌, Bytes,
  Option-cases, bytes_Eq, lookup, insert, lookup-insert_same, lookup-insert_other, append-nil,
}
use mathlib.Core.List.{Memᴰ}
use mathlib.Core.List.Memᴰ.{head, tail}
use mc_router.HostAddr.{normalize}
use mc_router.Config.{Route}
use mc_router.Config.Routes.{identities, check_identities, check_targets, validate_routes}
use mc_router.Router.{
  ok, RouteEntry, stored, add_aliases, add_route, add_routes, match_kind_alias,
  match_kind_canonical,
}

normalize-injects :
    {name other k a : Bytes}
    → name ≡ other
    → normalize name ≡ some k
    → normalize other ≡ some a
    → k ≡ a
normalize-injects same e e' = cc

-- The first name of a list that passed: it is normalized to an address that was not seen, and the
-- rest passed after it.
check_identities-cons :
    (name : Bytes) (names : List Bytes) (seen : List (Bytes × Bool))
    → (check_identities (name ∷ names) seen).0 ≡ []
    → (a : Bytes) × (normalize name ≡ some a)
      × (lookup a seen ≡ none)
      × (check_identities (name ∷ names) seen ≡ check_identities names (insert a true seen))
unfolding check_identities
check_identities-cons name names seen h = elim (Option-cases (normalize name)) [
  | inl n ↦ ground (arith, n)
  | inr (a, e) ↦ elim (Option-cases (lookup a seen)) [
    | inl l ↦ (a, e, l, ground (arith, e, l))
    | inr (b, l) ↦ ground (arith, e, l)
  ]
]

-- Names that passed leave what was seen as seen.
check_identities-kept :
    (names : List Bytes) (seen : List (Bytes × Bool)) (k : Bytes)
    → (check_identities names seen).0 ≡ []
    → lookup k seen ≡ some true
    → lookup k (check_identities names seen).1 ≡ some true
unfolding check_identities
check_identities-kept [] seen k h s = s
check_identities-kept (name ∷ names) seen k h s =
    let (a, e, l, step) = check_identities-cons name names seen h in
    rw step (
      check_identities-kept names (insert a true seen) k (rw (sym step) h)
        (lookup-insert_other a k true seen seen true l s ∙ s))

-- The names that passed are all seen afterwards.
check_identities-seen :
    (names : List Bytes) (seen : List (Bytes × Bool)) (name k : Bytes)
    → (check_identities names seen).0 ≡ []
    → Memᴰ name names
    → normalize name ≡ some k
    → lookup k (check_identities names seen).1 ≡ some true
check_identities-seen [] seen name k h m e = elim m [ ]
check_identities-seen (first ∷ names) seen name k h (head same) e =
    let (a, e', l, step) = check_identities-cons first names seen h in
    rw step (
      check_identities-kept names (insert a true seen) k (rw (sym step) h)
        (rw (normalize-injects same e e') (lookup-insert_same a true seen)))
check_identities-seen (first ∷ names) seen name k h (tail later) e =
    let (a, e', l, step) = check_identities-cons first names seen h in
    rw step (check_identities-seen names (insert a true seen) name k (rw (sym step) h) later e)

add_aliases-cons :
    (route : Route) (alias : Bytes) (aliases : List Bytes) (table : List (Bytes × RouteEntry))
    (a : Bytes)
    → normalize alias ≡ some a
    → add_aliases route (alias ∷ aliases) table
      ≡ add_aliases route aliases
          (insert a (record { route = route; match_kind = match_kind_alias }) table)
unfolding add_aliases
add_aliases-cons route alias aliases table a e = rw (add_aliases, e) refl

-- The aliases of a route that passed are all entered, over a table that holds only what was seen;
-- an address that was seen before keeps its entry.
add_aliases-ok :
    (route : Route) (aliases : List Bytes) (seen : List (Bytes × Bool))
    (table : List (Bytes × RouteEntry))
    → (check_identities aliases seen).0 ≡ []
    → (table' : List (Bytes × RouteEntry)) × (add_aliases route aliases table ≡ ok table')
      × ((k : Bytes) → lookup k seen ≡ some true → lookup k table' ≡ lookup k table)
      × ((alias k : Bytes)
          → Memᴰ alias aliases
          → normalize alias ≡ some k
          → lookup k table' ≡ some (record { route = route; match_kind = match_kind_alias }))
unfolding add_aliases
add_aliases-ok route [] seen table h = (table, refl, λ k s. refl, λ alias k m. elim m [ ])
add_aliases-ok route (first ∷ aliases) seen table h =
    let (a, e, l, step) = check_identities-cons first aliases seen h in
    let entry : RouteEntry = record { route = route; match_kind = match_kind_alias } in
    let (table', built, kept, entered) =
      add_aliases-ok route aliases (insert a true seen) (insert a entry table) (rw (sym step) h) in
    (
      table',
      add_aliases-cons route first aliases table a e ∙ built,
      λ k s.
          kept k (lookup-insert_other a k true seen seen true l s ∙ s)
          ∙ lookup-insert_other a k entry table seen true l s,
      λ alias k m n. elim m [
        | head same ↦
            rw (normalize-injects same n e)
              (kept a (lookup-insert_same a true seen) ∙ lookup-insert_same a entry table)
        | tail later ↦ entered alias k later n
      ],
    )

-- The route itself: all its names are entered.
pub record Entered (r : Route) (table : List (Bytes × RouteEntry)) : Type 0 where
  pub address : Bytes
  pub normalized : normalize r.server_address ≡ some address
  pub canonical :
      lookup address table
      ≡ some (record { route = stored r address; match_kind = match_kind_canonical })
  pub aliased :
      (alias k : Bytes)
      → Memᴰ alias r.aliases
      → normalize alias ≡ some k
      → lookup k table ≡ some (record { route = stored r address; match_kind = match_kind_alias })

add_route-step :
    (r : Route) (table : List (Bytes × RouteEntry)) (a : Bytes)
    → normalize r.server_address ≡ some a
    → add_route r table
      ≡ add_aliases
          (stored r a)
          r.aliases
          (insert a (record { route = stored r a; match_kind = match_kind_canonical }) table)
unfolding add_route
add_route-step r table a e = rw (add_route, e) refl

add_route-ok :
    (r : Route) (seen : List (Bytes × Bool)) (table : List (Bytes × RouteEntry))
    → (check_identities (identities r) seen).0 ≡ []
    → (table' : List (Bytes × RouteEntry)) × (add_route r table ≡ ok table')
      × ((k : Bytes) → lookup k seen ≡ some true → lookup k table' ≡ lookup k table)
      × Entered r table'
unfolding identities
add_route-ok r seen table h =
    let (a, e, l, step) = check_identities-cons r.server_address r.aliases seen h in
    let entry : RouteEntry = record { route = stored r a; match_kind = match_kind_canonical } in
    let (table', built, kept, entered) =
      add_aliases-ok (stored r a) r.aliases (insert a true seen) (insert a entry table)
        (rw (sym step) h) in
    (
      table',
      add_route-step r table a e ∙ built,
      λ k s.
          kept k (lookup-insert_other a k true seen seen true l s ∙ s)
          ∙ lookup-insert_other a k entry table seen true l s,
      record {
        address = a;
        normalized = e;
        canonical = kept a (lookup-insert_same a true seen) ∙ lookup-insert_same a entry table;
        aliased = entered;
      },
    )

-- What was entered for a route stays, where all its names stay.
Entered-kept :
    (r : Route) (table table' : List (Bytes × RouteEntry))
    → ((name k : Bytes)
        → Memᴰ name (identities r)
        → normalize name ≡ some k
        → lookup k table' ≡ lookup k table)
    → Entered r table
    → Entered r table'
unfolding identities
Entered-kept r table table' same e = record {
  address = e.address;
  normalized = e.normalized;
  canonical = same r.server_address e.address (head refl) e.normalized ∙ e.canonical;
  aliased = λ alias k m n. same alias k (tail m) n ∙ e.aliased alias k m n;
}

-- Routes that passed are all entered in the table.
pub add_routes-Entered :
    (rs : List Route) (seen : List (Bytes × Bool)) (table : List (Bytes × RouteEntry))
    → validate_routes rs seen ≡ []
    → (table' : List (Bytes × RouteEntry)) × (add_routes rs table ≡ ok table')
      × ((k : Bytes) → lookup k seen ≡ some true → lookup k table' ≡ lookup k table)
      × ((r : Route) → Memᴰ r rs → Entered r table')
unfolding add_routes validate_routes
add_routes-Entered [] seen table h = (table, refl, λ k s. refl, λ r m. elim m [ ])
add_routes-Entered (r ∷ rs) seen table h =
    let (names, others) = append-nil (check_identities (identities r) seen).0 _ h in
    let (targets, routes) = append-nil (check_targets r) _ others in
    let (table1, built1, kept1, entered1) = add_route-ok r seen table names in
    let (table2, built2, kept2, entered2) = add_routes-Entered rs _ table1 routes in
    (
      table2,
      rw (add_routes, built1) built2,
      λ k s. kept2 k (check_identities-kept (identities r) seen k names s) ∙ kept1 k s,
      λ r' m. elim m [
        | head same ↦
            subst (λ x. Entered x table2) (sym same)
              (Entered-kept r table1 table2
                (λ name k m' n.
                  kept2 k (check_identities-seen (identities r) seen name k names m' n))
                entered1)
        | tail later ↦ entered2 r' later
      ],
    )
