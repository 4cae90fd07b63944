-- ===== src/Discovery/Precedence.antt =====
-- The names of static routes in the merge of merge.go.
use mc_router.Prelude.{
  ℕ, ◌≡◌, ◌⊎◌, inl, inr, refl, sym, ap, subst, ◌∙◌, arith, true, none, some, List, [], ◌∷◌, ◌++◌,
  Bytes, Option-cases, lookup, insert, bytes_Eq, lookup-insert, lookup-insert_same,
}
use mathlib.Core.List.{Memᴰ}
use mathlib.Core.List.Memᴰ.{head, tail}
use mc_router.Prelude.Members.{Memᴰ-append}
use mc_router.Prelude.Sorting.{sort_stable, Memᴰ-sort_stable}
use mc_router.HostAddr.{normalize}
use mc_router.Config.{Route, DefaultRoute}
use mc_router.Config.Routes.{identities}
use mc_router.Discovery.Annotations.{DiscoveredRoute}
use mc_router.Discovery.Merge.{
  Hosts, Ignored, static_aliases, static_address, static_routes, collect, less_config_route,
  less_discovered_candidate, discovered_config_route, select_candidates, merge_routes, none_ignored,
  route_source_static, add_ignored,
}
use mc_router.Discovery.Laws.{select_candidates-cons}

-- A host that is in the set stays in it.
insert-kept :
    (a k : Bytes) (hosts : Hosts)
    → lookup k hosts ≡ some true
    → lookup k (insert a true hosts) ≡ some true
insert-kept a k hosts h = ground (arith, lookup-insert a k true hosts, h)

-- An alias that has a normal form adds it to the set.
pub static_aliases-cons :
    (alias : Bytes) (aliases : List Bytes) (hosts : Hosts)
    → ((normalize alias ≡ none)
        × ((static_aliases (alias ∷ aliases) hosts).1 ≡ (static_aliases aliases hosts).1))
      ⊎ ((a : Bytes) × (normalize alias ≡ some a)
          × ((static_aliases (alias ∷ aliases) hosts).1
              ≡ (static_aliases aliases (insert a true hosts)).1))
unfolding static_aliases
static_aliases-cons alias aliases hosts = elim (Option-cases (normalize alias)) [
  | inl e ↦ inl (e, rw (static_aliases, e) refl)
  | inr (a, e) ↦ inr (a, e, rw (static_aliases, e) refl)
]

static_aliases-kept :
    (aliases : List Bytes) (hosts : Hosts) (k : Bytes)
    → lookup k hosts ≡ some true
    → lookup k (static_aliases aliases hosts).1 ≡ some true
unfolding static_aliases
static_aliases-kept [] hosts k h = h
static_aliases-kept (alias ∷ aliases) hosts k h = elim (static_aliases-cons alias aliases hosts) [
  | inl (e, step) ↦ rw (step) (static_aliases-kept aliases hosts k h)
  | inr (a, e, step) ↦
      rw (step) (static_aliases-kept aliases (insert a true hosts) k (insert-kept a k hosts h))
]

static_aliases-seen :
    (aliases : List Bytes) (hosts : Hosts) (name k : Bytes)
    → Memᴰ name aliases
    → normalize name ≡ some k
    → lookup k (static_aliases aliases hosts).1 ≡ some true
static_aliases-seen [] hosts name k m e = elim m [ ]
static_aliases-seen (alias ∷ aliases) hosts name k (head same) e =
    elim (static_aliases-cons alias aliases hosts) [
      | inl (n, step) ↦ cc
      | inr (a, n, step) ↦
          let key : k ≡ a = cc in
          rw (step) (
            static_aliases-kept aliases (insert a true hosts) k
              (rw (key) (lookup-insert_same a true hosts)))
    ]
static_aliases-seen (alias ∷ aliases) hosts name k (tail m) e =
    elim (static_aliases-cons alias aliases hosts) [
      | inl (n, step) ↦ rw (step) (static_aliases-seen aliases hosts name k m e)
      | inr (a, n, step) ↦ rw (step) (static_aliases-seen aliases (insert a true hosts) name k m e)
    ]

static_address-kept :
    (address : Bytes) (hosts : Hosts) (k : Bytes)
    → lookup k hosts ≡ some true
    → lookup k (static_address address hosts).1 ≡ some true
unfolding static_address
static_address-kept address hosts k h = elim (Option-cases (normalize address)) [
  | inl e ↦ rw (static_address, e) h
  | inr (a, e) ↦ rw (static_address, e) (insert-kept a k hosts h)
]

static_address-seen :
    (address : Bytes) (hosts : Hosts) (k : Bytes)
    → normalize address ≡ some k
    → lookup k (static_address address hosts).1 ≡ some true
unfolding static_address
static_address-seen address hosts k e = rw (static_address, e) (lookup-insert_same k true hosts)

static_routes-kept :
    (rs : List Route) (hosts : Hosts) (k : Bytes)
    → lookup k hosts ≡ some true
    → lookup k (static_routes rs hosts).1 ≡ some true
unfolding static_routes
static_routes-kept [] hosts k h = h
static_routes-kept (r ∷ rs) hosts k h =
    static_routes-kept rs _ k
      (static_aliases-kept r.aliases _ k (static_address-kept r.server_address hosts k h))

pub static_routes-seen :
    (rs : List Route) (hosts : Hosts) (r : Route) (name k : Bytes)
    → Memᴰ r rs
    → Memᴰ name (identities r)
    → normalize name ≡ some k
    → lookup k (static_routes rs hosts).1 ≡ some true
unfolding static_routes identities
static_routes-seen [] hosts r name k m n e = elim m [ ]
static_routes-seen (r' ∷ rs) hosts r name k (tail m) n e = static_routes-seen rs _ r name k m n e
static_routes-seen (r' ∷ rs) hosts r name k (head same) n e =
    elim (subst (λ x. Memᴰ name (identities x)) same n) [
      | head address ↦ static_routes-kept rs _ k (
          static_aliases-kept r'.aliases _ k
            (static_address-seen r'.server_address hosts k (sym (ap normalize address) ∙ e)))
      | tail alias ↦ static_routes-kept rs _ k (static_aliases-seen r'.aliases _ name k alias e)
    ]

static_routes-source :
    (rs : List Route) (hosts : Hosts) (r : Route)
    → Memᴰ r (static_routes rs hosts).0
    → r.source ≡ route_source_static
unfolding static_routes
static_routes-source [] hosts r m = elim m [ ]
static_routes-source (r' ∷ rs) hosts r m = elim m [
  | head same ↦ ap (λ x. x.source) same
  | tail m' ↦ static_routes-source rs _ r m'
]

-- A route that the loop over the candidates added has a host of no static route.
select_candidates-new :
    (hosts : Hosts) (counts : List (Bytes × ℕ)) (cs : List DiscoveredRoute) (routes : List Route)
    (i : Ignored) (route : Route)
    → Memᴰ route (select_candidates hosts counts cs (routes, i)).0
    → Memᴰ route routes ⊎ (lookup route.server_address hosts ≡ none)
unfolding select_candidates
select_candidates-new hosts counts [] routes i route m = inl m
select_candidates-new hosts counts (c ∷ cs) routes i route m =
    elim (select_candidates-cons hosts counts c cs routes i) [
      | inl (reason, step) ↦
          select_candidates-new hosts counts cs routes (add_ignored reason c i) route
            (subst (λ x. Memᴰ route x.0) step m)
      | inr (l, step) ↦
          elim (select_candidates-new hosts counts cs (routes ++ (discovered_config_route c ∷ [])) i
            route (subst (λ x. Memᴰ route x.0) step m)) [
              | inr new ↦ inr new
              | inl old ↦ elim (Memᴰ-append routes (discovered_config_route c ∷ []) route old) [
                | inl before ↦ inl before
                | inr added ↦ elim added [
                  | head same ↦ inr (ap (λ x. lookup x.server_address hosts) same ∙ l)
                  | tail nothing ↦ elim nothing [ ]
                ]
              ]
            ]
    ]

-- A merged route whose address is the normal form of an address or an alias of a static route is
-- itself a static route: discovery never takes over a configured name.
pub merge_routes-static :
    (statics : List Route) (discovered : List DiscoveredRoute) (d : DefaultRoute) (r : Route)
    (name : Bytes) (route : Route)
    → Memᴰ r statics
    → Memᴰ name (identities r)
    → normalize name ≡ some route.server_address
    → Memᴰ route (merge_routes statics discovered d).routes
    → route.source ≡ route_source_static
unfolding merge_routes
merge_routes-static statics discovered d r name route m n e found =
    let (routes, hosts) = static_routes statics [] in
    let known = static_routes-seen statics [] r name route.server_address m n e in
    let (candidates, counts, invalid) = collect discovered ([], [], none_ignored) in
    let ordered = sort_stable less_discovered_candidate candidates in
    elim (select_candidates-new hosts counts ordered routes invalid route
      (Memᴰ-sort_stable less_config_route route _ found)) [
        | inl static ↦ static_routes-source statics [] route static
        | inr absent ↦ cc
      ]
