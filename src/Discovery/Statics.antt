-- ===== src/Discovery/Statics.antt =====
-- What the loop of merge.go over the static routes keeps of them, and which hosts it collects.
use mc_router.Prelude.{
  ◌≡◌, ◌≢◌, ◌⊎◌, inl, inr, refl, sym, ap, ◌∙◌, true, none, some, List, [], ◌∷◌, Bytes, codes, map,
  Option-cases, Bool-cases, ◌==◌, lookup, insert, lookup-insert, bytes_Eq, bytes_eq_iff,
}
use mathlib.Core.List.{Memᴰ}
use mathlib.Core.List.Memᴰ.{head, tail}
use mc_router.HostAddr.{normalize}
use mc_router.Config.{Route}
use mc_router.Config.Routes.{identities}
use mc_router.Discovery.Precedence.{static_aliases-cons}
use mc_router.Discovery.Merge.{Hosts, static_aliases, static_address, static_routes}

-- A name in its normal form, where it has one.
abbrev pub normal : Bytes → Bytes
normal name = elim (normalize name) [ none ↦ name | some host ↦ host ]

-- The route as it is kept: its names in normal form, marked as static, the rest as it was.
pub record IsNormalized (r route : Route) : Type 0 where
  pub server_address : route.server_address ≡ normal r.server_address
  pub aliases : route.aliases ≡ map normal r.aliases
  pub backend : route.backend ≡ r.backend
  pub status_backend : route.status_backend ≡ r.status_backend
  pub status_override : route.status_override ≡ r.status_override
  pub source : route.source ≡ codes "static"

-- Some name of a static route is this host.
pub record IsConfigured (host : Bytes) (statics : List Route) : Type 0 where
  pub route : Route
  pub listed : Memᴰ route statics
  pub name : Bytes
  pub given : Memᴰ name (identities route)
  pub normalized : normalize name ≡ some host

static_address-normal :
    (address : Bytes) (hosts : Hosts) → (static_address address hosts).0 ≡ normal address
unfolding static_address
static_address-normal address hosts = elim (Option-cases (normalize address)) [
  | inl e ↦ rw (static_address, normal, e) refl
  | inr (a, e) ↦ rw (static_address, normal, e) refl
]

static_aliases-normal :
    (aliases : List Bytes) (hosts : Hosts) → (static_aliases aliases hosts).0 ≡ map normal aliases
unfolding static_aliases
static_aliases-normal [] hosts = refl
static_aliases-normal (alias ∷ aliases) hosts = elim (Option-cases (normalize alias)) [
  | inl e ↦
      rw (static_aliases, normal, e) (ap (λ x. alias ∷ x) (static_aliases-normal aliases hosts))
  | inr (a, e) ↦
      rw (static_aliases, normal, e)
        (ap (λ x. a ∷ x) (static_aliases-normal aliases (insert a true hosts)))
]

insert-known :
    (a k : Bytes) (hosts : Hosts)
    → lookup k (insert a true hosts) ≢ none
    → (lookup k hosts ≢ none) ⊎ (a ≡ k)
insert-known a k hosts h = elim (Bool-cases (a == k)) [
  | inl same ↦ inr ((bytes_eq_iff a k).0 same)
  | inr other ↦ inl (λ e. h (lookup-insert a k true hosts ∙ rw (other) e))
]

-- A host in the set behind a static route's names was there before, or is one of them.
static_aliases-known :
    (aliases : List Bytes) (hosts : Hosts) (k : Bytes)
    → lookup k (static_aliases aliases hosts).1 ≢ none
    → (lookup k hosts ≢ none) ⊎ ((name : Bytes) × Memᴰ name aliases × (normalize name ≡ some k))
unfolding static_aliases
static_aliases-known [] hosts k h = inl h
static_aliases-known (alias ∷ aliases) hosts k h = elim (static_aliases-cons alias aliases hosts) [
  | inl (e, step) ↦ elim (static_aliases-known aliases hosts k (λ n. h (ap (lookup k) step ∙ n))) [
    | inl before ↦ inl before
    | inr (name, m, n) ↦ inr (name, tail m, n)
  ]
  | inr (a, e, step) ↦
      elim (static_aliases-known aliases (insert a true hosts) k
        (λ n. h (ap (lookup k) step ∙ n))) [
          | inr (name, m, n) ↦ inr (name, tail m, n)
          | inl before ↦ elim (insert-known a k hosts before) [
            | inl old ↦ inl old
            | inr same ↦ inr (alias, head refl, e ∙ ap (λ x. some x) same)
          ]
        ]
]

static_address-known :
    (address : Bytes) (hosts : Hosts) (k : Bytes)
    → lookup k (static_address address hosts).1 ≢ none
    → (lookup k hosts ≢ none) ⊎ (normalize address ≡ some k)
unfolding static_address
static_address-known address hosts k h = elim (Option-cases (normalize address)) [
  | inl e ↦ inl (λ n. h (rw (static_address, e) n))
  | inr (a, e) ↦ elim (insert-known a k hosts (λ n. h (rw (static_address, e) n))) [
    | inl old ↦ inl old
    | inr same ↦ inr (e ∙ ap (λ x. some x) same)
  ]
]

IsConfigured-tail :
    (host : Bytes) (r : Route) (rs : List Route) → IsConfigured host rs → IsConfigured host (r ∷ rs)
IsConfigured-tail host r rs h = record {
  route = h.route;
  listed = tail h.listed;
  name = h.name;
  given = h.given;
  normalized = h.normalized;
}

static_routes-known_from :
    (rs : List Route) (hosts : Hosts) (k : Bytes)
    → lookup k (static_routes rs hosts).1 ≢ none
    → (lookup k hosts ≢ none) ⊎ IsConfigured k rs
unfolding static_routes identities
static_routes-known_from [] hosts k h = inl h
static_routes-known_from (r ∷ rs) hosts k h =
    let behind = (static_address r.server_address hosts).1 in
    elim (static_routes-known_from rs (static_aliases r.aliases behind).1 k h) [
      | inr later ↦ inr (IsConfigured-tail k r rs later)
      | inl known ↦ elim (static_aliases-known r.aliases behind k known) [
        | inr (name, m, n) ↦
            inr (record {
              route = r;
              listed = head refl;
              name = name;
              given = tail m;
              normalized = n;
            })
        | inl before ↦ elim (static_address-known r.server_address hosts k before) [
          | inl old ↦ inl old
          | inr n ↦ inr (record {
            route = r;
            listed = head refl;
            name = r.server_address;
            given = head refl;
            normalized = n;
          })
        ]
      ]
    ]

-- The hosts that the loop over the static routes collects are names of those routes.
pub static_routes-known :
    (rs : List Route) (k : Bytes) → lookup k (static_routes rs []).1 ≢ none → IsConfigured k rs
unfolding lookup
static_routes-known rs k h = elim (static_routes-known_from rs [] k h) [
  | inl before ↦ absurd (before refl)
  | inr known ↦ known
]

-- The loop over the static routes keeps each of them.
pub static_routes-kept_each :
    (rs : List Route) (hosts : Hosts) (r : Route)
    → Memᴰ r rs
    → (route : Route) × Memᴰ route (static_routes rs hosts).0 × IsNormalized r route
unfolding static_routes
static_routes-kept_each [] hosts r m = elim m [ ]
static_routes-kept_each (r' ∷ rs) hosts r (tail m) =
    let behind = (static_address r'.server_address hosts).1 in
    let (route, listed, same) =
      static_routes-kept_each rs (static_aliases r'.aliases behind).1 r m in
    (route, tail listed, same)
static_routes-kept_each (r' ∷ rs) hosts r (head same) =
    let behind = (static_address r'.server_address hosts).1 in
    (
      _,
      head refl,
      record {
        server_address =
            static_address-normal r'.server_address hosts
            ∙ ap (λ (x : Route). normal x.server_address) (sym same);
        aliases =
            static_aliases-normal r'.aliases behind
            ∙ ap (λ (x : Route). map normal x.aliases) (sym same);
        backend = ap (λ (x : Route). x.backend) (sym same);
        status_backend = ap (λ (x : Route). x.status_backend) (sym same);
        status_override = ap (λ (x : Route). x.status_override) (sym same);
        source = refl;
      },
    )
