-- ===== src/Router/Laws.antt =====
-- What the router of router.go promises for a configuration that passed the checks.
use mc_router.Prelude.{
  ◌≡◌, ◌≢◌, ◌↔◌, inl, inr, refl, sym, ap, subst, ◌∙◌, arith, none, some, [], Bytes, append-nil,
  Option-cases, bytes_Eq, lookup, codes, if◌then◌else◌,
}
use mc_router.Go.Text.{is_empty}
use mathlib.Core.List.{Memᴰ}
use mc_router.HostAddr.{normalize}
use mc_router.Config.{Config, Route}
use mc_router.Config.Fields.{Env}
use mc_router.Config.Routes.{validate_routes}
use mc_router.Config.Validate.{
  validate, validate_sections, validate_services, validate_unknown_host, validate_default_route,
}
use mc_router.Router.{ok, Router, RouteEntry, new, select, entry_selection}
use mc_router.Router.Table.{Entered, add_routes-Entered}

validate-routes :
    (env : Env) (c : Config) → (validate env c).0 ≡ [] → validate_routes c.routes [] ≡ []
unfolding validate
validate-routes env c h =
    let (a, h1) = append-nil (validate_sections env c) _ h in
    let (b, h2) = append-nil (validate_services env c) _ h1 in
    let (d, h3) = append-nil (validate_unknown_host c.unknown_host_policy c.default_route) _ h2 in
    let (e, h4) = append-nil (validate_default_route c.default_route) _ h3 in h4

-- The router that the program builds, and what stands in its table.
new-table :
    (env : Env) (c : Config)
    → (validate env c).0 ≡ []
    → (r : Router) × (new env c ≡ ok r)
      × (r.default_backend ≡ c.default_route.backend)
      × (r.unknown_host_policy ≡ c.unknown_host_policy)
      × ((route : Route) → Memᴰ route c.routes → Entered route r.routes)
unfolding new
new-table env c h =
    let (table, built, kept, entered) =
      add_routes-Entered c.routes [] [] (validate-routes env c h) in
    (
      record {
        routes = table;
        default_backend = c.default_route.backend;
        unknown_host_policy = c.unknown_host_policy;
      },
      ground (arith, h, built),
      refl,
      refl,
      entered,
    )

new-valid : (env : Env) (c : Config) (r : Router) → new env c ≡ ok r → (validate env c).0 ≡ []
unfolding new
new-valid env c r h = ground (arith, h)

-- A router is built exactly for a configuration in which the checks find no error.
pub new_iff :
    (env : Env) (c : Config) → ((validate env c).0 ≡ []) ↔ ((r : Router) × (new env c ≡ ok r))
new_iff env c = (λ h. ((new-table env c h).0, (new-table env c h).1), λ s. new-valid env c s.0 s.1)

new-routes :
    (env : Env) (c : Config) (r : Router)
    → new env c ≡ ok r
    → (r.default_backend ≡ c.default_route.backend)
      × (r.unknown_host_policy ≡ c.unknown_host_policy)
      × ((route : Route) → Memᴰ route c.routes → Entered route r.routes)
new-routes env c r h =
    let (r', built, backend, policy, entered) = new-table env c (new-valid env c r h) in
    let same : r' ≡ r = cc in
    (
      sym (ap (λ x. x.default_backend) same) ∙ backend,
      sym (ap (λ x. x.unknown_host_policy) same) ∙ policy,
      subst (λ x. (route : Route) → Memᴰ route c.routes → Entered route x.routes) same entered,
    )

select-known :
    (r : Router) (raw k : Bytes) (entry : RouteEntry)
    → normalize raw ≡ some k
    → lookup k r.routes ≡ some entry
    → select r raw ≡ ok (entry_selection entry)
unfolding select
select-known r raw k entry n l = rw (select, n, l) refl

-- A client that asks for the server address of a configured route, in any spelling that is normalized
-- to the same, gets that route's backends, status override and source (static where the route names
-- none), matched as canonical, with the normal form as the canonical address.
pub select-server_address :
    (env : Env) (c : Config) (r : Router) (route : Route) (raw : Bytes)
    → new env c ≡ ok r
    → Memᴰ route c.routes
    → normalize raw ≡ normalize route.server_address
    → (k : Bytes) × (normalize raw ≡ some k)
      × (select r raw
          ≡ ok (record {
            backend = route.backend;
            status_backend = route.status_backend;
            matched_by = codes "route";
            match_kind = codes "canonical";
            route_source = if is_empty route.source then codes "static" else route.source;
            canonical_server_address = k;
            status_override = route.status_override;
          }))
select-server_address env c r route raw h m n =
    let (backend, policy, entered) = new-routes env c r h in
    let e = entered route m in
    (e.address, n ∙ e.normalized, select-known r raw e.address _ (n ∙ e.normalized) e.canonical)

-- A client that asks for an alias of a configured route, in any spelling that is normalized to the
-- same, gets that route's backends, status override and source (static where the route names none),
-- matched as an alias, with the normal form of the route's own address as the canonical address.
pub select-alias :
    (env : Env) (c : Config) (r : Router) (route : Route) (alias raw : Bytes)
    → new env c ≡ ok r
    → Memᴰ route c.routes
    → Memᴰ alias route.aliases
    → normalize raw ≡ normalize alias
    → normalize raw ≢ none
    → (k : Bytes) × (normalize route.server_address ≡ some k)
      × (select r raw
          ≡ ok (record {
            backend = route.backend;
            status_backend = route.status_backend;
            matched_by = codes "route";
            match_kind = codes "alias";
            route_source = if is_empty route.source then codes "static" else route.source;
            canonical_server_address = k;
            status_override = route.status_override;
          }))
select-alias env c r route alias raw h m m' n some_address =
    let (backend, policy, entered) = new-routes env c r h in
    let e = entered route m in
    elim (Option-cases (normalize raw)) [
      | inl none_address ↦ absurd (some_address none_address)
      | inr (k, found) ↦ (
        e.address,
        e.normalized,
        select-known r raw k _ found (e.aliased alias k m' (sym n ∙ found)),
      )
    ]
