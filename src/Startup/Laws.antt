-- ===== src/Startup/Laws.antt =====
-- What the start and a reload of cmd/mc-gateway leave.
use mc_router.Prelude.{
  ◌≡◌, ◌⊎◌, inl, inr, refl, arith, Option, none, some, List, Bool-cases, Option-cases,
}
use mc_router.Go.Text.{is_empty}
use mc_router.Config.{Config, Float64, KubernetesDiscovery}
use mc_router.Config.Fields.{Env}
use mc_router.Config.Validate.{validate}
use mc_router.RateLimit.{Float}
use mc_router.Discovery.Annotations.{ServiceInput, DiscoveredRoute}
use mc_router.Discovery.Controller as Controller
use mc_router.Proxy.Snapshot as Proxy
use mc_router.Proxy.Snapshot.{
  RouteSnapshot, Provided, no_provider, provided, discovered_routes_from, build_route_snapshot,
  Server, new_server, Reloaded, reload_file, reload_config_with_discovery,
}
use mc_router.Proxy.SnapshotLaws.{IsBuilt, build_route_snapshot-IsBuilt}
use mc_router.Proxy.Reloads.{
  IsConsistent, new_server_state-IsConsistent, Returns, run-Returns, file, config,
}
use mc_router.Startup.{
  Deps, Error, Result, ok, err, load_failed, build_report, rebuild_route_snapshot, from_snapshot,
  load_startup, Reply, refused, applied, apply_report, kubernetes_reload,
}

Result-cases {ℓ} :
    {A : Type ℓ} (r : Result A) → ((e : Error) × (r ≡ err e)) ⊎ ((a : A) × (r ≡ ok a))
Result-cases (ok a) = inr (a, refl)
Result-cases (err e) = inl (e, refl)

Routes-cases :
    (r : Proxy.Result (List DiscoveredRoute))
    → ((e : Proxy.Error) × (r ≡ Proxy.err e)) ⊎ ((a : List DiscoveredRoute) × (r ≡ Proxy.ok a))
Routes-cases (Proxy.ok a) = inr (a, refl)
Routes-cases (Proxy.err e) = inl (e, refl)

rebuild_route_snapshot-IsBuilt :
    (env : Env) (c : Config) (p : Provided) (s : RouteSnapshot)
    → rebuild_route_snapshot env c p ≡ Proxy.ok s
    → IsBuilt env s
unfolding rebuild_route_snapshot
rebuild_route_snapshot-IsBuilt env c p s h = elim (Bool-cases (is_empty (validate env c).0)) [
  | inr b ↦ ground (arith, b, h)
  | inl b ↦ elim (Routes-cases (discovered_routes_from p)) [
    | inl (e, q) ↦ ground (arith, b, q, h)
    | inr (routes, q) ↦
        (build_route_snapshot-IsBuilt env (validate env c).1 routes s ground (arith, b, q, h)).0
  ]
]

from_snapshot-ok :
    (report r : Option (List ServiceInput × Controller.Result)) (x : Proxy.Result RouteSnapshot)
    (s : RouteSnapshot)
    → from_snapshot report x ≡ ok (s, r)
    → x ≡ Proxy.ok s
from_snapshot-ok report r (Proxy.ok t) s h = ground (arith, h)
from_snapshot-ok report r (Proxy.err e) s h = cc

load_startup-IsBuilt :
    (env : Env) (deps : Deps) (loaded : Option Config) (s : RouteSnapshot)
    (report : Option (List ServiceInput × Controller.Result))
    → load_startup env deps loaded ≡ ok (s, report)
    → IsBuilt env s
unfolding load_startup
load_startup-IsBuilt env deps none s report h = cc
load_startup-IsBuilt env deps (some c) s report h = elim (Bool-cases c.discovery.enabled) [
  | inr b ↦ rebuild_route_snapshot-IsBuilt env c no_provider s (
      from_snapshot-ok none report (rebuild_route_snapshot env c no_provider) s ground
        (arith, b, h))
  | inl b ↦ elim (Result-cases (build_report deps c.discovery)) [
    | inl (e, q) ↦ ground (arith, b, q, h)
    | inr (found, q) ↦ rebuild_route_snapshot-IsBuilt env c (provided found.1.routes) s (
        from_snapshot-ok (some found) report
          (rebuild_route_snapshot env c (provided found.1.routes)) s ground (arith, b, q, h))
  ]
]

module _ (F : Float) (float64 : Float64 → Float.Carrier F) (env : Env) where
  -- A start that succeeds gives a server of the first generation with a consistent state: making it
  -- does not panic.
  pub load_startup-IsConsistent :
      (deps : Deps) (loaded : Option Config) (s : RouteSnapshot)
      (report : Option (List ServiceInput × Controller.Result))
      → load_startup env deps loaded ≡ ok (s, report)
      → (server : Server F float64) × (new_server F float64 s ≡ some server)
        × (server.state.generation ≡ 1)
        × IsConsistent F float64 env server.state
  unfolding new_server
  load_startup-IsConsistent deps loaded s report h =
      let built = load_startup-IsBuilt env deps loaded s report h in
      let (state, made, first, good) = new_server_state-IsConsistent F float64 env 1 s built in
      (
        record { state = state; listen_address = s.config.listen },
        rw (new_server, made) refl,
        first,
        good,
      )

  -- A reload that was refused in front of the server, or what the server made of it.
  pub data IsAnswered (server : Server F float64) : Reply F float64 → Type 0 where
    not_applied : (e : Error) → IsAnswered server (refused e)
    answered :
        (r : Reloaded F float64) → Returns F float64 env server r → IsAnswered server (applied r)

  apply_report-IsAnswered :
      (c : Config) (report : Result (List ServiceInput × Controller.Result))
      (server : Server F float64)
      → IsAnswered server (apply_report F float64 env c report server)
  apply_report-IsAnswered c (err e) server = not_applied e
  apply_report-IsAnswered c (ok report) server =
      answered (reload_config_with_discovery F float64 env c (provided report.1.routes) server)
        (run-Returns F float64 env (config c (provided report.1.routes)) server)

  -- A reload with discovery does not panic either: it is refused, or leaves the server as it was or in
  -- the next generation with a consistent state.
  pub kubernetes_reload-IsAnswered :
      (deps : Deps) (k : KubernetesDiscovery) (loaded : Option Config) (server : Server F float64)
      → IsAnswered server (kubernetes_reload F float64 env deps k loaded server)
  unfolding kubernetes_reload
  kubernetes_reload-IsAnswered deps k loaded server = elim (Bool-cases k.enabled) [
    | inr b ↦ rw (b) (
        answered (reload_file F float64 env loaded server)
          (run-Returns F float64 env (file loaded) server))
    | inl b ↦ rw (b) (elim (Option-cases loaded) [
      | inl e ↦ rw (e) (not_applied load_failed)
      | inr (c, e) ↦ rw (e) (apply_report-IsAnswered c (build_report deps k) server)
    ])
  ]
