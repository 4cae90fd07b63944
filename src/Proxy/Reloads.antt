-- ===== src/Proxy/Reloads.antt =====
-- Reloads of internal/proxy/server.go, one by one and in any number, and the state that they leave.
use mc_router.Prelude.{
  ℕ, ◌+◌, ◌≤◌, ◌≡◌, ◌⊎◌, inl, inr, refl, sym, subst, arith, Bool, true, false, Option, none, some,
  List, [], ◌∷◌, if◌then◌else◌,
}
use mc_router.Config.{Config, Float64}
use mc_router.Config.Fields.{Env}
use mc_router.ClientPolicy as Policy
use mc_router.ProxyProtocol.{parse_cidrs}
use mc_router.RateLimit.{Float}
use mc_router.Router as Router
use mc_router.Discovery.Annotations.{DiscoveredRoute}
use mc_router.Discovery.Merge.{merge_routes}
use mc_router.Proxy.Snapshot.{
  RouteSnapshot, Error, load_failed, cancelled, Result, ok, err, build_route_snapshot, ServerState,
  new_server_state, Server, update_route_snapshot, Reloaded, panicked, failed, reloaded, swap,
  reload_config_locked, reload_file, Provided, discovered_routes_from, reload_config_with_discovery,
  update_discovered_routes,
}
use mc_router.Proxy.SnapshotLaws.{IsBuilt, build_route_snapshot-IsBuilt}

module _ (F : Float) (float64 : Float64 → Float.Carrier F) (env : Env) where
  -- The parts of the state belong to one configuration: the table of the routes and the parsed lists
  -- are those of `cfg`, whose routes are the static ones merged with the discovered ones.
  pub record IsConsistent (s : ServerState F float64) : Type 0 where
    pub table : Router.new env s.cfg ≡ Router.ok s.router
    pub policy :
        Policy.new s.cfg.client_policy.allow s.cfg.client_policy.deny ≡ some s.client_policy
    pub trusted : parse_cidrs s.cfg.proxy_protocol.trusted_proxies ≡ some s.trusted_proxies
    pub merged :
        s.cfg.routes
        ≡ (merge_routes s.static_config.routes s.discovered_routes
            s.static_config.default_route).routes

  -- A snapshot that was built becomes a state; the source does not panic.
  pub new_server_state-IsConsistent :
      (generation : ℕ) (s : RouteSnapshot)
      → IsBuilt env s
      → (t : ServerState F float64) × (new_server_state F float64 generation s ≡ some t)
        × (t.generation ≡ generation)
        × IsConsistent t
  unfolding new_server_state
  new_server_state-IsConsistent generation s b =
      let p = b.parsed in
      let state : ServerState F float64 = record {
        generation = generation;
        static_config = s.static_config;
        cfg = s.config;
        router = s.router;
        client_policy = p.policy;
        trusted_proxies = p.prefixes;
        limiter = [];
        discovery_merge = s.discovery_merge;
        discovered_routes = s.discovered_routes;
      } in
      (
        state,
        rw (new_server_state, p.policy_parsed, p.prefixes_parsed) (rw (b.static_listen) refl),
        refl,
        record {
          table = b.table;
          policy = p.policy_parsed;
          trusted = p.prefixes_parsed;
          merged = b.merged;
        },
      )

  -- What a reload may leave: the same server after an error, or the next generation.
  pub data Reload (s t : Server F float64) : Type 0 where
    kept : t ≡ s → Reload s t
    swapped :
        t.state.generation ≡ s.state.generation + 1
        → t.listen_address ≡ s.listen_address
        → IsConsistent t.state
        → Reload s t

  -- A call that did not panic, with what it left.
  pub data Returns (s : Server F float64) : Reloaded F float64 → Type 0 where
    after_failure : (e : Error) (t : Server F float64) → Reload s t → Returns s (failed e t)
    after_success : (t : Server F float64) → Reload s t → Returns s (reloaded t)

  swap-step :
      (server : Server F float64) (s : RouteSnapshot) (state : ServerState F float64)
      → new_server_state F float64 (server.state.generation + 1) s ≡ some state
      → swap F float64 server (ok s) ≡ reloaded (record server { state = state })
  unfolding swap update_route_snapshot
  swap-step server s state made = rw (swap, update_route_snapshot, made) refl

  swap-Returns :
      (server : Server F float64) (c : Config) (d : List DiscoveredRoute)
      (result : Result RouteSnapshot)
      → build_route_snapshot env c d ≡ result
      → Returns server (swap F float64 server result)
  unfolding swap
  swap-Returns server c d (err e) h = after_failure e server (kept refl)
  swap-Returns server c d (ok s) h =
      let (state, made, generation, consistent) =
        new_server_state-IsConsistent (server.state.generation + 1) s
          (build_route_snapshot-IsBuilt env c d s h).0 in
      subst (Returns server) (sym (swap-step server s state made))
        (after_success (record server { state = state }) (swapped generation refl consistent))

  reload_config_locked-Returns :
      (c : Config) (d : List DiscoveredRoute) (server : Server F float64)
      → Returns server (reload_config_locked F float64 env c d server)
  unfolding reload_config_locked
  reload_config_locked-Returns c d server =
      swap-Returns server c d (build_route_snapshot env c d) refl

  -- The calls that replace the state, with any file, provider and cancellation.
  pub data Call : Type 0 where
    file : Option Config → Call
    config : Config → Provided → Call
    discovery : Bool → Bool → Bool → Provided → Call

  abbrev pub run : Call → Server F float64 → Reloaded F float64
  run (file loaded) s = reload_file F float64 env loaded s
  run (config c p) s = reload_config_with_discovery F float64 env c p s
  run (discovery a b c p) s = update_discovered_routes F float64 env a b c p s

  Result-cases {ℓ} :
      {A : Type ℓ} (r : Result A) → ((e : Error) × (r ≡ err e)) ⊎ ((a : A) × (r ≡ ok a))
  Result-cases (ok a) = inr (a, refl)
  Result-cases (err e) = inl (e, refl)

  pub reload_config_with_discovery-Returns :
      (c : Config) (p : Provided) (s : Server F float64)
      → Returns s (reload_config_with_discovery F float64 env c p s)
  unfolding reload_config_with_discovery
  reload_config_with_discovery-Returns c p s = elim (Result-cases (discovered_routes_from p)) [
    | inl (e, h) ↦ rw (reload_config_with_discovery, h) (after_failure e s (kept refl))
    | inr (routes, h) ↦
        rw (reload_config_with_discovery, h) (reload_config_locked-Returns c routes s)
  ]

  -- The part of UpdateDiscoveredRoutes under the lock.
  locked-Returns :
      (under_lock at_swap : Bool) (routes : List DiscoveredRoute) (s : Server F float64)
      → Returns s (
          if under_lock
          then failed cancelled s
          else elim (build_route_snapshot env s.state.static_config routes) [
            | err e ↦ failed e s
            | ok b ↦ if at_swap then failed cancelled s else swap F float64 s (ok b)
          ])
  locked-Returns true at_swap routes s = after_failure cancelled s (kept refl)
  locked-Returns false true routes s =
      elim (Result-cases (build_route_snapshot env s.state.static_config routes)) [
        | inl (e, h) ↦ rw (h) (after_failure e s (kept refl))
        | inr (b, h) ↦ rw (h) (after_failure cancelled s (kept refl))
      ]
  locked-Returns false false routes s =
      elim (Result-cases (build_route_snapshot env s.state.static_config routes)) [
        | inl (e, h) ↦ rw (h) (after_failure e s (kept refl))
        | inr (b, h) ↦ rw (h) (swap-Returns s s.state.static_config routes (ok b) h)
      ]

  update_discovered_routes-Returns :
      (at_start under_lock at_swap : Bool) (p : Provided) (s : Server F float64)
      → Returns s (update_discovered_routes F float64 env at_start under_lock at_swap p s)
  unfolding update_discovered_routes
  update_discovered_routes-Returns true under_lock at_swap p s =
      after_failure cancelled s (kept refl)
  update_discovered_routes-Returns false under_lock at_swap p s =
      elim (Result-cases (discovered_routes_from p)) [
        | inl (e, h) ↦ rw (h) (after_failure e s (kept refl))
        | inr (routes, h) ↦ rw (h) (locked-Returns under_lock at_swap routes s)
      ]

  -- No reload panics: it leaves the server as it was, or the next generation with a consistent state and
  -- the same listen address.
  pub run-Returns : (call : Call) (s : Server F float64) → Returns s (run call s)
  unfolding reload_file
  run-Returns (file none) s = after_failure load_failed s (kept refl)
  run-Returns (file (some c)) s = reload_config_locked-Returns c s.state.discovered_routes s
  run-Returns (config c p) s = reload_config_with_discovery-Returns c p s
  run-Returns (discovery a b c p) s = update_discovered_routes-Returns a b c p s

  abbrev pub server_after : Server F float64 → Reloaded F float64 → Server F float64
  server_after s panicked = s
  server_after s (failed e t) = t
  server_after s (reloaded t) = t

  abbrev pub run_all : List Call → Server F float64 → Server F float64
  run_all [] s = s
  run_all (call ∷ calls) s = run_all calls (server_after s (run call s))

  Returns-after :
      {s : Server F float64} {r : Reloaded F float64} → Returns s r → Reload s (server_after s r)
  Returns-after (after_failure e t h) = h
  Returns-after (after_success t h) = h

  Reload-IsConsistent :
      {s t : Server F float64} → Reload s t → IsConsistent s.state → IsConsistent t.state
  Reload-IsConsistent (kept e) h = subst (λ x. IsConsistent x.state) (sym e) h
  Reload-IsConsistent (swapped g l h) k = h

  Reload-generation :
      {s t : Server F float64} → Reload s t → s.state.generation ≤ t.state.generation
  Reload-generation (kept e) = rw e (omega arith)
  Reload-generation (swapped g l h) = omega arith

  -- After any history of reloads, failed ones among them, the state is consistent and its generation has
  -- not gone back.
  pub run_all-IsConsistent :
      (calls : List Call) (s : Server F float64)
      → IsConsistent s.state
      → IsConsistent (run_all calls s).state
        × (s.state.generation ≤ (run_all calls s).state.generation)
  run_all-IsConsistent [] s h = (h, omega arith)
  run_all-IsConsistent (call ∷ calls) s h =
      let step = Returns-after (run-Returns call s) in
      let (rest, later) =
        run_all-IsConsistent calls (server_after s (run call s)) (Reload-IsConsistent step h) in
      let first = Reload-generation step in (rest, omega arith)
