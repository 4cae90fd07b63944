-- ===== src/Proxy/Snapshot.antt =====
-- internal/proxy/server.go: the state that a connection reads, and its replacement on a reload. The
-- state is replaced whole under snapshotMu; copies of a value are the value.
use mc_router.Prelude.{ℕ, ◌+◌, Bool, Option, none, some, List, [], Bytes, if◌then◌else◌}
use mc_router.Prelude.Int.{pos_part}
use mc_router.Go.Text.{is_empty}
use mc_router.Go.Netip.{Prefix}
use mc_router.Config.{Config, Float64}
use mc_router.Config.Fields.{Env}
use mc_router.Config.Validate.{validate}
use mc_router.ClientPolicy as Policy
use mc_router.ProxyProtocol.{parse_cidrs}
use mc_router.RateLimit as RateLimit
use mc_router.RateLimit.{Float}
use mc_router.Router as Router
use mc_router.Discovery.Annotations.{DiscoveredRoute}
use mc_router.Discovery.Merge.{MergeResult, merge_routes}

pub record RouteSnapshot : Type 0 where
  pub static_config : Config
  pub config : Config
  pub router : Router.Router
  pub discovery_merge : MergeResult
  pub discovered_routes : List DiscoveredRoute

pub data Error : Type 0 where
  load_failed invalid_config provider_failed cancelled : Error

pub data Result {ℓ} (A : Type ℓ) : Type ℓ where
  ok : A → Result A
  err : Error → Result A

unfoldable pub snapshot_of :
    Config
    → Config
    → MergeResult
    → List DiscoveredRoute
    → Router.Result Router.Router
    → Result RouteSnapshot
snapshot_of c merged merge discovered (Router.err e) = err invalid_config
snapshot_of c merged merge discovered (Router.ok table) = ok (record {
  static_config = c;
  config = merged;
  router = table;
  discovery_merge = merge;
  discovered_routes = discovered;
})

-- Validate stores the voice chat tokens in a map that the copies share: `(validate env c).1`.
unfoldable pub build_route_snapshot : Env → Config → List DiscoveredRoute → Result RouteSnapshot
build_route_snapshot env c discovered =
    if is_empty (validate env c).0
    then (let checked = (validate env c).1 in
        let merge = merge_routes checked.routes discovered checked.default_route in
        let merged = record checked { routes = merge.routes } in
        snapshot_of checked merged merge discovered (Router.new env merged))
    else err invalid_config

-- What the provider gives; there may be no provider.
pub data Provided : Type 0 where
  no_provider provider_error : Provided
  provided : List DiscoveredRoute → Provided

unfoldable pub discovered_routes_from : Provided → Result (List DiscoveredRoute)
discovered_routes_from no_provider = ok []
discovered_routes_from provider_error = err provider_failed
discovered_routes_from (provided routes) = ok routes

module _ (F : Float) (float64 : Float64 → Float.Carrier F) where
  -- The limiter's configuration, from numbers that have been checked where it is enabled.
  abbrev pub limiter_config : Config → RateLimit.Config F
  limiter_config c = record {
    enabled = c.client_rate_limit.enabled;
    connections_per_second = float64 c.client_rate_limit.connections_per_second;
    burst = pos_part c.client_rate_limit.burst;
    idle_timeout = pos_part c.client_rate_limit.idle_timeout;
    max_entries = pos_part c.client_rate_limit.max_entries;
  }

  pub record ServerState : Type 0 where
    pub generation : ℕ
    pub static_config : Config
    pub cfg : Config
    pub router : Router.Router
    pub client_policy : Policy.Policy
    pub trusted_proxies : List Prefix
    -- The table of the limiter, which starts empty.
    pub limiter : RateLimit.Entries F
    pub discovery_merge : MergeResult
    pub discovered_routes : List DiscoveredRoute

  -- None is the panic of the source.
  unfoldable pub new_server_state : ℕ → RouteSnapshot → Option ServerState
  new_server_state generation s =
      elim (Policy.new s.config.client_policy.allow s.config.client_policy.deny) [
        | none ↦ none
        | some policy ↦ elim (parse_cidrs s.config.proxy_protocol.trusted_proxies) [
          | none ↦ none
          | some prefixes ↦ some (record {
            generation = generation;
            static_config = if is_empty s.static_config.listen then s.config else s.static_config;
            cfg = s.config;
            router = s.router;
            client_policy = policy;
            trusted_proxies = prefixes;
            limiter = [];
            discovery_merge = s.discovery_merge;
            discovered_routes = s.discovered_routes;
          })
        ]
      ]

  pub record Server : Type 0 where
    pub state : ServerState
    pub listen_address : Bytes

  unfoldable pub new_server : RouteSnapshot → Option Server
  new_server s = elim (new_server_state 1 s) [
    | none ↦ none
    | some state ↦ some (record { state = state; listen_address = s.config.listen })
  ]

  unfoldable pub update_route_snapshot : RouteSnapshot → Server → Option Server
  update_route_snapshot s server = elim (new_server_state (server.state.generation + 1) s) [
    | none ↦ none
    | some state ↦ some (record server { state = state })
  ]

  -- What a call leaves: a panic, or an error or none with the server.
  pub data Reloaded : Type 0 where
    panicked : Reloaded
    failed : Error → Server → Reloaded
    reloaded : Server → Reloaded

  unfoldable pub swap : Server → Result RouteSnapshot → Reloaded
  swap server (err e) = failed e server
  swap server (ok s) = elim (update_route_snapshot s server) [
    | none ↦ panicked
    | some server' ↦ reloaded server'
  ]

  unfoldable pub reload_config_locked : Env → Config → List DiscoveredRoute → Server → Reloaded
  reload_config_locked env c discovered server = swap server (build_route_snapshot env c discovered)

  -- `loaded` is what config.LoadFile gives.
  unfoldable pub reload_file : Env → Option Config → Server → Reloaded
  reload_file env none server = failed load_failed server
  reload_file env (some c) server = reload_config_locked env c server.state.discovered_routes server

  unfoldable pub reload_config_with_discovery : Env → Config → Provided → Server → Reloaded
  reload_config_with_discovery env c p server = elim (discovered_routes_from p) [
    | err e ↦ failed e server
    | ok routes ↦ reload_config_locked env c routes server
  ]

  -- The three tests of the context: at the start, under the lock, and in front of the swap.
  unfoldable pub update_discovered_routes : Env → Bool → Bool → Bool → Provided → Server → Reloaded
  update_discovered_routes env at_start under_lock at_swap p server =
      if at_start then failed cancelled server else elim (discovered_routes_from p) [
        | err e ↦ failed e server
        | ok routes ↦
            if under_lock
            then failed cancelled server
            else elim (build_route_snapshot env server.state.static_config routes) [
              | err e ↦ failed e server
              | ok s ↦ if at_swap then failed cancelled server else swap server (ok s)
            ]
      ]
