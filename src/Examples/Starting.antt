-- ===== src/Examples/Starting.antt =====
-- A start of the gateway without discovery.
use mc_router.Prelude.{◌≡◌, refl, subst, some, none, false, List, []}
use mc_router.Config.{Config, Route}
use mc_router.Config.Validate.{validate}
use mc_router.Discovery.Merge.{MergeResult, merge_routes}
use mc_router.Examples.Routing.{env, config, table, built, config-valid}
use mc_router.Examples.Clients.{numbers}
use mc_router.Examples.Gateway.{float64, routes-merged}
use mc_router.Router as Router
use mc_router.Proxy.Snapshot as Proxy
use mc_router.Proxy.Snapshot.{RouteSnapshot, Server, new_server, build_route_snapshot, no_provider}
use mc_router.Proxy.Reloads.{IsConsistent}
use mc_router.Startup.{Deps, ok, load_startup, rebuild_route_snapshot}
use mc_router.Startup.Laws.{load_startup-IsConsistent}

abbrev deps : Deps
deps = record {
  namespace_file = none;
  in_cluster = false;
  client = false;
  list = λ n. none;
  texts = record { parse = λ p s. []; duplicate = λ h. [] };
}

abbrev snapshot : RouteSnapshot
snapshot = record {
  static_config = config;
  config = config;
  router = table;
  discovery_merge = merge_routes config.routes [] config.default_route;
  discovered_routes = [];
}

config-checked : (validate env config).1 ≡ config
unfolding validate mc_router.Config.Voice.validate_voice_chat
config-checked = refl

abbrev merge : MergeResult
merge = merge_routes config.routes [] config.default_route

abbrev with_routes : List Route → Config
with_routes routes = record config { routes = routes }

unmerged : Proxy.snapshot_of config config merge [] (Router.new env config) ≡ Proxy.ok snapshot
unfolding Proxy.snapshot_of
unmerged = rw (built) refl

snapshot-built : build_route_snapshot env config [] ≡ Proxy.ok snapshot
unfolding build_route_snapshot
snapshot-built =
    rw (config-valid, config-checked)
      (subst
        (λ rs.
          Proxy.snapshot_of config (with_routes rs) merge [] (Router.new env (with_routes rs))
          ≡ Proxy.ok snapshot)
        routes-merged unmerged)

loaded : load_startup env deps (some config) ≡ ok (snapshot, none)
unfolding load_startup rebuild_route_snapshot Proxy.discovered_routes_from
loaded = rw (config-valid, config-checked) (rw (snapshot-built) refl)

load_startup-IsConsistent_example :
    (server : Server numbers float64) × (new_server numbers float64 snapshot ≡ some server)
    × (server.state.generation ≡ 1)
    × IsConsistent numbers float64 env server.state
load_startup-IsConsistent_example =
    load_startup-IsConsistent numbers float64 env deps (some config) snapshot none loaded
