-- ===== src/Startup.antt =====
-- cmd/mc-gateway: discovery_startup.go and discovery_reload.go, and RebuildRouteSnapshot of
-- internal/proxy/server.go. What the machine and the cluster give is an argument.
pub mod Laws
use mc_router.Prelude.{
  ℕ, Bool, true, false, not, Option, none, some, List, [], ◌∷◌, Bytes, if◌then◌else◌,
}
use mc_router.Go.Text.{is_empty}
use mc_router.Config.{Config, Float64, KubernetesDiscovery}
use mc_router.Config.Fields.{Env}
use mc_router.Config.Validate.{validate}
use mc_router.RateLimit.{Float}
use mc_router.Discovery.Annotations.{ServiceInput}
use mc_router.Discovery.Controller as Controller
use mc_router.Discovery.Controller.{ErrorTexts, build_discovered_routes}
use mc_router.Discovery.Watch.{Service, list_services, resolve_namespace}
use mc_router.Proxy.Snapshot as Proxy
use mc_router.Proxy.Snapshot.{
  RouteSnapshot, Provided, no_provider, provided, discovered_routes_from, build_route_snapshot,
  Server, Reloaded, reload_file, reload_config_with_discovery,
}

-- The file of the service account, the configuration and the client of the cluster, and the services of
-- a namespace; none where the call fails.
pub record Deps : Type 0 where
  pub namespace_file : Option Bytes
  pub in_cluster : Bool
  pub client : Bool
  pub list : Bytes → Option (List Service)
  pub texts : ErrorTexts

pub data Error : Type 0 where
  load_failed namespace_failed config_failed client_failed list_failed : Error
  snapshot_failed : Proxy.Error → Error

pub data Result {ℓ} (A : Type ℓ) : Type ℓ where
  ok : A → Result A
  err : Error → Result A

-- buildStartupDiscoveryReport and buildReloadDiscoveryReport: the services and the routes of these.
unfoldable pub build_report :
    Deps → KubernetesDiscovery → Result (List ServiceInput × Controller.Result)
build_report deps k = elim (resolve_namespace k.namespace deps.namespace_file) [
  | none ↦ err namespace_failed
  | some namespace ↦
      if not deps.in_cluster
      then err config_failed
      else if not deps.client
      then err client_failed
      else elim (deps.list namespace) [
        | none ↦ err list_failed
        | some services ↦
            let inputs = list_services services in
            ok (inputs, build_discovered_routes deps.texts k.annotation_prefix inputs)
      ]
]

-- RebuildRouteSnapshot: Validate comes first, and once more in BuildRouteSnapshot.
unfoldable pub rebuild_route_snapshot : Env → Config → Provided → Proxy.Result RouteSnapshot
rebuild_route_snapshot env c p =
    if not (is_empty (validate env c).0)
    then Proxy.err Proxy.invalid_config
    else elim (discovered_routes_from p) [
      | Proxy.err e ↦ Proxy.err e
      | Proxy.ok routes ↦ build_route_snapshot env (validate env c).1 routes
    ]

abbrev pub from_snapshot :
    Option (List ServiceInput × Controller.Result)
    → Proxy.Result RouteSnapshot
    → Result (RouteSnapshot × Option (List ServiceInput × Controller.Result))
from_snapshot report (Proxy.ok s) = ok (s, report)
from_snapshot report (Proxy.err e) = err (snapshot_failed e)

-- loadStartupWithDiscovery; `loaded` is what config.LoadFile gives.
unfoldable pub load_startup :
    Env
    → Deps
    → Option Config
    → Result (RouteSnapshot × Option (List ServiceInput × Controller.Result))
load_startup env deps none = err load_failed
load_startup env deps (some c) =
    if not c.discovery.enabled
    then from_snapshot none (rebuild_route_snapshot env c no_provider)
    else elim (build_report deps c.discovery) [
      | err e ↦ err e
      | ok report ↦
          from_snapshot (some report) (rebuild_route_snapshot env c (provided report.1.routes))
    ]

module _ (F : Float) (float64 : Float64 → Float.Carrier F) where
  -- What a reload by SIGHUP leaves: it may fail in front of the server.
  pub data Reply : Type 0 where
    refused : Error → Reply
    applied : Reloaded F float64 → Reply

  -- The services are listed for a configuration that was loaded.
  abbrev pub apply_report :
      Env → Config → Result (List ServiceInput × Controller.Result) → Server F float64 → Reply
  apply_report env c (err e) server = refused e
  apply_report env c (ok report) server =
      applied (reload_config_with_discovery F float64 env c (provided report.1.routes) server)

  -- kubernetesReloadReloader.ReloadFile, with the settings of the cluster from the gateway's start.
  unfoldable pub kubernetes_reload :
      Env → Deps → KubernetesDiscovery → Option Config → Server F float64 → Reply
  kubernetes_reload env deps k loaded server =
      if not k.enabled then applied (reload_file F float64 env loaded server) else elim loaded [
        | none ↦ refused load_failed
        | some c ↦ apply_report env c (build_report deps k) server
      ]
