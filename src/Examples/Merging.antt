-- ===== src/Examples/Merging.antt =====
-- A static route and a discovered one for the same host.
use mc_router.Prelude.{◌≡◌, refl, some, none, Bytes, List, [], ◌∷◌, codes}
use mathlib.Core.List.{Memᴰ}
use mathlib.Core.List.Memᴰ.{head}
use mc_router.HostAddr.{normalize}
use mc_router.Config.{Route, DefaultRoute}
use mc_router.Config.Routes.{identities}
use mc_router.Discovery.Annotations.{DiscoveredRoute}
use mc_router.Discovery.Merge.{MergeResult, merge_routes, route_source_static}
use mc_router.Discovery.Precedence.{merge_routes-static}

abbrev host : Bytes
host = codes "play.example.net"

abbrev configured : Route
configured = record {
  server_address = host;
  aliases = [];
  backend = codes "10.0.0.5:25565";
  status_backend = [];
  status_override = none;
  source = [];
}

abbrev found : DiscoveredRoute
found = record { host = host; backend = codes "mc.games.svc.cluster.local:25565" }

abbrev no_default : DefaultRoute
no_default = record { backend = []; mode = [] }

abbrev merged : Route
merged = record configured { source = route_source_static }

host-normal : normalize host ≡ some host
unfolding normalize mc_router.Go.Text.trim_suffix mc_router.Go.Text.to_lower
    mc_router.Go.Text.trim_space mc_router.Go.Text.before mc_router.Go.Utf8.utf8_valid
    mc_router.Go.Netip.parse_ip mc_router.Go.Text.trim_prefix mc_router.Go.Ipv4.parse_ipv4
    mc_router.Go.Text.split
host-normal = refl

merged-routes : (merge_routes (configured ∷ []) (found ∷ []) no_default).routes ≡ merged ∷ []
unfolding merge_routes mc_router.Prelude.Sorting.sort_stable
    mc_router.Discovery.Merge.select_candidates mc_router.Discovery.Merge.collect
    mc_router.Discovery.Merge.validate_discovered_route normalize mc_router.Go.Text.trim_suffix
    mc_router.Go.Text.to_lower mc_router.Go.Text.trim_space mc_router.Go.Text.before
    mc_router.Go.Utf8.utf8_valid mc_router.Go.Netip.parse_ip mc_router.Go.Text.trim_prefix
    mc_router.Go.Ipv4.parse_ipv4 mc_router.Go.Text.split mc_router.Go.HostPort.split_host_port
    mc_router.Go.Text.cut_last mc_router.Go.Text.contains_byte
    mc_router.Discovery.Merge.validate_backend_port mc_router.Config.Fields.port_ok
    mc_router.Go.Conv.atoi mc_router.Discovery.Merge.validate_service_dns_backend
    mc_router.Discovery.Merge.service_dns_parts mc_router.Config.Fields.is_dns_label
    mc_router.Prelude.bytes_eq mc_router.Prelude.Sorting.insert_sorted mc_router.Prelude.lookup
    mc_router.Prelude.insert mc_router.Discovery.Merge.static_routes
    mc_router.Discovery.Merge.static_aliases mc_router.Discovery.Merge.static_address
merged-routes = refl

merged-found : Memᴰ merged (merge_routes (configured ∷ []) (found ∷ []) no_default).routes
merged-found = rw (merged-routes) (head refl)

host-name : Memᴰ host (identities configured)
unfolding identities
host-name = head refl

merge_routes-static_example : merged.source ≡ route_source_static
merge_routes-static_example =
    merge_routes-static (configured ∷ []) (found ∷ []) no_default configured host merged (head refl)
      host-name host-normal merged-found
