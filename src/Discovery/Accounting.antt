-- ===== src/Discovery/Accounting.antt =====
-- Where each static and each discovered route ends up in the merge of merge.go.
use mc_router.Prelude.{◌<◌, ◌≤◌, ◌≡◌, none, some, List, [], codes, bytes_Eq}
use mathlib.Core.List.{Memᴰ}
use mc_router.Config.{Route}
use mc_router.Discovery.Annotations.{DiscoveredRoute}
use mc_router.Discovery.Candidates.{times, ignored_for}
use mc_router.Discovery.Statics.{IsNormalized, IsConfigured}
use mc_router.Discovery.Merge.{MergeResult, validate_discovered_route}

-- Where a discovered route ends up: ignored as invalid, ignored since its host is discovered more than
-- once, ignored since a static route has its host, or merged.
pub data IsAccounted (statics : List Route) (discovered : List DiscoveredRoute)
    (r : DiscoveredRoute) (m : MergeResult) : Type 0 where
  invalid :
      validate_discovered_route r ≡ none
      → Memᴰ (ignored_for (codes "invalid_discovered_route") r) m.ignored
      → IsAccounted statics discovered r m
  duplicate :
      (c : DiscoveredRoute)
      → validate_discovered_route r ≡ some c
      → 1 < times c.host discovered
      → Memᴰ (ignored_for (codes "duplicate_discovered_host") c) m.ignored
      → IsAccounted statics discovered r m
  preceded :
      (c : DiscoveredRoute)
      → validate_discovered_route r ≡ some c
      → times c.host discovered ≤ 1
      → IsConfigured c.host statics
      → Memᴰ (ignored_for (codes "static_route_precedence") c) m.ignored
      → IsAccounted statics discovered r m
  added :
      (c : DiscoveredRoute)
      → validate_discovered_route r ≡ some c
      → times c.host discovered ≤ 1
      → ¬ IsConfigured c.host statics
      → Memᴰ
          (record {
            server_address = c.host;
            aliases = [];
            backend = c.backend;
            status_backend = [];
            status_override = none;
            source = codes "discovered";
          })
          m.routes
      → IsAccounted statics discovered r m

-- A static route is among the merged ones, as it is kept.
pub record IsKept (r : Route) (m : MergeResult) : Type 0 where
  pub route : Route
  pub listed : Memᴰ route m.routes
  pub normalized : IsNormalized r route
