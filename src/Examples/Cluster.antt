-- ===== src/Examples/Cluster.antt =====
-- Services of a cluster, a watch of them, and the runs of a supervisor.
use mc_router.Prelude.{
  ◌≤◌, ◌≡◌, ◌≢◌, ◌↔◌, refl, true, false, Bytes, List, [], ◌∷◌, codes, map, length, lookup, bytes_Eq,
}
use mathlib.Core.List.{Memᴰ}
use mc_router.Discovery.Annotations.{ServiceInput, DiscoveredRoute}
use mc_router.Discovery.Controller.{ErrorTexts, build_discovered_routes, prefix_or_default}
use mc_router.Discovery.ControllerLaws.{parsed, occurrences, build_discovered_routes-once}
use mc_router.Discovery.Watch.{
  Service, Event, added, modified, deleted, event, key_of, watch, running,
}
use mc_router.Discovery.WatchLaws.{last_word, watch-last_word}
use mc_router.Discovery.Supervisor.{Run, State, failed, fails, slept, supervise, supervise-persists}

abbrev prefix : Bytes
prefix = codes "mc-router.alexandergg.com"

abbrev texts : ErrorTexts
texts = record { parse = λ p s. s.name; duplicate = λ host. host }

abbrev survival : Service
survival = record {
  name = codes "survival";
  namespace = codes "games";
  external_name = false;
  annotations =
      (codes "mc-router.alexandergg.com/enabled", codes "true")
      ∷ (codes "mc-router.alexandergg.com/host", codes "play.example.net")
      ∷ (codes "mc-router.alexandergg.com/port", codes "25565")
      ∷ [];
  ports = record { name = codes "minecraft"; port = 25565 } ∷ [];
}

abbrev input : ServiceInput
input = record {
  name = survival.name;
  namespace = survival.namespace;
  annotations = survival.annotations;
  ports = survival.ports;
}

abbrev play : DiscoveredRoute
play = record {
  host = codes "play.example.net";
  backend = codes "survival.games.svc.cluster.local:25565";
}

build_discovered_routes-once_example :
    Memᴰ play (build_discovered_routes texts [] (input ∷ [])).routes ↔ (
      Memᴰ play (parsed (prefix_or_default []) (input ∷ []))
      × (occurrences play.host (parsed (prefix_or_default []) (input ∷ [])) ≤ 1))
build_discovered_routes-once_example = build_discovered_routes-once texts [] (input ∷ []) play

abbrev events : List Event
events = added survival ∷ modified survival ∷ deleted survival ∷ added survival ∷ []

watch-last_word_example :
    let (given, kept, ended) = watch texts prefix [] (map event events) in
    (ended ≡ running)
    × (length given ≡ length events)
    × (lookup (key_of survival) kept
        ≡ last_word (key_of survival) (lookup (key_of survival) []) events)
watch-last_word_example =
    watch-last_word texts prefix (key_of survival) [] events
      ((λ h. cc), ((λ h. cc), ((λ h. cc), ((λ h. cc), tt))))

abbrev broken_run : Run
broken_run = record { synced = false; outcome = fails; ready = false; sleep = slept }

abbrev seen : State
seen = record { attempt = 0; initial_sync_seen = true }

supervise-persists_example : (supervise seen (broken_run ∷ broken_run ∷ [])).1 ≢ failed
supervise-persists_example = supervise-persists seen (broken_run ∷ broken_run ∷ []) refl
