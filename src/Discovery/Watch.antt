-- ===== src/Discovery/Watch.antt =====
-- internal/discovery/kubernetes: watch_controller.go, client.go, namespace.go and the two providers.
-- Lists, watches and files come from the cluster and are arguments.
use mc_router.Prelude.{
  Bool, false, not, Option, none, some, List, [], ◌∷◌, ◌++◌, Bytes, if◌then◌else◌, ◌==◌, bytes_Eq,
  insert, erase, map,
}
use mc_router.Go.Text.{is_empty, trim_space}
use mc_router.Config.Fields.{is_dns_label}
use mc_router.Discovery.Annotations.{ServicePort, ServiceInput}
use mc_router.Discovery.Controller.{Result, ErrorTexts, build_discovered_routes}

-- The parts of a Kubernetes Service that are read.
pub record Service : Type 0 where
  pub name : Bytes
  pub namespace : Bytes
  pub external_name : Bool
  pub annotations : List (Bytes × Bytes)
  pub ports : List ServicePort

-- ToServiceInput, for a service that is there.
unfoldable pub to_service_input : Service → Option ServiceInput
to_service_input s =
    if s.external_name
    then none
    else some (record {
      name = s.name;
      namespace = s.namespace;
      annotations = s.annotations;
      ports = s.ports;
    })

unfoldable pub list_services : List Service → List ServiceInput
list_services [] = []
list_services (s ∷ ss) = elim (to_service_input s) [
  | none ↦ list_services ss
  | some input ↦ input ∷ list_services ss
]

abbrev pub service_key : Bytes → Bytes → Bytes
service_key namespace name = namespace ++ (b'/' ∷ name)

abbrev pub key_of : Service → Bytes
key_of s = service_key s.namespace s.name

abbrev pub Services : Type 0
Services = List (Bytes × ServiceInput)

-- The loop over the items of the list.
unfoldable pub initial_services : List Service → Services → Services
initial_services [] services = services
initial_services (s ∷ ss) services = elim (to_service_input s) [
  | none ↦ initial_services ss services
  | some input ↦ initial_services ss (insert (key_of s) input services)
]

-- An event of the watch: an error, one whose object is not a service, or one of a service.
pub data Event : Type 0 where
  error_event other_object : Event
  added modified deleted bookmark : Service → Event

unfoldable pub store : Service → Services → Services
store s services = elim (to_service_input s) [
  | none ↦ erase (key_of s) services
  | some input ↦ insert (key_of s) input services
]

unfoldable pub apply_watch_event : Services → Event → Option Services
apply_watch_event services error_event = none
apply_watch_event services other_object = some services
apply_watch_event services (added s) = some (store s services)
apply_watch_event services (modified s) = some (store s services)
apply_watch_event services (deleted s) = some (erase (key_of s) services)
apply_watch_event services (bookmark s) = some services

-- How Run ends, once the watch is on; `running` where no more events have come yet.
pub data Ended : Type 0 where
  running cancelled watch_closed watch_error : Ended

-- What the loop of Run selects in a round.
pub data Input : Type 0 where
  event : Event → Input
  channel_closed context_done : Input

-- updateSink: the inputs are the values of the map.
abbrev pub snapshot : ErrorTexts → Bytes → Services → Result
snapshot texts prefix services =
    build_discovered_routes texts prefix (map (λ (x : Bytes × ServiceInput). x.1) services)

-- The loop: the snapshots that the sink is given, the map at the end, and how it ended.
unfoldable pub watch : ErrorTexts → Bytes → Services → List Input → List Result × Services × Ended
watch texts prefix services [] = ([], services, running)
watch texts prefix services (context_done ∷ rest) = ([], services, cancelled)
watch texts prefix services (channel_closed ∷ rest) = ([], services, watch_closed)
watch texts prefix services (event e ∷ rest) = elim (apply_watch_event services e) [
  | none ↦ ([], services, watch_error)
  | some next ↦
      let (given, kept, ended) = watch texts prefix next rest in
      (snapshot texts prefix next ∷ given, kept, ended)
]

pub data Error : Type 0 where
  list_failed watch_setup_failed : Error

-- Run: the list and the watch of the client may fail; a watch that fails after the context is done is
-- a normal end.
unfoldable pub run :
    ErrorTexts
    → Bytes
    → Option (List Service)
    → Bool
    → Bool
    → List Input
    → Option Error × List Result × Ended
run texts prefix none watches done inputs = (some list_failed, [], running)
run texts prefix (some items) watches done inputs =
    let services = initial_services items [] in
    let (given, kept, ended) = watch texts prefix services inputs in
    if watches
    then (none, snapshot texts prefix services ∷ given, ended)
    else if done
    then (none, [], cancelled)
    else (some watch_setup_failed, [], running)

-- validateNamespace
unfoldable pub validate_namespace : Bytes → Bool
validate_namespace namespace =
    if not (trim_space namespace == namespace) then false else is_dns_label namespace

-- `file` is what reading the file of the service account gives.
unfoldable pub resolve_namespace : Bytes → Option Bytes → Option Bytes
resolve_namespace configured file =
    if not (is_empty configured)
    then (if validate_namespace configured then some configured else none)
    else elim file [
      | none ↦ none
      | some content ↦
          if is_empty (trim_space content)
          then none
          else if validate_namespace (trim_space content)
          then some (trim_space content)
          else none
    ]
