-- ===== src/Discovery/WatchLaws.antt =====
-- What the watch of watch_controller.go knows of the cluster after any sequence of events.
use mc_router.Prelude.{
  suc, ◌≡◌, ◌≢◌, inl, inr, refl, ap, ◌∙◌, arith, Option, none, some, List, [], ◌∷◌, Bytes, All, map,
  length, ◌==◌, bytes_Eq, lookup, erase, lookup-insert, lookup-erase, if◌then◌else◌, Option-cases,
}
use mc_router.Discovery.Annotations.{ServiceInput}
use mc_router.Discovery.Controller.{ErrorTexts}
use mc_router.Discovery.Watch.{
  Service, to_service_input, key_of, Services, Event, error_event, other_object, added, modified,
  deleted, bookmark, store, apply_watch_event, running, event, watch,
}

-- What an event says of the service under a key: nothing, that it is gone, or what it is.
abbrev pub word : Bytes → Event → Option (Option ServiceInput)
word k error_event = none
word k other_object = none
word k (added s) = if key_of s == k then some (to_service_input s) else none
word k (modified s) = if key_of s == k then some (to_service_input s) else none
word k (deleted s) = if key_of s == k then some none else none
word k (bookmark s) = none

abbrev pub said : Option (Option ServiceInput) → Option ServiceInput → Option ServiceInput
said none before = before
said (some now) before = now

-- The last thing that the events say, on top of what was known before.
abbrev pub last_word : Bytes → Option ServiceInput → List Event → Option ServiceInput
last_word k before [] = before
last_word k before (e ∷ es) = last_word k (said (word k e) before) es

store-word :
    (k : Bytes) (s : Service) (services : Services)
    → lookup k (store s services)
      ≡ said (if key_of s == k then some (to_service_input s) else none) (lookup k services)
unfolding store
store-word k s services = elim (Option-cases (to_service_input s)) [
  | inl e ↦ ground (arith, e, lookup-erase (key_of s) k services)
  | inr (input, e) ↦ ground (arith, e, lookup-insert (key_of s) k input services)
]

erase-word :
    (k : Bytes) (s : Service) (services : Services)
    → lookup k (erase (key_of s) services)
      ≡ said (if key_of s == k then some none else none) (lookup k services)
erase-word k s services = ground (arith, lookup-erase (key_of s) k services)

apply_watch_event-word :
    (k : Bytes) (services : Services) (e : Event)
    → e ≢ error_event
    → (next : Services) × (apply_watch_event services e ≡ some next)
      × (lookup k next ≡ said (word k e) (lookup k services))
unfolding apply_watch_event
apply_watch_event-word k services error_event h = absurd (h refl)
apply_watch_event-word k services other_object h = (services, refl, refl)
apply_watch_event-word k services (added s) h = (store s services, refl, store-word k s services)
apply_watch_event-word k services (modified s) h = (store s services, refl, store-word k s services)
apply_watch_event-word k services (deleted s) h =
    (erase (key_of s) services, refl, erase-word k s services)
apply_watch_event-word k services (bookmark s) h = (services, refl, refl)

-- While the watch brings no error it goes on, gives the sink a snapshot for each event, and its map has
-- under each key what the events said last of that service.
pub watch-last_word :
    (texts : ErrorTexts) (prefix k : Bytes) (services : Services) (es : List Event)
    → All (λ (e : Event). e ≢ error_event) es
    → let (given, kept, ended) = watch texts prefix services (map event es) in
      (ended ≡ running)
      × (length given ≡ length es)
      × (lookup k kept ≡ last_word k (lookup k services) es)
unfolding watch
watch-last_word texts prefix k services [] h = (refl, refl, refl)
watch-last_word texts prefix k services (e ∷ es) (p, h) =
    let (next, step, said_k) = apply_watch_event-word k services e p in
    let (on, many, known) = watch-last_word texts prefix k next es h in
    rw (watch, step) (on, ap (λ n. suc n) many, known ∙ ap (λ b. last_word k b es) said_k)
