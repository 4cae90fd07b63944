-- ===== src/VoiceChat/Handlers.antt =====
-- internal/voicechat/runtime.go: the handlers, put together from the sections under the lock. A JSON
-- body arrives decoded (none where encoding/json refuses it); randomness, dialling and writing have
-- their outcomes as arguments.
use mc_router.Prelude.{
  ℕ, ◌+◌, Bool, true, false, not, Option, none, some, List, [], ◌∷◌, Bytes, if◌then◌else◌, leb,
  ◌==◌, bytes_Eq, codes,
}
use mc_router.Go.Text.{trim_space, is_blank, is_empty, split, strip_prefix}
use mc_router.VoiceChat.Packet.{ok, err, parse_client_packet, parse_uuid, uuid_string}
use mc_router.VoiceChat.State.{
  Config, Registration, Session, Runtime, Sessions, PutResult, put_closed, put_limit, put_stored,
  put_registration, refresh_registration, delete_registration, Lookup, unknown_registration,
  expired_registration, registered, lookup_registration, expire_loop, close_sessions_for_uuid,
  close_session, SessionResult, session_closed, dial_failed, session_ok, reuse_session, room,
  new_session, publish_session, touch, dynamic_session_key,
}

-- The answers of the registration API.
pub data Response : Type 0 where
  unauthorized not_found method_not_allowed malformed lease_failed unavailable : Response
  too_many lease_not_found no_content : Response
  accepted : Registration → Response

pub data Method : Type 0 where
  put post delete other : Method

pub record Request : Type 0 where
  pub method : Method
  pub path : Bytes
  pub authorization : Bytes
  -- The owner and the lease of the body.
  pub owner : Option Bytes
  pub lease : Option Bytes

unfoldable pub find_token : Bytes → List (Bytes × Bytes) → Option Bytes
find_token token [] = none
find_token token ((candidate, id) ∷ rest) = elim (token == candidate) [
  | true ↦ some id
  | false ↦ find_token token rest
]

unfoldable pub authenticate : Config → Bytes → Option Bytes
authenticate c header = elim (strip_prefix (codes "Bearer ") header) [
  | none ↦ none
  | some token ↦ find_token (trim_space token) c.tokens
]

-- The player and the action, from the segments behind the prefix.
unfoldable pub parse_segments : List Bytes → Option (Bytes × Bytes)
parse_segments (id ∷ []) = elim (parse_uuid id) [
  | none ↦ none
  | some u ↦ if uuid_string u == id then some (u, []) else none
]
parse_segments (id ∷ action ∷ []) = elim (parse_uuid id) [
  | none ↦ none
  | some u ↦ if uuid_string u == id then some (u, action) else none
]
parse_segments _ = none

abbrev pub registrations_prefix : Bytes
registrations_prefix = codes "/v1/voicechat/registrations/"

unfoldable pub parse_registration_path : Bytes → Option (Bytes × Bytes)
parse_registration_path path = elim (strip_prefix registrations_prefix path) [
  | none ↦ none
  | some rest ↦ parse_segments (split b'/' rest)
]

-- A field of the body that is there and not blank.
unfoldable pub required : Option Bytes → Option Bytes
required none = none
required (some v) = if is_blank v then none else some v

unfoldable pub put_response : PutResult → Response
put_response put_closed = unavailable
put_response put_limit = too_many
put_response (put_stored reg replaced) = accepted reg

-- A registration that was replaced loses its sessions.
unfoldable pub after_put : Bytes → PutResult → Runtime → Runtime
after_put uuid (put_stored reg (some old)) r = close_sessions_for_uuid uuid r
after_put uuid _ r = r

-- `lease` is the identifier that was drawn, if there was one.
unfoldable pub handle_put :
    Config → ℕ → Option Bytes → Request → Bytes → Bytes → Runtime → Response × Runtime
handle_put c now lease q backend uuid r = elim (required q.owner) [
  | none ↦ (malformed, r)
  | some owner ↦ elim lease [
    | none ↦ (lease_failed, r)
    | some l ↦
        let stored = put_registration c now l backend uuid owner r in
        (put_response stored.0, after_put uuid stored.0 stored.1)
  ]
]

unfoldable pub handle_refresh : Config → ℕ → Request → Bytes → Bytes → Runtime → Response × Runtime
handle_refresh c now q backend uuid r = elim (required q.owner) [
  | none ↦ (malformed, r)
  | some owner ↦ elim (required q.lease) [
    | none ↦ (malformed, r)
    | some lease ↦
        let refreshed = refresh_registration c now backend uuid owner lease r in
        (elim refreshed.0 [ none ↦ lease_not_found | some reg ↦ accepted reg ], refreshed.1)
  ]
]

unfoldable pub handle_delete : Request → Bytes → Bytes → Runtime → Response × Runtime
handle_delete q backend uuid r = elim (required q.owner) [
  | none ↦ (malformed, r)
  | some owner ↦ elim (required q.lease) [
    | none ↦ (malformed, r)
    | some lease ↦
        let deleted = delete_registration backend uuid owner lease r in
        (no_content, if deleted.0 then close_sessions_for_uuid uuid deleted.1 else deleted.1)
  ]
]

unfoldable pub dispatch :
    Method
    → Config
    → ℕ
    → Option Bytes
    → Request
    → Bytes
    → Bytes
    → Bytes
    → Runtime
    → Response × Runtime
dispatch put c now lease q backend uuid action r =
    if is_empty action then handle_put c now lease q backend uuid r else (method_not_allowed, r)
dispatch post c now lease q backend uuid action r =
    if action == codes "refresh"
    then handle_refresh c now q backend uuid r
    else (method_not_allowed, r)
dispatch delete c now lease q backend uuid action r =
    if is_empty action then handle_delete q backend uuid r else (method_not_allowed, r)
dispatch other c now lease q backend uuid action r = (method_not_allowed, r)

unfoldable pub handle_registration :
    Config → ℕ → Option Bytes → Request → Runtime → Response × Runtime
handle_registration c now lease q r = elim (authenticate c q.authorization) [
  | none ↦ (unauthorized, r)
  | some backend ↦ elim (parse_registration_path q.path) [
    | none ↦ (not_found, r)
    | some (uuid, action) ↦ dispatch q.method c now lease q backend uuid action r
  ]
]

unfoldable pub close_sessions_for_all : List Bytes → Runtime → Runtime
close_sessions_for_all [] r = r
close_sessions_for_all (uuid ∷ uuids) r =
    close_sessions_for_all uuids (close_sessions_for_uuid uuid r)

unfoldable pub expire_registrations : ℕ → Runtime → Runtime
expire_registrations now r =
    let (kept, expired) = expire_loop now r.registrations (r.registrations, []) in
    close_sessions_for_all expired (record r { registrations = kept })

-- The other half of a tick of expireLoop: the sessions of a snapshot that have been idle for long.
unfoldable pub expire_sessions : Config → ℕ → Sessions → Runtime → Runtime
expire_sessions c now [] r = r
expire_sessions c now ((key, s) ∷ rest) r = elim (leb (s.last_activity + c.idle_timeout) now) [
  | true ↦ expire_sessions c now rest (close_session key s r)
  | false ↦ expire_sessions c now rest r
]

unfoldable pub expire_tick : Config → ℕ → Runtime → Runtime
expire_tick c now r =
    let live = expire_registrations now r in expire_sessions c now live.sessions live

-- The session object that a dial makes.
abbrev pub dialled :
    Config → ℕ → Bytes → Bytes → Registration → Bool → Runtime → SessionResult × Runtime
dialled c now uuid client reg dial r =
    if not dial
    then (dial_failed, r)
    else publish_session c (dynamic_session_key uuid client)
        (new_session now uuid client reg r.next_id) (record r { next_id = r.next_id + 1 })

unfoldable pub after_reuse :
    Config
    → ℕ
    → Bytes
    → Bytes
    → Registration
    → Bool
    → Option Session × Runtime
    → SessionResult × Runtime
after_reuse c now uuid client reg dial (some s, r) = (session_ok s false, r)
after_reuse c now uuid client reg dial (none, r) = elim (room c reg r) [
  | some refusal ↦ (refusal, r)
  | none ↦ dialled c now uuid client reg dial r
]

unfoldable pub session_for :
    Config → ℕ → Bytes → Bytes → Registration → Bool → Runtime → SessionResult × Runtime
session_for c now uuid client reg dial r =
    if r.closed
    then (session_closed, r)
    else after_reuse c now uuid client reg dial
        (reuse_session (dynamic_session_key uuid client) reg r)

-- What became of a client's datagram.
pub data Forwarded : Type 0 where
  dropped_malformed dropped_unknown dropped_expired dropped_no_session dropped_write_error :
      Forwarded
  forwarded : Session → Bytes → Forwarded

unfoldable pub deliver : ℕ → Bytes → Bytes → Bool → SessionResult × Runtime → Forwarded × Runtime
deliver now key payload written (session_ok s created, r) =
    let touched = touch now key s r in
    if written
    then (forwarded s payload, touched)
    else (dropped_write_error, close_session key s touched)
deliver now key payload written (refusal, r) = (dropped_no_session, r)

unfoldable pub after_lookup :
    Config → ℕ → Bytes → Bytes → Bytes → Bool → Bool → Lookup × Runtime → Forwarded × Runtime
after_lookup c now uuid client payload dial written (unknown_registration, r) = (dropped_unknown, r)
after_lookup c now uuid client payload dial written (expired_registration, r) = (dropped_expired, r)
after_lookup c now uuid client payload dial written (registered reg, r) =
    deliver now (dynamic_session_key uuid client) payload written
      (session_for c now uuid client reg dial r)

unfoldable pub forward_client_packet :
    Config → ℕ → Bytes → Bytes → Bool → Bool → Runtime → Forwarded × Runtime
forward_client_packet c now client payload dial written r = elim (parse_client_packet payload) [
  | err e ↦ (dropped_malformed, r)
  | ok packet ↦
      after_lookup c now packet.player_uuid client payload dial written
        (lookup_registration now packet.player_uuid r)
]
