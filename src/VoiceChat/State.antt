-- ===== src/VoiceChat/State.antt =====
-- internal/voicechat/runtime.go: the registrations and the sessions, as the mutex guards them. Each
-- function here is one section under the lock. Times are in nanoseconds; counts and durations of the
-- configuration have been checked to be positive.
use mc_router.Prelude.{
  ℕ, ◌+◌, ◌%◌, ◌^◌, Bool, true, false, not, ◌&&◌, Option, none, some, List, [], ◌∷◌, ◌++◌, Bytes,
  if◌then◌else◌, ltb, leb, nat_eq, length, select, ◌==◌, bytes_Eq, lookup, insert, erase,
}
use mc_router.VoiceChat.Packet.{uuid_string}

pub record Config : Type 0 where
  pub registration_ttl : ℕ
  pub max_registrations : ℕ
  pub idle_timeout : ℕ
  pub max_sessions : ℕ
  pub max_packet_size : ℕ
  -- The address of each backend by its identifier.
  pub backends : List (Bytes × Bytes)
  -- The tokens, each with the identifier of its backend.
  pub tokens : List (Bytes × Bytes)

pub record Registration : Type 0 where
  pub backend_id : Bytes
  pub owner_id : Bytes
  pub lease_id : Bytes
  pub generation : ℕ
  pub expires_at : ℕ

-- A session; `id` tells one session object from another.
pub record Session : Type 0 where
  pub id : ℕ
  pub player_uuid : Bytes
  pub client : Bytes
  pub backend_id : Bytes
  pub lease_id : Bytes
  pub generation : ℕ
  pub last_activity : ℕ

abbrev pub Registrations : Type 0
Registrations = List (Bytes × Registration)

abbrev pub Sessions : Type 0
Sessions = List (Bytes × Session)

pub record Runtime : Type 0 where
  pub closed : Bool
  pub registrations : Registrations
  pub sessions : Sessions
  pub next_id : ℕ

abbrev pub dynamic_session_key : Bytes → Bytes → Bytes
dynamic_session_key uuid client = uuid_string uuid ++ (b'|' ∷ client)

-- The section of handlePutRegistration: refused, or stored with the registration that it replaced.
pub data PutResult : Type 0 where
  put_closed put_limit : PutResult
  put_stored : Registration → Option Registration → PutResult

abbrev pub new_registration : Config → ℕ → Bytes → Bytes → Bytes → ℕ → Registration
new_registration c now lease backend owner generation = record {
  backend_id = backend;
  owner_id = owner;
  lease_id = lease;
  generation = generation;
  expires_at = now + c.registration_ttl;
}

unfoldable pub store : Bytes → Registration → Option Registration → Runtime → PutResult × Runtime
store uuid reg replaced r =
    (put_stored reg replaced, record r { registrations = insert uuid reg r.registrations })

unfoldable pub put_registration :
    Config → ℕ → Bytes → Bytes → Bytes → Bytes → Runtime → PutResult × Runtime
put_registration c now lease backend uuid owner r =
    if r.closed then (put_closed, r) else elim (lookup uuid r.registrations) [
      | some existing ↦
          store uuid
            (new_registration c now lease backend owner ((existing.generation + 1) % 2 ^ 64))
            (some existing) r
      | none ↦
          if leb c.max_registrations (length r.registrations)
          then (put_limit, r)
          else store uuid (new_registration c now lease backend owner 1) none r
    ]

-- The lease that a request names is the one of the registration.
abbrev pub holds : Bytes → Bytes → Bytes → Registration → Bool
holds backend owner lease reg =
    reg.backend_id == backend && reg.owner_id == owner && reg.lease_id == lease

unfoldable pub refresh_registration :
    Config → ℕ → Bytes → Bytes → Bytes → Bytes → Runtime → Option Registration × Runtime
refresh_registration c now backend uuid owner lease r = elim (lookup uuid r.registrations) [
  | none ↦ (none, r)
  | some reg ↦ if not (holds backend owner lease reg) then (none, r) else (
    some (record reg { expires_at = now + c.registration_ttl }),
    record r {
      registrations =
          insert uuid (record reg { expires_at = now + c.registration_ttl }) r.registrations;
    },
  )
]

unfoldable pub delete_registration : Bytes → Bytes → Bytes → Bytes → Runtime → Bool × Runtime
delete_registration backend uuid owner lease r = elim (lookup uuid r.registrations) [
  | none ↦ (false, r)
  | some reg ↦
      if not (holds backend owner lease reg)
      then (false, r)
      else (true, record r { registrations = erase uuid r.registrations })
]

pub data Lookup : Type 0 where
  unknown_registration expired_registration : Lookup
  registered : Registration → Lookup

unfoldable pub lookup_registration : ℕ → Bytes → Runtime → Lookup × Runtime
lookup_registration now uuid r = elim (lookup uuid r.registrations) [
  | none ↦ (unknown_registration, r)
  | some reg ↦
      if ltb reg.expires_at now
      then (expired_registration, record r { registrations = erase uuid r.registrations })
      else (registered reg, r)
]

-- The loop of expireRegistrations over the table, with the table that it deletes from and the players
-- whose registrations have expired.
unfoldable pub expire_loop :
    ℕ → Registrations → Registrations × List Bytes → Registrations × List Bytes
expire_loop now [] acc = acc
expire_loop now ((uuid, reg) ∷ rest) (table, expired) = elim (ltb reg.expires_at now) [
  | true ↦ expire_loop now rest (erase uuid table, expired ++ (uuid ∷ []))
  | false ↦ expire_loop now rest (table, expired)
]

unfoldable pub close_sessions_for_uuid : Bytes → Runtime → Runtime
close_sessions_for_uuid uuid r = record r {
  sessions = select (λ x. not (x.1.player_uuid == uuid)) r.sessions;
}

-- What `current == sess` compares.
abbrev pub is_current : Session → Option Session → Bool
is_current s none = false
is_current s (some t) = nat_eq s.id t.id

unfoldable pub close_session : Bytes → Session → Runtime → Runtime
close_session key s r =
    if is_current s (lookup key r.sessions) then record r { sessions = erase key r.sessions } else r

-- Whether what the backend sends may go to the client of the session.
unfoldable pub session_is_current : Bytes → Session → Runtime → Bool
session_is_current key s r = not r.closed && is_current s (lookup key r.sessions)

-- The session's lease is still the registration's.
abbrev pub serves : Registration → Session → Bool
serves reg s =
    s.backend_id == reg.backend_id
    && s.lease_id == reg.lease_id
    && nat_eq s.generation reg.generation

pub data SessionResult : Type 0 where
  session_closed session_limit backend_missing dial_failed : SessionResult
  session_ok : Session → Bool → SessionResult

-- The first section of sessionFor: a session that serves the registration, or a table in which the
-- key is free.
unfoldable pub reuse_session : Bytes → Registration → Runtime → Option Session × Runtime
reuse_session key reg r = elim (lookup key r.sessions) [
  | none ↦ (none, r)
  | some s ↦
      if serves reg s then (some s, r) else (none, record r { sessions = erase key r.sessions })
]

-- The second section: the refusal, if there is one.
unfoldable pub room : Config → Registration → Runtime → Option SessionResult
room c reg r =
    if leb c.max_sessions (length r.sessions)
    then some session_limit
    else elim (lookup reg.backend_id c.backends) [ none ↦ some backend_missing | some a ↦ none ]

abbrev pub new_session : ℕ → Bytes → Bytes → Registration → ℕ → Session
new_session now uuid client reg id = record {
  id = id;
  player_uuid = uuid;
  client = client;
  backend_id = reg.backend_id;
  lease_id = reg.lease_id;
  generation = reg.generation;
  last_activity = now;
}

-- The third section, after the dial.
unfoldable pub publish_session : Config → Bytes → Session → Runtime → SessionResult × Runtime
publish_session c key s r = if r.closed then (session_closed, r) else elim (lookup key r.sessions) [
  | some existing ↦ (session_ok existing false, r)
  | none ↦
      if leb c.max_sessions (length r.sessions)
      then (session_limit, r)
      else (session_ok s true, record r { sessions = insert key s r.sessions })
]

-- sess.touch()
unfoldable pub touch : ℕ → Bytes → Session → Runtime → Runtime
touch now key s r =
    if is_current s (lookup key r.sessions)
    then record r { sessions = insert key (record s { last_activity = now }) r.sessions }
    else r

unfoldable pub close : Runtime → Runtime
close r = record r { closed = true; sessions = []; registrations = [] }
