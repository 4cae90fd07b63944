-- ===== src/UdpRelay/Relay.antt =====
-- internal/udprelay/relay.go: the loops of the relay, one round each, put together from the sections
-- under the mutex. The outcomes of dialling, reading and writing are arguments.
use mc_router.Prelude.{
  ℕ, ◌+◌, ◌*◌, ◌/◌, Bool, true, false, not, none, some, [], ◌∷◌, Bytes, if◌then◌else◌, ltb, leb,
  length,
}
use mc_router.UdpRelay.Resolver.{UdpAddr, Limits, Resolver, backend_of}
use mc_router.UdpRelay.Sessions.{
  Session, Table, Relay, SessionResult, relay_closed, session_limit, dial_failed, session_ok,
  find_session, publish_session, close_session, session_is_current, touch,
}

abbrev pub new_session : ℕ → Bytes → UdpAddr → ℕ → Session
new_session now key backend id = record {
  id = id;
  key = key;
  backend = backend;
  last_activity = now;
}

-- The part of sessionForClient behind the first section: resolve, dial, publish.
unfoldable pub make_session : Limits → Resolver → ℕ → Bytes → Bool → Relay → SessionResult × Relay
make_session l resolver now key dial r =
    if not dial
    then (dial_failed, r)
    else publish_session l (new_session now key (backend_of resolver) r.next_id)
        (record r { next_id = r.next_id + 1 })

unfoldable pub session_for_client :
    Limits → Resolver → ℕ → Bytes → Bool → Relay → SessionResult × Relay
session_for_client l resolver now key dial r = elim (find_session l key r) [
  | some answer ↦ (answer, r)
  | none ↦ make_session l resolver now key dial r
]

-- What became of a client's datagram.
pub data Forwarded : Type 0 where
  dropped_session_limit dropped_write_error dropped_too_large : Forwarded
  forwarded : Session → Bytes → Forwarded

unfoldable pub deliver : ℕ → Bytes → Bool → SessionResult × Relay → Forwarded × Relay
deliver now payload written (session_ok s created, r) =
    let touched = touch now s r in
    if written
    then (forwarded s payload, touched)
    else (dropped_write_error, close_session s touched)
deliver now payload written (session_limit, r) = (dropped_session_limit, r)
deliver now payload written (relay_closed, r) = (dropped_write_error, r)
deliver now payload written (dial_failed, r) = (dropped_write_error, r)

unfoldable pub forward_to_backend :
    Limits → Resolver → ℕ → Bytes → Bytes → Bool → Bool → Relay → Forwarded × Relay
forward_to_backend l resolver now key payload dial written r =
    deliver now payload written (session_for_client l resolver now key dial r)

-- A round of Serve with a datagram that was read; a read takes one byte more than a packet may have.
unfoldable pub serve :
    Limits → Resolver → ℕ → Bytes → Bytes → Bool → Bool → Relay → Forwarded × Relay
serve l resolver now key payload dial written r =
    if ltb l.max_packet_size (length payload)
    then (dropped_too_large, r)
    else forward_to_backend l resolver now key payload dial written r

-- What a read from a backend brings, and what the round does.
pub data Received : Type 0 where
  read_error : Received
  datagram : Bytes → Received

pub data Round : Type 0 where
  stops goes_on : Round
  sent : Bytes → Round

-- A round of readBackend. A session that was closed is not in the table any more, so that closeSession
-- does nothing for it.
unfoldable pub read_backend : Limits → ℕ → Session → Bool → Received → Relay → Round × Relay
read_backend l now s written read_error r = (stops, close_session s r)
read_backend l now s written (datagram payload) r =
    if ltb l.max_packet_size (length payload)
    then (goes_on, r)
    else if not (session_is_current s r)
    then (stops, r)
    else if not written
    then (stops, close_session s r)
    else (sent payload, touch now s r)

-- The loop over a snapshot of the sessions.
unfoldable pub expire_loop : Limits → ℕ → Table → Relay → Relay
expire_loop l now [] r = r
expire_loop l now ((key, s) ∷ rest) r = elim (leb (s.last_activity + l.idle_timeout) now) [
  | true ↦ expire_loop l now rest (close_session s r)
  | false ↦ expire_loop l now rest r
]

-- A tick of expireSessions.
unfoldable pub expire_sessions : Limits → ℕ → Relay → Relay
expire_sessions l now r = expire_loop l now r.sessions r

abbrev millisecond : ℕ
millisecond = 1000000

abbrev second : ℕ
second = 1000000000

unfoldable pub cleanup_interval : ℕ → ℕ
cleanup_interval idle_timeout =
    let interval = idle_timeout / 2 in
    if ltb interval (10 * millisecond)
    then 10 * millisecond
    else if ltb second interval
    then second
    else interval
