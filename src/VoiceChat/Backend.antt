-- ===== src/VoiceChat/Backend.antt =====
-- The two loops of runtime.go that read datagrams, one round each: serveUDP reads what clients send,
-- readBackend what the backend of one session sends. A read takes one byte more than a packet may have.
use mc_router.Prelude.{
  ℕ, ◌≤◌, ◌≡◌, arith, Bool, true, false, not, Option, none, some, Bytes, if◌then◌else◌, ltb, length,
  lookup, bytes_Eq,
}
use mc_router.VoiceChat.State.{
  Config, Session, Runtime, is_current, session_is_current, close_session, touch,
}
use mc_router.VoiceChat.Handlers.{Forwarded, dropped_malformed, forward_client_packet}

-- What a read brings.
pub data Received : Type 0 where
  read_error : Received
  datagram : Bytes → Received

-- A round of serveUDP, where the listener is still there.
unfoldable pub serve_udp :
    Config → ℕ → Bytes → Bool → Bool → Received → Runtime → Option Forwarded × Runtime
serve_udp c now client dial written read_error r = (none, r)
serve_udp c now client dial written (datagram payload) r =
    if ltb c.max_packet_size (length payload) then (some dropped_malformed, r) else (
      some (forward_client_packet c now client payload dial written r).0,
      (forward_client_packet c now client payload dial written r).1,
    )

-- Whether the loop of readBackend goes on, and what it has sent to the client of the session.
pub data Round : Type 0 where
  stops goes_on : Round
  sent : Bytes → Round

-- `written` is the outcome of WriteToUDP. An error of a socket that was closed finds a session that is
-- not in the table any more, where closeSession does nothing.
unfoldable pub read_backend :
    Config → ℕ → Bytes → Session → Bool → Received → Runtime → Round × Runtime
read_backend c now key s written read_error r = (stops, close_session key s r)
read_backend c now key s written (datagram payload) r =
    if ltb c.max_packet_size (length payload)
    then (goes_on, r)
    else if not (session_is_current key s r)
    then (stops, r)
    else if not written
    then (stops, close_session key s r)
    else (sent payload, touch now key s r)

-- What a datagram to a client has to satisfy.
pub record IsDeliverable (c : Config) (key : Bytes) (s : Session) (p : Bytes) (received : Received)
    (r : Runtime) : Type 0 where
  pub unchanged : received ≡ datagram p
  pub fits : length p ≤ c.max_packet_size
  pub up : r.closed ≡ false
  pub current : is_current s (lookup key r.sessions) ≡ true

-- What a client is sent is a datagram of its session's backend, unchanged and within the limit, while
-- the session is the one that the table has for its key and the gateway is not closed.
pub read_backend-IsDeliverable :
    (c : Config) (now : ℕ) (key p : Bytes) (s : Session) (written : Bool) (received : Received)
    (r : Runtime)
    → (read_backend c now key s written received r).0 ≡ sent p
    → IsDeliverable c key s p received r
unfolding read_backend session_is_current
read_backend-IsDeliverable c now key p s written read_error r h = cc
read_backend-IsDeliverable c now key p s written (datagram payload) r h =
    let same : payload ≡ p = ground (arith, h) in
    record {
      unchanged = cc;
      fits = ground (arith, h);
      up = ground (arith, h);
      current = ground (arith, h);
    }
