-- ===== src/Proxy/Answers.antt =====
-- internal/proxy/server.go: which backend or fallback a handshake gets, and the answers that the gateway
-- writes itself. JSON texts come from encoding/json and are arguments; an error of a read is the end of
-- what the client sends, which shows as the end of the stream or as a timeout.
use mc_router.Prelude.{
  ℕ, Bool, true, false, not, ◌&&◌, ◌||◌, Option, none, some, [], ◌++◌, Bytes, if◌then◌else◌, ltb,
  nat_eq, length, take,
}
use mc_router.Go.Text.{is_empty}
use mc_router.Go.HostPort.{split_host_port}
use mc_router.Go.Netip.{Addr, v4, v6, unmap, parse_addr}
use mc_router.Config.{Config}
use mc_router.Mcproto.VarInt.{eof, done, failed, read_varint}
use mc_router.Mcproto.Packet.{
  ok, err, read_packet, bad_length, default_max_packet_length, status_request_packet_id,
  status_ping_packet_id, build_status_response_packet, build_status_pong_packet,
}
use mc_router.Mcproto.Handshake.{Handshake, default_limits, next_state_status, next_state_login}
use mc_router.Mcproto.Login.{
  login_start_packet_id, validate_login_start_payload, build_login_disconnect_packet,
}
use mc_router.Router.{Selection}
use mc_router.Proxy.Writing.{Write, write_all, is_complete}

-- The reasons and the results of a connection.
pub data Reason : Type 0 where
  backend_close backend_dial_failed backend_dial_timeout client_close client_denied : Reason
  context_cancelled handshake_malformed handshake_timeout initial_write_failed : Reason
  route_denied rate_limited success unknown : Reason

pub data ConnectionResult : Type 0 where
  closed denied failed_result : ConnectionResult

-- addressFromAddr: the peer is a TCP address, of so many bytes, or a text.
pub data Remote : Type 0 where
  tcp text : Bytes → Remote

unfoldable pub address_from_slice : Bytes → Option Addr
address_from_slice ip =
    if nat_eq (length ip) 4
    then some (v4 ip)
    else if nat_eq (length ip) 16
    then some (v6 ip [])
    else none

unfoldable pub address_from_addr : Remote → Option Addr
address_from_addr (tcp ip) = elim (address_from_slice ip) [ none ↦ none | some a ↦ some (unmap a) ]
address_from_addr (text s) = elim (split_host_port s) [
  | none ↦ none
  | some (host, port) ↦ elim (parse_addr host) [ none ↦ none | some a ↦ some (unmap a) ]
]

-- selectedBackend: status requests may have a backend of their own.
unfoldable pub selected_backend : Handshake → Selection → Bytes
selected_backend h s =
    if nat_eq h.next_state next_state_status && not (is_empty s.status_backend)
    then s.status_backend
    else s.backend

unfoldable pub status_fallback_enabled : Config → Handshake → Bool
status_fallback_enabled c h =
    c.fallback.enabled && c.fallback.status.enabled && nat_eq h.next_state next_state_status

-- A switch that is not set is on.
abbrev pub on_by_default : Option Bool → Bool
on_by_default none = true
on_by_default (some b) = b

unfoldable pub status_fallback_for_route_denied_enabled : Config → Handshake → Bool
status_fallback_for_route_denied_enabled c h =
    if not (status_fallback_enabled c h)
    then false
    else on_by_default c.fallback.status.respond_on_route_denied

abbrev pub is_dial_failure : Reason → Bool
is_dial_failure backend_dial_failed = true
is_dial_failure backend_dial_timeout = true
is_dial_failure _ = false

unfoldable pub status_fallback_for_backend_failure_enabled : Config → Handshake → Reason → Bool
status_fallback_for_backend_failure_enabled c h reason =
    if not (status_fallback_enabled c h) || not c.fallback.status.respond_on_backend_failure
    then false
    else is_dial_failure reason

unfoldable pub login_fallback_enabled : Config → Handshake → Bool
login_fallback_enabled c h =
    c.fallback.enabled && c.fallback.login.enabled && nat_eq h.next_state next_state_login

unfoldable pub login_fallback_for_route_denied_enabled : Config → Handshake → Bool
login_fallback_for_route_denied_enabled c h =
    if not (login_fallback_enabled c h)
    then false
    else on_by_default c.fallback.login.respond_on_route_denied

-- How the outcome of a dial is classified.
pub data Dial : Type 0 where
  connected dial_cancelled dial_timed_out dial_refused : Dial

unfoldable pub classify_dial_error : Dial → Reason
classify_dial_error dial_cancelled = context_cancelled
classify_dial_error dial_timed_out = backend_dial_timeout
classify_dial_error _ = backend_dial_failed

-- A client's connection: its peer, what it sends, whether it then stalls or closes, whether each call of
-- SetReadDeadline succeeds, and what each call of Write does in each message that is written.
pub record Client : Type 0 where
  pub remote : Remote
  pub sends : Bytes
  pub stalls : Bool
  pub deadline : ℕ → Bool
  pub writes : ℕ → ℕ → Write

-- Whether a read of a packet fails by io.EOF, or by a timeout where the client stalls. Where the payload
-- breaks off the error of io.ReadFull is another one; a packet without an identifier is io.EOF too.
unfoldable pub ping_ended : Bool → Bytes → Bool
ping_ended stalls s = elim (read_varint s) [
  | failed e ↦ elim e [ eof ↦ true | other ↦ false ]
  | done n raw r ↦
      if bad_length default_max_packet_length n
      then false
      else if ltb (length r) n
      then is_empty r || stalls
      else elim (read_varint (take n r)) [
        | failed e ↦ elim e [ eof ↦ true | other ↦ false ]
        | done id raw' r' ↦ false
      ]
]

-- The second half of a status exchange: whether it ended well, and what is written.
unfoldable pub answer_ping : Client → Bytes → Bool × Bytes
answer_ping c s = elim (read_packet default_limits.max_packet_length s) [
  | err e ↦ (ping_ended c.stalls s, [])
  | ok ((id, payload), rest) ↦
      if not (nat_eq id status_ping_packet_id) || not (nat_eq (length payload) 8)
      then (false, [])
      else (let sent = write_all (c.writes 1) (build_status_pong_packet payload) in
          (is_complete sent.1, sent.0))
]

unfoldable pub answer_status : Client → Bytes → Bytes → Bool × Bytes
answer_status c json rest =
    let sent = write_all (c.writes 0) (build_status_response_packet json) in
    if not (is_complete sent.1) || not (c.deadline 3)
    then (false, sent.0)
    else ((answer_ping c rest).0, sent.0 ++ (answer_ping c rest).1)

-- serveStatusOverride and serveStatusFallback: request, response, ping, pong.
unfoldable pub serve_status : Client → Bytes → Bytes → Bool × Bytes
serve_status c json s =
    if not (c.deadline 2)
    then (false, [])
    else elim (read_packet default_limits.max_packet_length s) [
      | err e ↦ (false, [])
      | ok ((id, payload), rest) ↦
          if not (nat_eq id status_request_packet_id) || not (is_empty payload)
          then (false, [])
          else answer_status c json rest
    ]

-- serveLoginDisconnectFallback: what is written.
unfoldable pub serve_login_disconnect : Client → Handshake → Bytes → Bytes → Bytes
serve_login_disconnect c h json s =
    if not (c.deadline 2) then [] else elim (read_packet default_limits.max_packet_length s) [
      | err e ↦ []
      | ok ((id, payload), rest) ↦
          if not (nat_eq id login_start_packet_id)
          then []
          else elim (validate_login_start_payload h.protocol_version payload) [
            | err e ↦ []
            | ok u ↦ elim (build_login_disconnect_packet h.protocol_version json) [
              | err e ↦ []
              | ok packet ↦ (write_all (c.writes 0) packet).0
            ]
          ]
    ]
