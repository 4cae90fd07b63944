-- ===== src/Proxy/Connection.antt =====
-- handleConn of internal/proxy/server.go: one connection from its accept to its close. The state is the
-- one in force when the connection is accepted; what the network does is an argument.
use mc_router.Prelude.{
  ℕ, Bool, true, false, not, ◌&&◌, Option, none, some, List, [], ◌++◌, Bytes, if◌then◌else◌, ltb,
  nat_eq, length, take,
}
use mc_router.Go.Netip.{Addr, Prefix}
use mc_router.Config.{Float64, StatusOverride}
use mc_router.ClientPolicy.{allows}
use mc_router.ProxyProtocol as ProxyProtocol
use mc_router.ProxyProtocol.{trusted}
use mc_router.RateLimit as RateLimit
use mc_router.RateLimit.{Float}
use mc_router.Router as Router
use mc_router.Router.{Selection, select}
use mc_router.Mcproto.VarInt.{eof, done, failed, read_varint}
use mc_router.Mcproto.Packet.{bad_length}
use mc_router.Mcproto.Handshake.{
  Handshake, default_limits, next_state_status, route_address, read_handshake,
}
use mc_router.Proxy.Snapshot.{ServerState, limiter_config}
use mc_router.Proxy.Writing.{Write, write_all, is_complete}
use mc_router.Proxy.Answers.{
  Reason, backend_close, client_close, client_denied, context_cancelled, handshake_malformed,
  handshake_timeout, initial_write_failed, route_denied, rate_limited, success, unknown,
  ConnectionResult, closed, denied, failed_result, Client, address_from_addr, selected_backend,
  status_fallback_for_route_denied_enabled, status_fallback_for_backend_failure_enabled,
  login_fallback_for_route_denied_enabled, Dial, connected, dial_cancelled, dial_timed_out,
  dial_refused, classify_dial_error, serve_status, serve_login_disconnect,
}

-- Who the client is, and what it sends behind a PROXY header.
pub data Identified : Type 0 where
  rejected : Reason → Identified
  identified : Addr → Bytes → Identified

unfoldable pub identify : List Prefix → Client → Identified
identify proxies c = elim (address_from_addr c.remote) [
  | none ↦ rejected client_denied
  | some a ↦
      if not (trusted proxies a) then identified a c.sends else elim (ProxyProtocol.read c.sends) [
        | ProxyProtocol.err e ↦ rejected handshake_malformed
        | ProxyProtocol.ok (source, rest) ↦ identified source rest
      ]
]

-- Whether the bytes ran out in a handshake on the wire, where a client that stalls makes a timeout.
unfoldable pub ran_out : Bytes → Bool
ran_out s = elim (read_varint s) [
  | failed e ↦ elim e [ eof ↦ true | other ↦ false ]
  | done n raw r ↦ not (bad_length default_limits.max_packet_length n) && ltb (length r) n
]

unfoldable pub handshake_reason : Client → Bytes → Reason
handshake_reason c s = if c.stalls && ran_out s then handshake_timeout else handshake_malformed

-- proxy and closeReasonForDirection: the context ends, or one direction is first to end.
pub data Ended : Type 0 where
  cancelled client_to_backend backend_to_client : Ended

unfoldable pub close_reason : Ended → Reason
close_reason cancelled = context_cancelled
close_reason client_to_backend = client_close
close_reason backend_to_client = backend_close

-- The backend's side: dials, writes of the handshake, the bytes copied to it, and how the copy ends.
pub record Network : Type 0 where
  pub dial : Bytes → Dial
  pub writes : ℕ → Write
  pub copied : ℕ
  pub ended : Ended

-- The texts of encoding/json for a status and for a login message.
pub record Texts : Type 0 where
  pub status_override : StatusOverride → Bytes
  pub status : Bytes
  pub login : Bytes

pub record Event : Type 0 where
  pub backend : Bytes
  pub server_address : Bytes
  pub next_state : ℕ

-- What a connection comes to: the metrics' result and reason, what is written to the client, the event
-- for the scaler webhook, the backend that is dialled, and what is written to it.
pub record Outcome : Type 0 where
  pub result : ConnectionResult
  pub reason : Reason
  pub to_client : Bytes
  pub event : Option Event
  pub dialled : Option Bytes
  pub to_backend : Bytes

-- An end without a backend.
abbrev pub ends : ConnectionResult → Reason → Bytes → Outcome
ends result reason to_client = record {
  result = result;
  reason = reason;
  to_client = to_client;
  event = none;
  dialled = none;
  to_backend = [];
}

module _ {F : Float} {float64 : Float64 → Float.Carrier F} (state : ServerState F float64)
    (texts : Texts) (net : Network) (c : Client) where
  -- No route: an answer in place of the backend's, where it is configured.
  unfoldable pub deny_route : Handshake → Bytes → Outcome
  deny_route h s = ends denied route_denied (
      if status_fallback_for_route_denied_enabled state.cfg h
      then (serve_status c texts.status s).1
      else if login_fallback_for_route_denied_enabled state.cfg h
      then serve_login_disconnect c h texts.login s
      else [])

  unfoldable pub override_status : StatusOverride → Bytes → Outcome
  override_status o s =
      let served = serve_status c (texts.status_override o) s in
      if served.0 then ends closed success served.1 else ends failed_result unknown served.1

  abbrev pub event_of : Handshake → Bytes → Event
  event_of h backend = record {
    backend = backend;
    server_address = route_address h;
    next_state = h.next_state;
  }

  unfoldable pub dial_failed : Handshake → Bytes → Bytes → Dial → Outcome
  dial_failed h backend s d = record {
    result = failed_result;
    reason = classify_dial_error d;
    to_client =
        if status_fallback_for_backend_failure_enabled state.cfg h (classify_dial_error d)
        then (serve_status c texts.status s).1
        else [];
    event = some (event_of h backend);
    dialled = some backend;
    to_backend = [];
  }

  unfoldable pub forward : Handshake → Bytes → Bytes → Bytes → Outcome
  forward h backend raw s =
      let sent = write_all net.writes raw in
      let through = is_complete sent.1 in
      record {
        result = if through then closed else failed_result;
        reason = if through then close_reason net.ended else initial_write_failed;
        to_client = [];
        event = some (event_of h backend);
        dialled = some backend;
        to_backend = sent.0 ++ (if through then take net.copied s else []);
      }

  unfoldable pub connect : Handshake → Bytes → Bytes → Bytes → Outcome
  connect h raw s backend = elim (net.dial backend) [
    | connected ↦ forward h backend raw s
    | dial_cancelled ↦ dial_failed h backend s dial_cancelled
    | dial_timed_out ↦ dial_failed h backend s dial_timed_out
    | dial_refused ↦ dial_failed h backend s dial_refused
  ]

  unfoldable pub serve_selection : Handshake → Bytes → Bytes → Selection → Outcome
  serve_selection h raw s selection = elim selection.status_override [
    | none ↦ connect h raw s (selected_backend h selection)
    | some o ↦
        if nat_eq h.next_state next_state_status
        then override_status o s
        else connect h raw s (selected_backend h selection)
  ]

  unfoldable pub route : Handshake → Bytes → Bytes → Outcome
  route h raw s = elim (select state.router (route_address h)) [
    | Router.err e ↦ deny_route h s
    | Router.ok selection ↦ serve_selection h raw s selection
  ]

  unfoldable pub handle_handshake : Bytes → Outcome
  handle_handshake s =
      if not (c.deadline 0)
      then ends failed_result unknown []
      else elim (read_handshake s default_limits) [
        | failed e ↦ ends denied (handshake_reason c s) []
        | done h raw rest ↦
            if not (c.deadline 1) then ends failed_result unknown [] else route h raw rest
      ]

  -- The limiter's answer, with its table afterwards.
  unfoldable pub after_limiter : Bool × RateLimit.Entries F → Bytes → Outcome × RateLimit.Entries F
  after_limiter (allowed, entries) s =
      (if allowed then handle_handshake s else ends denied rate_limited [], entries)

  unfoldable pub handle_conn : ℕ → RateLimit.Entries F → Outcome × RateLimit.Entries F
  handle_conn now entries = elim (identify state.trusted_proxies c) [
    | rejected reason ↦ (ends denied reason [], entries)
    | identified a s ↦
        if not (allows state.client_policy a)
        then (ends denied client_denied [], entries)
        else after_limiter (RateLimit.allow F (limiter_config F float64 state.cfg) a now entries) s
  ]
