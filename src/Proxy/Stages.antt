-- ===== src/Proxy/Stages.antt =====
-- The stages that a connection of internal/proxy/server.go goes through, one equation for each way on.
use mc_router.Prelude.{
  ℕ, ◌≡◌, ◌⊎◌, inl, inr, refl, arith, Bool, true, false, List, [], Bytes, nat_eq, Option-cases,
  Bool-cases,
}
use mc_router.Go.Netip.{Addr, Prefix}
use mc_router.Config.{Float64, StatusOverride}
use mc_router.ClientPolicy.{allows}
use mc_router.RateLimit as RateLimit
use mc_router.RateLimit.{Float}
use mc_router.Router as Router
use mc_router.Router.{Selection, select}
use mc_router.Mcproto.VarInt.{done}
use mc_router.Mcproto.HandshakeLaws.{Read-cases}
use mc_router.Mcproto.Handshake.{
  Handshake, default_limits, next_state_status, route_address, read_handshake,
}
use mc_router.Proxy.Snapshot.{ServerState, limiter_config}
use mc_router.Proxy.Answers.{
  Reason, backend_dial_failed, backend_dial_timeout, context_cancelled, handshake_malformed,
  handshake_timeout, client_denied, unknown, backend_close, client_close, success, route_denied,
  rate_limited, initial_write_failed, ConnectionResult, closed, denied, failed_result, Client,
  selected_backend, Dial, connected, dial_cancelled, dial_timed_out, dial_refused,
}
use mc_router.Proxy.Connection.{
  Identified, rejected, identified, identify, Network, Texts, ends, deny_route, override_status,
  dial_failed, forward, connect, serve_selection, route, handshake_reason, handle_handshake,
  after_limiter, handle_conn,
}

-- The reasons that belong to a result in the metrics.
abbrev pub is_reason_of : ConnectionResult → Reason → Bool
is_reason_of closed success = true
is_reason_of closed client_close = true
is_reason_of closed backend_close = true
is_reason_of closed context_cancelled = true
is_reason_of denied client_denied = true
is_reason_of denied rate_limited = true
is_reason_of denied handshake_malformed = true
is_reason_of denied handshake_timeout = true
is_reason_of denied route_denied = true
is_reason_of failed_result backend_dial_failed = true
is_reason_of failed_result backend_dial_timeout = true
is_reason_of failed_result context_cancelled = true
is_reason_of failed_result initial_write_failed = true
is_reason_of failed_result unknown = true
is_reason_of _ _ = false

Identified-cases :
    (i : Identified)
    → ((reason : Reason) × (i ≡ rejected reason))
      ⊎ ((a : Addr) × (s : Bytes) × (i ≡ identified a s))
Identified-cases (rejected reason) = inl (reason, refl)
Identified-cases (identified a s) = inr (a, s, refl)

select-cases :
    (r : Router.Router) (raw : Bytes)
    → ((e : Router.Error) × (select r raw ≡ Router.err e))
      ⊎ ((x : Selection) × (select r raw ≡ Router.ok x))
select-cases r raw = go (select r raw)
  where
    go :
        (x : Router.Result Selection)
        → ((e : Router.Error) × (x ≡ Router.err e)) ⊎ ((y : Selection) × (x ≡ Router.ok y))
    go (Router.err e) = inl (e, refl)
    go (Router.ok y) = inr (y, refl)

identify-reason :
    (proxies : List Prefix) (c : Client) (reason : Reason)
    → identify proxies c ≡ rejected reason
    → is_reason_of denied reason ≡ true
unfolding identify
identify-reason proxies c reason h = ground (arith, h)

handshake_reason-denied :
    (c : Client) (s : Bytes) → is_reason_of denied (handshake_reason c s) ≡ true
unfolding handshake_reason
handshake_reason-denied c s = ground arith

module _ {F : Float} {float64 : Float64 → Float.Carrier F} (state : ServerState F float64)
    (texts : Texts) (net : Network) (c : Client) where
  pub connect-stages :
      (h : Handshake) (raw s backend : Bytes)
      → ((d : Dial) × (connect state texts net c h raw s backend
            ≡ dial_failed state texts net c h backend s d))
        ⊎ (connect state texts net c h raw s backend ≡ forward state texts net c h backend raw s)
  unfolding connect
  connect-stages h raw s backend = go (net.dial backend) refl
    where
      go :
          (d : Dial)
          → net.dial backend ≡ d
          → ((d : Dial) × (connect state texts net c h raw s backend
                ≡ dial_failed state texts net c h backend s d))
            ⊎ (connect state texts net c h raw s backend
                ≡ forward state texts net c h backend raw s)
      go connected e = inr (rw (connect, e) refl)
      go dial_cancelled e = inl (dial_cancelled, rw (connect, e) refl)
      go dial_timed_out e = inl (dial_timed_out, rw (connect, e) refl)
      go dial_refused e = inl (dial_refused, rw (connect, e) refl)

  pub serve_selection-stages :
      (h : Handshake) (raw s : Bytes) (x : Selection)
      → ((o : StatusOverride) × (serve_selection state texts net c h raw s x
            ≡ override_status state texts net c o s))
        ⊎ (serve_selection state texts net c h raw s x
            ≡ connect state texts net c h raw s (selected_backend h x))
  unfolding serve_selection selected_backend
  serve_selection-stages h raw s x = elim (Option-cases x.status_override) [
    | inl e ↦ inr (rw (serve_selection, e) refl)
    | inr (o, e) ↦ elim (Bool-cases (nat_eq h.next_state next_state_status)) [
      | inl b ↦ inl (o, rw (serve_selection, e) (rw (b) refl))
      | inr b ↦ inr (rw (serve_selection, e) (rw (b) refl))
    ]
  ]

  pub route-stages :
      (h : Handshake) (raw s : Bytes)
      → (route state texts net c h raw s ≡ deny_route state texts net c h s)
        ⊎ ((x : Selection) × (select state.router (route_address h) ≡ Router.ok x)
            × (route state texts net c h raw s ≡ serve_selection state texts net c h raw s x))
  unfolding route
  route-stages h raw s = elim (select-cases state.router (route_address h)) [
    | inl (e, l) ↦ inl (rw (route, l) refl)
    | inr (x, l) ↦ inr (x, l, rw (route, l) refl)
  ]

  pub handle_handshake-stages :
      (s : Bytes)
      → ((result : ConnectionResult) × (reason : Reason) × (is_reason_of result reason ≡ true)
          × (handle_handshake state texts net c s ≡ ends result reason []))
        ⊎ ((h : Handshake) × (raw : Bytes) × (rest : Bytes) × (read_handshake s default_limits
              ≡ done h raw rest)
            × (handle_handshake state texts net c s ≡ route state texts net c h raw rest))
  unfolding handle_handshake
  handle_handshake-stages s = elim (Bool-cases (c.deadline 0)) [
    | inr z ↦ inl (failed_result, unknown, refl, rw (handle_handshake, z) refl)
    | inl z ↦ elim (Read-cases (read_handshake s default_limits)) [
      | inl (e, l) ↦ inl (
        denied,
        handshake_reason c s,
        handshake_reason-denied c s,
        rw (handle_handshake, z) (rw (l) refl),
      )
      | inr (h, raw, rest, l) ↦ elim (Bool-cases (c.deadline 1)) [
        | inr y ↦
            inl (failed_result, unknown, refl, rw (handle_handshake, z) (rw (l) (rw (y) refl)))
        | inl y ↦ inr (h, raw, rest, l, rw (handle_handshake, z) (rw (l) (rw (y) refl)))
      ]
    ]
  ]

  pub handle_conn-stages :
      (now : ℕ) (entries : RateLimit.Entries F)
      → ((reason : Reason) × (is_reason_of denied reason ≡ true)
          × (handle_conn state texts net c now entries ≡ (ends denied reason [], entries)))
        ⊎ ((a : Addr) × (s : Bytes) × (identify state.trusted_proxies c ≡ identified a s)
            × (allows state.client_policy a ≡ true)
            × (handle_conn state texts net c now entries
                ≡ after_limiter state texts net c
                    (RateLimit.allow F (limiter_config F float64 state.cfg) a now entries)
                    s))
  unfolding handle_conn
  handle_conn-stages now entries = elim (Identified-cases (identify state.trusted_proxies c)) [
    | inl (reason, l) ↦
        inl (reason, identify-reason state.trusted_proxies c reason l, rw (handle_conn, l) refl)
    | inr (a, s, l) ↦ elim (Bool-cases (allows state.client_policy a)) [
      | inl b ↦ inr (a, s, l, b, rw (handle_conn, l) (rw (b) refl))
      | inr b ↦ inl (client_denied, refl, rw (handle_conn, l) (rw (b) refl))
    ]
  ]
