-- ===== src/Proxy/Metrics.antt =====
-- What the metrics say of a connection of internal/proxy/server.go, and what a client that is turned
-- away leaves behind.
use mc_router.Prelude.{
  ℕ, ◌≡◌, ◌⊎◌, inl, inr, refl, sym, ap, subst, ◌∙◌, Bool, true, none, [], Bytes, Bool-cases,
}
use mc_router.Go.Netip.{Addr}
use mc_router.Config.{Float64, StatusOverride}
use mc_router.ClientPolicy.{allows}
use mc_router.RateLimit as RateLimit
use mc_router.RateLimit.{Float}
use mc_router.Router.{Selection}
use mc_router.Mcproto.Handshake.{Handshake}
use mc_router.Proxy.Snapshot.{ServerState, limiter_config}
use mc_router.Proxy.Writing.{write_all, is_complete}
use mc_router.Proxy.Answers.{
  closed, failed_result, Client, selected_backend, Dial, connected, dial_cancelled, dial_timed_out,
  dial_refused, classify_dial_error, serve_status,
}
use mc_router.Proxy.Connection.{
  identified, identify, Network, Texts, Outcome, deny_route, override_status, dial_failed, forward,
  connect, serve_selection, route, after_limiter, handle_conn, close_reason, Ended, cancelled,
  client_to_backend, backend_to_client,
}
use mc_router.Proxy.Stages.{
  is_reason_of, connect-stages, serve_selection-stages, route-stages, handle_conn-stages,
}
use mc_router.Proxy.Admission.{IsAdmitted, handle_conn-course}

-- A connection of which nobody but the metrics hears.
pub record IsSilent (o : Outcome) : Type 0 where
  pub no_answer : o.to_client ≡ []
  pub no_event : o.event ≡ none
  pub no_dial : o.dialled ≡ none
  pub nothing_sent : o.to_backend ≡ []

-- The reason of an outcome is one that its result can have.
abbrev pub HasReason : Outcome → Type 0
HasReason o = is_reason_of o.result o.reason ≡ true

classify_dial_error-failed : (d : Dial) → is_reason_of failed_result (classify_dial_error d) ≡ true
unfolding classify_dial_error
classify_dial_error-failed connected = refl
classify_dial_error-failed dial_cancelled = refl
classify_dial_error-failed dial_timed_out = refl
classify_dial_error-failed dial_refused = refl

close_reason-closed : (e : Ended) → is_reason_of closed (close_reason e) ≡ true
unfolding close_reason
close_reason-closed cancelled = refl
close_reason-closed client_to_backend = refl
close_reason-closed backend_to_client = refl

module _ {F : Float} {float64 : Float64 → Float.Carrier F} (state : ServerState F float64)
    (texts : Texts) (net : Network) (c : Client) where
  connect-HasReason :
      (h : Handshake) (raw s backend : Bytes)
      → HasReason (connect state texts net c h raw s backend)
  unfolding dial_failed forward
  connect-HasReason h raw s backend = elim (connect-stages state texts net c h raw s backend) [
    | inl (d, e) ↦ subst HasReason (sym e) (classify_dial_error-failed d)
    | inr e ↦
        subst HasReason (sym e) (elim (Bool-cases (is_complete (write_all net.writes raw).1)) [
          | inl b ↦ rw (b) (close_reason-closed net.ended)
          | inr b ↦ rw (b) refl
        ])
  ]

  override_status-HasReason :
      (o : StatusOverride) (s : Bytes) → HasReason (override_status state texts net c o s)
  unfolding override_status
  override_status-HasReason o s = elim (Bool-cases (serve_status c (texts.status_override o) s).0) [
    | inl b ↦ rw (b) refl
    | inr b ↦ rw (b) refl
  ]

  serve_selection-HasReason :
      (h : Handshake) (raw s : Bytes) (x : Selection)
      → HasReason (serve_selection state texts net c h raw s x)
  serve_selection-HasReason h raw s x = elim (serve_selection-stages state texts net c h raw s x) [
    | inl (o, e) ↦ subst HasReason (sym e) (override_status-HasReason o s)
    | inr e ↦ subst HasReason (sym e) (connect-HasReason h raw s (selected_backend h x))
  ]

  route-HasReason : (h : Handshake) (raw s : Bytes) → HasReason (route state texts net c h raw s)
  unfolding deny_route
  route-HasReason h raw s = elim (route-stages state texts net c h raw s) [
    | inl e ↦ subst HasReason (sym e) refl
    | inr (x, l, e) ↦ subst HasReason (sym e) (serve_selection-HasReason h raw s x)
  ]

  -- Whatever a client and the network do, a connection ends with a reason that belongs to its result:
  -- none is counted as closed for a reason of a refusal or of a failure, nor the other way about.
  pub handle_conn-HasReason :
      (now : ℕ) (entries : RateLimit.Entries F)
      → HasReason (handle_conn state texts net c now entries).0
  handle_conn-HasReason now entries = elim (handle_conn-course state texts net c now entries) [
    | inl (result, reason, good, e) ↦ subst HasReason (sym e) good
    | inr (a, e) ↦ subst HasReason (sym e) (route-HasReason a.handshake a.raw a.behind)
  ]

  -- A connection is admitted, or nothing is written to the client, no event is sent to the scaler, and
  -- no backend is dialled or sent a byte.
  pub handle_conn-IsSilent :
      (now : ℕ) (entries : RateLimit.Entries F)
      → IsAdmitted state texts net c now entries
        ⊎ IsSilent (handle_conn state texts net c now entries).0
  handle_conn-IsSilent now entries = elim (handle_conn-course state texts net c now entries) [
    | inl (result, reason, good, e) ↦ inr (
        subst IsSilent (sym e)
          record { no_answer = refl; no_event = refl; no_dial = refl; nothing_sent = refl })
    | inr (a, e) ↦ inl a
  ]

  after_limiter-entries :
      (limited : Bool × RateLimit.Entries F) (s : Bytes)
      → (after_limiter state texts net c limited s).1 ≡ limited.1
  unfolding after_limiter
  after_limiter-entries (allowed, entries) s = refl

  -- A connection leaves the limiter's table as it is, unless the client is identified and the policy
  -- allows it; then the table is the one that the limiter leaves for that client.
  pub handle_conn-allowed_entries :
      (now : ℕ) (entries : RateLimit.Entries F)
      → ((handle_conn state texts net c now entries).1 ≡ entries)
        ⊎ ((a : Addr) × (s : Bytes) × (identify state.trusted_proxies c ≡ identified a s)
            × (allows state.client_policy a ≡ true)
            × ((handle_conn state texts net c now entries).1
                ≡ (RateLimit.allow F (limiter_config F float64 state.cfg) a now entries).1))
  handle_conn-allowed_entries now entries =
      elim (handle_conn-stages state texts net c now entries) [
        | inl (reason, good, e) ↦ inl (ap (λ (o : Outcome × RateLimit.Entries F). o.1) e)
        | inr (a, s, known, permitted, e) ↦ inr (
          a,
          s,
          known,
          permitted,
          ap (λ (o : Outcome × RateLimit.Entries F). o.1) e
              ∙ after_limiter-entries
                  (RateLimit.allow F (limiter_config F float64 state.cfg) a now entries) s,
        )
      ]
