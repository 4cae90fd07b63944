-- ===== src/Proxy/Admission.antt =====
-- What a connection of internal/proxy/server.go must have passed before its handshake is looked up.
use mc_router.Prelude.{
  ℕ, ◌≡◌, ◌⊎◌, inl, inr, refl, ap, ◌∙◌, Bool, true, false, [], Bytes, Bool-cases,
}
use mc_router.Go.Netip.{Addr}
use mc_router.Config.{Float64}
use mc_router.ClientPolicy.{allows}
use mc_router.RateLimit as RateLimit
use mc_router.RateLimit.{Float}
use mc_router.Mcproto.VarInt.{done}
use mc_router.Mcproto.Handshake.{Handshake, default_limits, read_handshake}
use mc_router.Proxy.Snapshot.{ServerState, limiter_config}
use mc_router.Proxy.Answers.{Reason, ConnectionResult, denied, Client, rate_limited}
use mc_router.Proxy.Connection.{
  identified, identify, Network, Texts, Outcome, ends, route, handle_handshake, after_limiter,
  handle_conn,
}
use mc_router.Proxy.Stages.{is_reason_of, handle_handshake-stages, handle_conn-stages}

module _ {F : Float} {float64 : Float64 → Float.Carrier F} (state : ServerState F float64)
    (texts : Texts) (net : Network) (c : Client) where
  -- The checks that a connection has passed where its handshake is looked up.
  pub record IsAdmitted (now : ℕ) (entries : RateLimit.Entries F) : Type 0 where
    pub source : Addr
    pub sent : Bytes
    pub known : identify state.trusted_proxies c ≡ identified source sent
    pub permitted : allows state.client_policy source ≡ true
    pub within_limit :
        (RateLimit.allow F (limiter_config F float64 state.cfg) source now entries).0 ≡ true
    pub handshake : Handshake
    pub raw : Bytes
    pub behind : Bytes
    pub read : read_handshake sent default_limits ≡ done handshake raw behind

  after_limiter-refused :
      (limited : Bool × RateLimit.Entries F) (s : Bytes)
      → limited.0 ≡ false
      → (after_limiter state texts net c limited s).0 ≡ ends denied rate_limited []
  unfolding after_limiter
  after_limiter-refused (allowed, entries) s e = rw (after_limiter, e) refl

  after_limiter-allowed :
      (limited : Bool × RateLimit.Entries F) (s : Bytes)
      → limited.0 ≡ true
      → (after_limiter state texts net c limited s).0 ≡ handle_handshake state texts net c s
  unfolding after_limiter
  after_limiter-allowed (allowed, entries) s e = rw (after_limiter, e) refl

  -- How a connection goes: it is turned away with a reason and nothing else, or it is admitted and
  -- then routed.
  pub handle_conn-course :
      (now : ℕ) (entries : RateLimit.Entries F)
      → ((result : ConnectionResult) × (reason : Reason) × (is_reason_of result reason ≡ true)
          × ((handle_conn state texts net c now entries).0 ≡ ends result reason []))
        ⊎ ((a : IsAdmitted now entries) × ((handle_conn state texts net c now entries).0
              ≡ route state texts net c a.handshake a.raw a.behind))
  handle_conn-course now entries = elim (handle_conn-stages state texts net c now entries) [
    | inl (reason, good, e) ↦
        inl (denied, reason, good, ap (λ (o : Outcome × RateLimit.Entries F). o.0) e)
    | inr (a, s, known, permitted, e) ↦
        let limited = RateLimit.allow F (limiter_config F float64 state.cfg) a now entries in
        let first = ap (λ (o : Outcome × RateLimit.Entries F). o.0) e in
        elim (Bool-cases limited.0) [
          | inr l ↦ inl (denied, rate_limited, refl, first ∙ after_limiter-refused limited s l)
          | inl l ↦ elim (handle_handshake-stages state texts net c s) [
            | inl (result, reason, good, e') ↦
                inl (result, reason, good, first ∙ after_limiter-allowed limited s l ∙ e')
            | inr (h, raw, rest, r, e') ↦ inr (
              record {
                source = a;
                sent = s;
                known = known;
                permitted = permitted;
                within_limit = l;
                handshake = h;
                raw = raw;
                behind = rest;
                read = r;
              },
              first ∙ after_limiter-allowed limited s l ∙ e',
            )
          ]
        ]
  ]
