-- ===== src/UdpRelay/Forwarding.antt =====
-- Where relay.go sends what a client sends.
use mc_router.Prelude.{
  ℕ, ◌+◌, ◌≤◌, ◌<◌, ◌≡◌, ◌⊎◌, inl, inr, ap, ◌∙◌, arith, Bool, true, false, none, some, Bytes,
  length, lookup, bytes_Eq, Bool-cases, Option-cases, ltb,
}
use mc_router.UdpRelay.Resolver.{Limits, Resolver, backend_of}
use mc_router.UdpRelay.Sessions.{
  Session, Relay, SessionResult, relay_closed, session_limit, dial_failed, session_ok, find_session,
  publish_session,
}
use mc_router.UdpRelay.Relay.{
  new_session, make_session, session_for_client, forwarded, deliver, forward_to_backend, serve,
}

-- The session that a datagram of a client goes over.
pub record IsSessionOf (l : Limits) (resolver : Resolver) (key : Bytes) (r : Relay) (s : Session)
    : Type 0 where
  pub up : r.closed ≡ false
  pub kept_or_new :
      (lookup key r.sessions ≡ some s)
      ⊎ ((lookup key r.sessions ≡ none)
          × (length r.sessions < l.max_sessions)
          × (s.key ≡ key)
          × (s.backend ≡ backend_of resolver))

find_session-ok :
    (l : Limits) (key : Bytes) (r : Relay) (s : Session) (created : Bool)
    → find_session l key r ≡ some (session_ok s created)
    → (r.closed ≡ false) × (lookup key r.sessions ≡ some s)
unfolding find_session
find_session-ok l key r s created h = elim (Option-cases (lookup key r.sessions)) [
  | inl k ↦ ground (arith, k, h)
  | inr (t, k) ↦ (ground (arith, k, h), ground (arith, k, h))
]

find_session-none :
    (l : Limits) (key : Bytes) (r : Relay)
    → find_session l key r ≡ none
    → (r.closed ≡ false) × (lookup key r.sessions ≡ none) × (length r.sessions < l.max_sessions)
unfolding find_session
find_session-none l key r h = elim (Option-cases (lookup key r.sessions)) [
  | inl k ↦ (ground (arith, k, h), k, ground (arith, k, h))
  | inr (t, k) ↦ ground (arith, k, h)
]

publish_session-ok :
    (l : Limits) (t s : Session) (r : Relay) (created : Bool)
    → lookup t.key r.sessions ≡ none
    → (publish_session l t r).0 ≡ session_ok s created
    → s ≡ t
unfolding publish_session
publish_session-ok l t s r created free h = ground (arith, free, h)

session_for_client-IsSessionOf :
    (l : Limits) (resolver : Resolver) (now : ℕ) (key : Bytes) (dial : Bool) (r : Relay)
    (s : Session) (created : Bool)
    → (session_for_client l resolver now key dial r).0 ≡ session_ok s created
    → IsSessionOf l resolver key r s
unfolding session_for_client make_session
session_for_client-IsSessionOf l resolver now key dial r s created h =
    elim (Option-cases (find_session l key r)) [
      | inr (answer, e) ↦
          let same : answer ≡ session_ok s created = ground (arith, e, h) in
          let (up, there) = find_session-ok l key r s created (e ∙ ap (λ x. some x) same) in
          record { up = up; kept_or_new = inl there }
      | inl e ↦
          let (up, free, room) = find_session-none l key r e in
          let t = new_session now key (backend_of resolver) r.next_id in
          let made : (publish_session l t (record r { next_id = r.next_id + 1 })).0
              ≡ session_ok s created =
            ground (arith, e, h) in
          let same =
            publish_session-ok l t s (record r { next_id = r.next_id + 1 }) created free made in
          record {
            up = up;
            kept_or_new = inr (
              free,
              room,
              ap (λ (x : Session). x.key) same,
              ap (λ (x : Session). x.backend) same,
            );
          }
    ]

deliver-forwarded :
    (now : ℕ) (payload p : Bytes) (written : Bool) (result : SessionResult) (r : Relay)
    (s : Session)
    → (deliver now payload written (result, r)).0 ≡ forwarded s p
    → (p ≡ payload) × ((created : Bool) × (result ≡ session_ok s created))
unfolding deliver
deliver-forwarded now payload p written relay_closed r s h = cc
deliver-forwarded now payload p written session_limit r s h = cc
deliver-forwarded now payload p written dial_failed r s h = cc
deliver-forwarded now payload p true (session_ok t created) r s h =
    (ground (arith, h), (created, ground (arith, h)))
deliver-forwarded now payload p false (session_ok t created) r s h = cc

-- A datagram of a client that is forwarded goes on unchanged and within the limit, over the session
-- that the client has; a client without one gets a session with the resolver's backend, and only where
-- there is room.
pub serve-IsSessionOf :
    (l : Limits) (resolver : Resolver) (now : ℕ) (key payload p : Bytes) (dial written : Bool)
    (r : Relay) (s : Session)
    → (serve l resolver now key payload dial written r).0 ≡ forwarded s p
    → (p ≡ payload) × (length p ≤ l.max_packet_size) × IsSessionOf l resolver key r s
unfolding serve forward_to_backend
serve-IsSessionOf l resolver now key payload p dial written r s h =
    elim (Bool-cases (ltb l.max_packet_size (length payload))) [
      | inl b ↦ absurd (ground (arith, b, h))
      | inr b ↦
          let (result, t) = session_for_client l resolver now key dial r in
          let (same, (created, e)) =
            deliver-forwarded now payload p written result t s ground (arith, b, h) in
          (
            same,
            ground (arith, b, same),
            session_for_client-IsSessionOf l resolver now key dial r s created e,
          )
    ]
