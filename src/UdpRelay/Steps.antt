-- ===== src/UdpRelay/Steps.antt =====
-- The sections of relay.go as the steps of a relation: the goroutines take the mutex in any order.
use mc_router.Prelude.{
  ℕ, ◌+◌, ◌≤◌, ◌≡◌, ◌≢◌, inl, inr, subst, sym, ◌⊎◌, ◌<◌, refl, arith, false, none, some, [], Bytes,
  All, length, lookup, insert, erase, bytes_Eq, length-insert, length-insert_known, length-erase,
  Option-cases, Bool-cases, leb,
}
use mc_router.Prelude.Keys.{Unique, insert-Unique, erase-Unique, All-insert, All-erase}
use mc_router.UdpRelay.Resolver.{Limits}
use mc_router.UdpRelay.Sessions.{
  Session, Relay, publish_session, close_session, touch, close, is_current,
}

-- Each session is in the table once, under its own key, and the table is within the limit.
pub record IsWellFormed (l : Limits) (r : Relay) : Type 0 where
  pub fits : length r.sessions ≤ l.max_sessions
  pub own_keys : All (λ (x : Bytes × Session). x.0 ≡ x.1.key) r.sessions
  pub unique : Unique r.sessions

pub data Step (l : Limits) : Relay → Relay → Type 0 where
  publishes : (r : Relay) (s : Session) → Step l r (publish_session l s r).1
  touches : (r : Relay) (now : ℕ) (s : Session) → Step l r (touch now s r)
  closes_session : (r : Relay) (s : Session) → Step l r (close_session s r)
  dials : (r : Relay) → Step l r (record r { next_id = r.next_id + 1 })
  shuts_down : (r : Relay) → Step l r (close r)

pub data Reach (l : Limits) (r : Relay) : Relay → Type 0 where
  here : Reach l r r
  next : {s t : Relay} → Reach l r s → Step l s t → Reach l r t

-- The relay as New makes it.
abbrev pub started : Relay
started = record { closed = false; sessions = []; next_id = 0 }

inserted :
    (l : Limits) (r : Relay) (s : Session)
    → length (insert s.key s r.sessions) ≤ l.max_sessions
    → IsWellFormed l r
    → IsWellFormed l (record r { sessions = insert s.key s r.sessions })
inserted l r s fits w = record {
  fits = fits;
  own_keys = All-insert (λ (x : Bytes × Session). x.0 ≡ x.1.key) s.key s r.sessions refl w.own_keys;
  unique = insert-Unique s.key s r.sessions w.unique;
}

-- A published session changes the table only where there is room.
pub publish_session-step :
    (l : Limits) (s : Session) (r : Relay)
    → ((publish_session l s r).1 ≡ r)
      ⊎ ((length r.sessions < l.max_sessions)
          × ((publish_session l s r).1 ≡ record r { sessions = insert s.key s r.sessions }))
unfolding publish_session
publish_session-step l s r = elim (Bool-cases r.closed) [
  | inl c ↦ inl ground (arith, c)
  | inr c ↦ elim (Option-cases (lookup s.key r.sessions)) [
    | inr (t, k) ↦ inl ground (arith, c, k)
    | inl k ↦ elim (Bool-cases (leb l.max_sessions (length r.sessions))) [
      | inl b ↦ inl ground (arith, c, k, b)
      | inr b ↦ inr (ground (arith, b), ground (arith, c, k, b))
    ]
  ]
]

publish_session-IsWellFormed :
    (l : Limits) (s : Session) (r : Relay)
    → IsWellFormed l r
    → IsWellFormed l (publish_session l s r).1
publish_session-IsWellFormed l s r w = elim (publish_session-step l s r) [
  | inl e ↦ subst (IsWellFormed l) (sym e) w
  | inr (room, e) ↦
      subst (IsWellFormed l) (sym e)
        (inserted l r s (omega (arith, room, length-insert s.key s r.sessions)) w)
]

touch-step :
    (now : ℕ) (s : Session) (r : Relay)
    → (touch now s r ≡ r)
      ⊎ ((lookup s.key r.sessions ≢ none)
          × (touch now s r
              ≡ record r { sessions = insert s.key (record s { last_activity = now }) r.sessions }))
unfolding touch
touch-step now s r = elim (Option-cases (lookup s.key r.sessions)) [
  | inl k ↦ inl (rw (touch, k) refl)
  | inr (t, k) ↦ elim (Bool-cases (is_current s (some t))) [
    | inl b ↦ inr (λ q. cc (k, q), rw (touch, k) (rw (b) refl))
    | inr b ↦ inl (rw (touch, k) (rw (b) refl))
  ]
]

touch-IsWellFormed :
    (l : Limits) (now : ℕ) (s : Session) (r : Relay)
    → IsWellFormed l r
    → IsWellFormed l (touch now s r)
touch-IsWellFormed l now s r w = elim (touch-step now s r) [
  | inl e ↦ subst (IsWellFormed l) (sym e) w
  | inr (known, e) ↦
      let later : Session = record s { last_activity = now } in
      let same = length-insert_known s.key later r.sessions known in
      subst (IsWellFormed l) (sym e) (inserted l r later (omega (arith, same, w.fits)) w)
]

close_session-step :
    (s : Session) (r : Relay)
    → (close_session s r ≡ r) ⊎ (close_session s r ≡ record r { sessions = erase s.key r.sessions })
unfolding close_session
close_session-step s r = elim (Bool-cases (is_current s (lookup s.key r.sessions))) [
  | inl b ↦ inr (rw (close_session, b) refl)
  | inr b ↦ inl (rw (close_session, b) refl)
]

pub close_session-IsWellFormed :
    (l : Limits) (s : Session) (r : Relay) → IsWellFormed l r → IsWellFormed l (close_session s r)
close_session-IsWellFormed l s r w = elim (close_session-step s r) [
  | inl e ↦ subst (IsWellFormed l) (sym e) w
  | inr e ↦ subst (IsWellFormed l) (sym e) record {
    fits = omega (arith, w.fits, length-erase s.key r.sessions);
    own_keys = All-erase (λ (x : Bytes × Session). x.0 ≡ x.1.key) s.key r.sessions w.own_keys;
    unique = erase-Unique s.key r.sessions w.unique;
  }
]

Step-IsWellFormed : {l : Limits} {r t : Relay} → Step l r t → IsWellFormed l r → IsWellFormed l t
unfolding close
Step-IsWellFormed {l} (publishes r s) w = publish_session-IsWellFormed l s r w
Step-IsWellFormed {l} (touches r now s) w = touch-IsWellFormed l now s r w
Step-IsWellFormed {l} (closes_session r s) w = close_session-IsWellFormed l s r w
Step-IsWellFormed {l} (dials r) w = record {
  fits = w.fits;
  own_keys = w.own_keys;
  unique = w.unique;
}
Step-IsWellFormed {l} (shuts_down r) w = record { fits = omega arith; own_keys = tt; unique = tt }

Reach-IsWellFormed_from :
    {l : Limits} {r t : Relay} → IsWellFormed l r → Reach l r t → IsWellFormed l t
Reach-IsWellFormed_from w here = w
Reach-IsWellFormed_from w (next h s) = Step-IsWellFormed s (Reach-IsWellFormed_from w h)

-- Whatever order the readers, the clean-up and the shutdown take the mutex in, the table of sessions
-- stays within the limit, and has each session once and under the address of its own client.
pub Reach-IsWellFormed : (l : Limits) (t : Relay) → Reach l started t → IsWellFormed l t
Reach-IsWellFormed l t h =
    Reach-IsWellFormed_from (record { fits = omega arith; own_keys = tt; unique = tt }) h
