-- ===== src/VoiceChat/Expiry.antt =====
-- What the clean-up of runtime.go takes away, and what it does not see.
use mc_router.Prelude.{
  ℕ, ◌<◌, ◌≡◌, ◌≢◌, ◌⊎◌, inl, inr, refl, ap, subst, ◌∙◌, arith, true, false, not, none, some, List,
  [], ◌∷◌, ◌++◌, Bytes, All-select, lookup, erase, Bool-cases, lookup-erase, lookup-erase_same, ltb,
  ◌==◌, bytes_Eq, bytes_eq_iff,
}
use mathlib.Core.List.{Memᴰ}
use mathlib.Core.List.Memᴰ.{head, tail}
use mc_router.Prelude.Members.{Memᴰ-append, Memᴰ-append_left, Memᴰ-append_last, Memᴰ-select}
use mc_router.VoiceChat.State.{
  Registration, Session, Registrations, Runtime, lookup_registration, expire_loop,
  close_sessions_for_uuid,
}
use mc_router.VoiceChat.Handlers.{close_sessions_for_all, expire_registrations}
use mc_router.VoiceChat.Authority.{NoSession, close_sessions_for_uuid-NoSession}

expire_loop-cons :
    (now : ℕ) (uuid : Bytes) (reg : Registration) (rest table : Registrations)
    (expired : List Bytes)
    → ((reg.expires_at < now)
        × (expire_loop now ((uuid, reg) ∷ rest) (table, expired)
            ≡ expire_loop now rest (erase uuid table, expired ++ (uuid ∷ []))))
      ⊎ ((ltb reg.expires_at now ≡ false)
          × (expire_loop now ((uuid, reg) ∷ rest) (table, expired)
              ≡ expire_loop now rest (table, expired)))
unfolding expire_loop
expire_loop-cons now uuid reg rest table expired = elim (Bool-cases (ltb reg.expires_at now)) [
  | inl e ↦ inl (ground (arith, e), rw (expire_loop, e) refl)
  | inr e ↦ inr (e, rw (expire_loop, e) refl)
]

-- A key that is gone stays gone.
expire_loop-absent :
    (now : ℕ) (rest table : Registrations) (expired : List Bytes) (k : Bytes)
    → lookup k table ≡ none
    → lookup k (expire_loop now rest (table, expired)).0 ≡ none
unfolding expire_loop
expire_loop-absent now [] table expired k h = h
expire_loop-absent now ((uuid, reg) ∷ rest) table expired k h =
    elim (expire_loop-cons now uuid reg rest table expired) [
      | inl (e, step) ↦ rw (step) (
          expire_loop-absent now rest (erase uuid table) (expired ++ (uuid ∷ [])) k ground
            (arith, lookup-erase uuid k table, h))
      | inr (e, step) ↦ rw (step) (expire_loop-absent now rest table expired k h)
    ]

-- A player once found expired stays in the list.
expire_loop-kept :
    (now : ℕ) (rest table : Registrations) (expired : List Bytes) (k : Bytes)
    → Memᴰ k expired
    → Memᴰ k (expire_loop now rest (table, expired)).1
unfolding expire_loop
expire_loop-kept now [] table expired k m = m
expire_loop-kept now ((uuid, reg) ∷ rest) table expired k m =
    elim (expire_loop-cons now uuid reg rest table expired) [
      | inl (e, step) ↦ rw (step) (
          expire_loop-kept now rest (erase uuid table) (expired ++ (uuid ∷ [])) k
            (Memᴰ-append_left k expired (uuid ∷ []) m))
      | inr (e, step) ↦ rw (step) (expire_loop-kept now rest table expired k m)
    ]

-- An expired registration that the loop meets is deleted, and its player is listed.
expire_loop-expired :
    (now : ℕ) (rest table : Registrations) (expired : List Bytes) (k : Bytes) (reg : Registration)
    → lookup k rest ≡ some reg
    → reg.expires_at < now
    → (lookup k (expire_loop now rest (table, expired)).0 ≡ none)
      × Memᴰ k (expire_loop now rest (table, expired)).1
unfolding lookup
expire_loop-expired now [] table expired k reg l late = cc
expire_loop-expired now ((uuid, first) ∷ rest) table expired k reg l late =
    elim (Bool-cases (uuid == k)) [
      | inl here ↦
          let key : uuid ≡ k = (bytes_eq_iff uuid k).0 here in
          let same : first ≡ reg = ground (arith, here, l) in
          let due : first.expires_at < now = rw same late in
          elim (expire_loop-cons now uuid first rest table expired) [
            | inl (e, step) ↦ rw (step) (
              expire_loop-absent now rest (erase uuid table) (expired ++ (uuid ∷ [])) k ground
                  (arith, lookup-erase uuid k table, here),
              expire_loop-kept now rest (erase uuid table) (expired ++ (uuid ∷ [])) k (
                  subst (λ x. Memᴰ x (expired ++ (uuid ∷ []))) key (Memᴰ-append_last uuid expired)),
            )
            | inr (e, step) ↦ ground (arith, e, due)
          ]
      | inr there ↦
          let later : lookup k rest ≡ some reg = ground (arith, there, l) in
          elim (expire_loop-cons now uuid first rest table expired) [
            | inl (e, step) ↦ rw (step) (
                expire_loop-expired now rest (erase uuid table) (expired ++ (uuid ∷ [])) k reg later
                  late)
            | inr (e, step) ↦
                rw (step) (expire_loop-expired now rest table expired k reg later late)
          ]
    ]

close_sessions_for_all-NoSession :
    (uuids : List Bytes) (k : Bytes) (r : Runtime)
    → Memᴰ k uuids ⊎ NoSession k r
    → NoSession k (close_sessions_for_all uuids r)
unfolding close_sessions_for_all close_sessions_for_uuid
close_sessions_for_all-NoSession [] k r (inl m) = elim m [ ]
close_sessions_for_all-NoSession [] k r (inr h) = h
close_sessions_for_all-NoSession (uuid ∷ uuids) k r (inl (head same)) =
    close_sessions_for_all-NoSession uuids k (close_sessions_for_uuid uuid r)
      (inr (rw same (close_sessions_for_uuid-NoSession uuid r)))
close_sessions_for_all-NoSession (uuid ∷ uuids) k r (inl (tail m)) =
    close_sessions_for_all-NoSession uuids k (close_sessions_for_uuid uuid r) (inl m)
close_sessions_for_all-NoSession (uuid ∷ uuids) k r (inr h) =
    close_sessions_for_all-NoSession uuids k (close_sessions_for_uuid uuid r) (
      inr (All-select (λ x. x.1.player_uuid ≢ k) (λ x. not (x.1.player_uuid == uuid)) r.sessions h))

close_sessions_for_all-registrations :
    (uuids : List Bytes) (r : Runtime)
    → (close_sessions_for_all uuids r).registrations ≡ r.registrations
unfolding close_sessions_for_all close_sessions_for_uuid
close_sessions_for_all-registrations [] r = refl
close_sessions_for_all-registrations (uuid ∷ uuids) r =
    close_sessions_for_all-registrations uuids (close_sessions_for_uuid uuid r)

-- The clean-up deletes every registration that has expired, and closes all sessions of its player.
pub expire_registrations-NoSession :
    (now : ℕ) (k : Bytes) (r : Runtime) (reg : Registration)
    → lookup k r.registrations ≡ some reg
    → reg.expires_at < now
    → (lookup k (expire_registrations now r).registrations ≡ none)
      × NoSession k (expire_registrations now r)
unfolding expire_registrations
expire_registrations-NoSession now k r reg l late =
    let (kept, expired) = expire_loop now r.registrations (r.registrations, []) in
    let (gone, listed) = expire_loop-expired now r.registrations r.registrations [] k reg l late in
    let swept : Runtime = record r { registrations = kept } in
    (
      ap (lookup k) (close_sessions_for_all-registrations expired swept) ∙ gone,
      close_sessions_for_all-NoSession expired k swept (inl listed),
    )

-- A player who is not in the table is not found expired.
expire_loop-only :
    (now : ℕ) (rest table : Registrations) (expired : List Bytes) (k : Bytes)
    → lookup k rest ≡ none
    → Memᴰ k (expire_loop now rest (table, expired)).1
    → Memᴰ k expired
unfolding expire_loop lookup
expire_loop-only now [] table expired k l m = m
expire_loop-only now ((uuid, reg) ∷ rest) table expired k l m =
    let later : lookup k rest ≡ none = ground (arith, l) in
    elim (expire_loop-cons now uuid reg rest table expired) [
      | inl (e, step) ↦
          elim (Memᴰ-append expired (uuid ∷ []) k (
            expire_loop-only now rest (erase uuid table) (expired ++ (uuid ∷ [])) k later
              (subst (λ x. Memᴰ k x.1) step m))) [
                | inl old ↦ old
                | inr (head same) ↦ ground (arith, l, bytes_eq_iff uuid k, same)
                | inr (tail nothing) ↦ elim nothing [ ]
              ]
      | inr (e, step) ↦
          expire_loop-only now rest table expired k later (subst (λ x. Memᴰ k x.1) step m)
    ]

other_player : (a b : Bytes) → ¬ (a ≡ b) → not (a == b) ≡ true
other_player a b h = ground (arith, bytes_eq_iff a b)

close_sessions_for_all-kept :
    (uuids : List Bytes) (r : Runtime) (x : Bytes × Session)
    → ¬ Memᴰ x.1.player_uuid uuids
    → Memᴰ x r.sessions
    → Memᴰ x (close_sessions_for_all uuids r).sessions
unfolding close_sessions_for_all close_sessions_for_uuid
close_sessions_for_all-kept [] r x n m = m
close_sessions_for_all-kept (uuid ∷ uuids) r x n m =
    close_sessions_for_all-kept uuids (close_sessions_for_uuid uuid r) x (λ k. n (tail k))
      (Memᴰ-select (λ y. not (y.1.player_uuid == uuid)) x r.sessions
        (other_player x.1.player_uuid uuid (λ e. n (head e))) m)

lookup_registration-expired :
    (now : ℕ) (k : Bytes) (r : Runtime) (reg : Registration)
    → lookup k r.registrations ≡ some reg
    → reg.expires_at < now
    → (lookup_registration now k r).1 ≡ record r { registrations = erase k r.registrations }
unfolding lookup_registration
lookup_registration-expired now k r reg l late = ground (arith, l, late)

-- The lookup for a datagram that arrives after the player's registration has expired deletes the
-- registration, but leaves each of the player's sessions: the clean-up of the registrations that
-- follows on that state, at whatever time, does not close it either.
pub lookup_registration-leaves_sessions :
    (now later : ℕ) (r : Runtime) (reg : Registration) (x : Bytes × Session)
    → lookup x.1.player_uuid r.registrations ≡ some reg
    → reg.expires_at < now
    → Memᴰ x r.sessions
    → (lookup x.1.player_uuid (lookup_registration now x.1.player_uuid r).1.registrations ≡ none)
      × Memᴰ x (expire_registrations later (lookup_registration now x.1.player_uuid r).1).sessions
unfolding lookup_registration expire_registrations
lookup_registration-leaves_sessions now later r reg x l late m =
    let k = x.1.player_uuid in
    let left = erase k r.registrations in
    let gone : lookup k left ≡ none = lookup-erase_same k r.registrations in
    let step = lookup_registration-expired now k r reg l late in
    let (kept, expired) = expire_loop later left (left, []) in
    (
      rw (step) gone,
      rw (step) (
          close_sessions_for_all-kept expired (record r { registrations = kept }) x
            (λ listed. elim (expire_loop-only later left left [] k gone listed) [ ]) m),
    )
