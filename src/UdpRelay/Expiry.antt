-- ===== src/UdpRelay/Expiry.antt =====
-- What a tick of expireSessions in relay.go leaves.
use mc_router.Prelude.{
  ℕ, ◌+◌, ◌≡◌, ◌≢◌, inl, inr, subst, sym, ap, ◌∙◌, refl, arith, Bool, true, false, not, some, [],
  ◌∷◌, ◌++◌, Bytes, All, lookup, erase, bytes_Eq, select, Bool-cases, leb,
}
use mathlib.Core.List.{append_assoc}
use mc_router.Prelude.Keys.{Fresh, Unique, lookup-append_Fresh, erase-append_Fresh}
use mc_router.UdpRelay.Resolver.{Limits}
use mc_router.UdpRelay.Sessions.{Session, Table, Relay, close_session}
use mc_router.UdpRelay.Relay.{expire_loop, expire_sessions}
use mc_router.UdpRelay.Steps.{IsWellFormed}

-- The sessions that have not been idle for the timeout.
abbrev pub is_active : Limits → ℕ → Bytes × Session → Bool
is_active l now x = not (leb (x.1.last_activity + l.idle_timeout) now)

abbrev OwnKeys : Table → Type 0
OwnKeys t = All (λ (x : Bytes × Session). x.0 ≡ x.1.key) t

abbrev with_sessions : Relay → Table → Relay
with_sessions r t = record r { sessions = t }

-- A session that stands once in the table is taken out of it.
close_session-out :
    (s : Session) (a b : Table) (r : Relay)
    → r.sessions ≡ a ++ ((s.key, s) ∷ b)
    → Fresh s.key a
    → Fresh s.key b
    → close_session s r ≡ record r { sessions = a ++ b }
unfolding close_session
close_session-out s a b r e f g =
    let found : lookup s.key r.sessions ≡ some s =
      ap (lookup s.key) e ∙ lookup-append_Fresh s.key s a b f in
    let gone : erase s.key r.sessions ≡ a ++ b =
      ap (erase s.key) e ∙ erase-append_Fresh s.key s a b f g in
    let step : close_session s r ≡ record r { sessions = erase s.key r.sessions } =
      ground (arith, found) in
    step ∙ ap (λ t. with_sessions r t) gone

-- No key of the one list is a key of the other.
abbrev Apart : Table → Table → Type 0
Apart a b = All (λ (x : Bytes × Session). Fresh x.0 a) b

Fresh-last :
    (k j : Bytes) (s : Session) (a : Table) → Fresh j a → k ≢ j → Fresh j (a ++ ((k, s) ∷ []))
Fresh-last k j s [] h d = (d, tt)
Fresh-last k j s ((i, t) ∷ a) (c, h) d = (c, Fresh-last k j s a h d)

Apart-last :
    (k : Bytes) (s : Session) (a b : Table) → Apart a b → Fresh k b → Apart (a ++ ((k, s) ∷ [])) b
Apart-last k s a [] h f = tt
Apart-last k s a ((j, t) ∷ b) (g, h) (d, f) =
    (Fresh-last k j s a g (λ q. d (sym q)), Apart-last k s a b h f)

expire_loop-idle :
    (l : Limits) (now : ℕ) (key : Bytes) (s : Session) (rest : Table) (r : Relay)
    → leb (s.last_activity + l.idle_timeout) now ≡ true
    → (expire_loop l now ((key, s) ∷ rest) r ≡ expire_loop l now rest (close_session s r))
      × (select (is_active l now) ((key, s) ∷ rest) ≡ select (is_active l now) rest)
unfolding expire_loop
expire_loop-idle l now key s rest r b = (ground (arith, b), ground (arith, b))

expire_loop-active :
    (l : Limits) (now : ℕ) (key : Bytes) (s : Session) (rest : Table) (r : Relay)
    → leb (s.last_activity + l.idle_timeout) now ≡ false
    → (expire_loop l now ((key, s) ∷ rest) r ≡ expire_loop l now rest r)
      × (select (is_active l now) ((key, s) ∷ rest) ≡ (key, s) ∷ select (is_active l now) rest)
unfolding expire_loop
expire_loop-active l now key s rest r b = (ground (arith, b), ground (arith, b))

expire_loop-select :
    (l : Limits) (now : ℕ) (kept rest : Table) (r : Relay)
    → r.sessions ≡ kept ++ rest
    → Apart kept rest
    → OwnKeys rest
    → Unique rest
    → expire_loop l now rest r ≡ with_sessions r (kept ++ select (is_active l now) rest)
unfolding expire_loop
expire_loop-select l now kept [] r e f o u = ap (λ t. with_sessions r t) e
expire_loop-select l now kept ((key, s) ∷ rest) r e (f, fs) (o, os) (u, us) =
    elim (Bool-cases (leb (s.last_activity + l.idle_timeout) now)) [
      | inl idle ↦
          let (step, less) = expire_loop-idle l now key s rest r idle in
          let out : close_session s r ≡ with_sessions r (kept ++ rest) =
            close_session-out s kept rest r (e ∙ ap (λ k. kept ++ ((k, s) ∷ rest)) o)
              (subst (λ k. Fresh k kept) o f) (subst (λ k. Fresh k rest) o u) in
          step
          ∙ ap (expire_loop l now rest) out
          ∙ expire_loop-select l now kept rest (with_sessions r (kept ++ rest)) refl fs os us
          ∙ ap (λ t. with_sessions r (kept ++ t)) (sym less)
      | inr active ↦
          let (step, more) = expire_loop-active l now key s rest r active in
          step
          ∙ expire_loop-select l now (kept ++ ((key, s) ∷ [])) rest r
              (e ∙ sym (append_assoc kept ((key, s) ∷ []) rest)) (Apart-last key s kept rest fs u)
              os us
          ∙ ap (λ t. with_sessions r t)
              (append_assoc kept ((key, s) ∷ []) (select (is_active l now) rest))
          ∙ ap (λ t. with_sessions r (kept ++ t)) (sym more)
    ]

Apart-nil : (t : Table) → Apart [] t
Apart-nil [] = tt
Apart-nil (x ∷ t) = (tt, Apart-nil t)

-- In a well-formed table, a tick of the clean-up takes out exactly the sessions that have been idle for
-- the timeout, and leaves the others as they are and in their order.
pub expire_sessions-select :
    (l : Limits) (now : ℕ) (r : Relay)
    → IsWellFormed l r
    → expire_sessions l now r ≡ record r {
      sessions = select (λ x. not (leb (x.1.last_activity + l.idle_timeout) now)) r.sessions;
    }
unfolding expire_sessions
expire_sessions-select l now r w =
    expire_loop-select l now [] r.sessions r refl (Apart-nil r.sessions) w.own_keys w.unique
