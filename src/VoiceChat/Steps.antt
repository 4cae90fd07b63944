-- ===== src/VoiceChat/Steps.antt =====
-- The sections under the lock of runtime.go as the steps of a relation, and the limits of the tables.
use mc_router.Prelude.{
  ℕ, ◌+◌, ◌%◌, ◌^◌, ◌≤◌, inl, inr, arith, false, not, List, [], ◌∷◌, ◌++◌, Bytes, length,
  length-insert, length-insert_known, length-erase, length-select-le, lookup, erase, Option-cases,
  ◌==◌, bytes_Eq,
}
use mc_router.VoiceChat.State.{
  Config, Registration, Session, Runtime, Registrations, put_registration, store, new_registration,
  refresh_registration, delete_registration, lookup_registration, expire_loop,
  close_sessions_for_uuid, close_session, reuse_session, publish_session, touch, close,
}

pub record IsBounded (c : Config) (r : Runtime) : Type 0 where
  pub registrations_fit : length r.registrations ≤ c.max_registrations
  pub sessions_fit : length r.sessions ≤ c.max_sessions

-- One section, with whatever arguments the goroutine brings.
pub data Step (c : Config) : Runtime → Runtime → Type 0 where
  puts :
      (r : Runtime) (now : ℕ) (lease backend uuid owner : Bytes)
      → Step c r (put_registration c now lease backend uuid owner r).1
  refreshes :
      (r : Runtime) (now : ℕ) (backend uuid owner lease : Bytes)
      → Step c r (refresh_registration c now backend uuid owner lease r).1
  deletes :
      (r : Runtime) (backend uuid owner lease : Bytes)
      → Step c r (delete_registration backend uuid owner lease r).1
  looks_up : (r : Runtime) (now : ℕ) (uuid : Bytes) → Step c r (lookup_registration now uuid r).1
  expires :
      (r : Runtime) (now : ℕ)
      → Step c r
          (record r { registrations = (expire_loop now r.registrations (r.registrations, [])).0 })
  closes_player : (r : Runtime) (uuid : Bytes) → Step c r (close_sessions_for_uuid uuid r)
  closes_session : (r : Runtime) (key : Bytes) (s : Session) → Step c r (close_session key s r)
  reuses : (r : Runtime) (key : Bytes) (reg : Registration) → Step c r (reuse_session key reg r).1
  publishes : (r : Runtime) (key : Bytes) (s : Session) → Step c r (publish_session c key s r).1
  touches : (r : Runtime) (now : ℕ) (key : Bytes) (s : Session) → Step c r (touch now key s r)
  dials : (r : Runtime) → Step c r (record r { next_id = r.next_id + 1 })
  shuts_down : (r : Runtime) → Step c r (close r)

pub data Reach (c : Config) (s : Runtime) : Runtime → Type 0 where
  here : Reach c s s
  next : {t u : Runtime} → Reach c s t → Step c t u → Reach c s u

put_registration-IsBounded :
    (c : Config) (r : Runtime) (now : ℕ) (lease backend uuid owner : Bytes)
    → IsBounded c r
    → IsBounded c (put_registration c now lease backend uuid owner r).1
unfolding put_registration store
put_registration-IsBounded c r now lease backend uuid owner h =
    elim (Option-cases (lookup uuid r.registrations)) [
      | inl l ↦ ground (
        arith,
        l,
        length-insert uuid (new_registration c now lease backend owner 1) r.registrations,
      )
      | inr (e, l) ↦ ground (
        arith,
        l,
        length-insert_known uuid
            (new_registration c now lease backend owner ((e.generation + 1) % 2 ^ 64))
            r.registrations,
      )
    ]

refresh_registration-IsBounded :
    (c : Config) (r : Runtime) (now : ℕ) (backend uuid owner lease : Bytes)
    → IsBounded c r
    → IsBounded c (refresh_registration c now backend uuid owner lease r).1
unfolding refresh_registration
refresh_registration-IsBounded c r now backend uuid owner lease h =
    elim (Option-cases (lookup uuid r.registrations)) [
      | inl l ↦ ground (arith, l)
      | inr (reg, l) ↦ ground (
        arith,
        l,
        length-insert_known uuid (record reg { expires_at = now + c.registration_ttl })
            r.registrations,
      )
    ]

length-expire_loop :
    (now : ℕ) (rest table : Registrations) (expired : List Bytes)
    → length (expire_loop now rest (table, expired)).0 ≤ length table
unfolding expire_loop
length-expire_loop now [] table expired = omega arith
length-expire_loop now ((uuid, reg) ∷ rest) table expired = ground (
  arith,
  length-expire_loop now rest table expired,
  length-erase uuid table,
  length-expire_loop now rest (erase uuid table) (expired ++ (uuid ∷ [])),
)

touch-IsBounded :
    (c : Config) (r : Runtime) (now : ℕ) (key : Bytes) (s : Session)
    → IsBounded c r
    → IsBounded c (touch now key s r)
unfolding touch
touch-IsBounded c r now key s h = elim (Option-cases (lookup key r.sessions)) [
  | inl l ↦ ground (arith, l)
  | inr (t, l) ↦
      ground (arith, l, length-insert_known key (record s { last_activity = now }) r.sessions)
]

-- Each section keeps both tables within their limits.
Step-IsBounded : {c : Config} {r t : Runtime} → Step c r t → IsBounded c r → IsBounded c t
unfolding delete_registration lookup_registration close_sessions_for_uuid close_session
    reuse_session publish_session close
Step-IsBounded {c} (puts r now lease backend uuid owner) h =
    put_registration-IsBounded c r now lease backend uuid owner h
Step-IsBounded {c} (refreshes r now backend uuid owner lease) h =
    refresh_registration-IsBounded c r now backend uuid owner lease h
Step-IsBounded (deletes r backend uuid owner lease) h =
    ground (arith, length-erase uuid r.registrations)
Step-IsBounded (looks_up r now uuid) h = ground (arith, length-erase uuid r.registrations)
Step-IsBounded (expires r now) h =
    ground (arith, length-expire_loop now r.registrations r.registrations [])
Step-IsBounded (closes_player r uuid) h =
    ground
      (arith, length-select-le (λ (x : Bytes × Session). not (x.1.player_uuid == uuid)) r.sessions)
Step-IsBounded (closes_session r key s) h = ground (arith, length-erase key r.sessions)
Step-IsBounded (reuses r key reg) h = ground (arith, length-erase key r.sessions)
Step-IsBounded (publishes r key s) h = ground (arith, length-insert key s r.sessions)
Step-IsBounded {c} (touches r now key s) h = touch-IsBounded c r now key s h
Step-IsBounded (dials r) h = ground arith
Step-IsBounded (shuts_down r) h = ground arith

Reach-IsBounded_from : {c : Config} {s t : Runtime} → IsBounded c s → Reach c s t → IsBounded c t
Reach-IsBounded_from h here = h
Reach-IsBounded_from h (next r st) = Step-IsBounded st (Reach-IsBounded_from h r)

-- The runtime as NewRuntime makes it.
abbrev pub started : Runtime
started = record { closed = false; registrations = []; sessions = []; next_id = 0 }

-- Whatever order the handlers, the datagrams and the clean-up take the lock in, the tables never hold
-- more registrations and sessions than the configuration allows.
pub Reach-IsBounded : (c : Config) (t : Runtime) → Reach c started t → IsBounded c t
Reach-IsBounded c t r =
    Reach-IsBounded_from (record { registrations_fit = omega arith; sessions_fit = omega arith }) r
