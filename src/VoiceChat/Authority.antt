-- ===== src/VoiceChat/Authority.antt =====
-- Which requests of the registration API in runtime.go may change a registration.
use mc_router.Prelude.{
  ℕ, ◌+◌, ◌%◌, ◌^◌, ◌≡◌, ◌≢◌, ◌⊎◌, inl, inr, refl, arith, true, false, not, Option, none, some, [],
  ◌∷◌, Bytes, All, lookup, select, Option-cases, Bool-cases, lookup-insert_same, ◌==◌, bytes_Eq,
  bytes_eq_iff,
}
use mc_router.VoiceChat.State.{
  Config, Registration, Session, Sessions, Runtime, refresh_registration, delete_registration,
  close_sessions_for_uuid, holds, put_registration, store, new_registration,
}
use mc_router.VoiceChat.Handlers.{
  Request, handle_refresh, handle_delete, handle_put, after_put, required,
}

-- The request names the backend, the owner and the lease of the player's registration.
pub record HoldsLease (q : Request) (backend uuid : Bytes) (r : Runtime) : Type 0 where
  pub registration : Registration
  pub found : lookup uuid r.registrations ≡ some registration
  pub same_backend : registration.backend_id ≡ backend
  pub same_owner : q.owner ≡ some registration.owner_id
  pub same_lease : q.lease ≡ some registration.lease_id

required-some : (o : Option Bytes) (v : Bytes) → required o ≡ some v → o ≡ some v
unfolding required
required-some none v h = cc
required-some (some w) v h = ground (arith, h)

refresh_registration-holds :
    (c : Config) (now : ℕ) (backend uuid owner lease : Bytes) (r : Runtime)
    → ((refresh_registration c now backend uuid owner lease r).1 ≡ r)
      ⊎ ((reg : Registration) × (lookup uuid r.registrations ≡ some reg)
          × (holds backend owner lease reg ≡ true))
unfolding refresh_registration
refresh_registration-holds c now backend uuid owner lease r =
    elim (Option-cases (lookup uuid r.registrations)) [
      | inl l ↦ inl (rw (refresh_registration, l) refl)
      | inr (reg, l) ↦ elim (Bool-cases (holds backend owner lease reg)) [
        | inl e ↦ inr (reg, l, e)
        | inr e ↦ inl (rw (refresh_registration, l) (rw (e) refl))
      ]
    ]

delete_registration-holds :
    (backend uuid owner lease : Bytes) (r : Runtime)
    → (delete_registration backend uuid owner lease r ≡ (false, r))
      ⊎ ((reg : Registration) × (lookup uuid r.registrations ≡ some reg)
          × (holds backend owner lease reg ≡ true))
unfolding delete_registration
delete_registration-holds backend uuid owner lease r =
    elim (Option-cases (lookup uuid r.registrations)) [
      | inl l ↦ inl (rw (delete_registration, l) refl)
      | inr (reg, l) ↦ elim (Bool-cases (holds backend owner lease reg)) [
        | inl e ↦ inr (reg, l, e)
        | inr e ↦ inl (rw (delete_registration, l) (rw (e) refl))
      ]
    ]

holds-HoldsLease :
    (q : Request) (backend uuid owner lease : Bytes) (r : Runtime) (reg : Registration)
    → lookup uuid r.registrations ≡ some reg
    → required q.owner ≡ some owner
    → required q.lease ≡ some lease
    → holds backend owner lease reg ≡ true
    → HoldsLease q backend uuid r
holds-HoldsLease q backend uuid owner lease r reg found o l h =
    let owner_given = required-some q.owner owner o in
    let lease_given = required-some q.lease lease l in
    let b = bytes_eq_iff reg.backend_id backend in
    let w = bytes_eq_iff reg.owner_id owner in
    let e = bytes_eq_iff reg.lease_id lease in
    record {
      registration = reg;
      found = found;
      same_backend = ground (arith, b, h);
      same_owner = ground (arith, w, h, owner_given);
      same_lease = ground (arith, e, h, lease_given);
    }

-- A refresh changes nothing, unless the request holds the player's lease.
pub handle_refresh-HoldsLease :
    (c : Config) (now : ℕ) (q : Request) (backend uuid : Bytes) (r : Runtime)
    → ((handle_refresh c now q backend uuid r).1 ≡ r) ⊎ HoldsLease q backend uuid r
unfolding handle_refresh
handle_refresh-HoldsLease c now q backend uuid r = elim (Option-cases (required q.owner)) [
  | inl e ↦ inl (rw (handle_refresh, e) refl)
  | inr (owner, e) ↦ elim (Option-cases (required q.lease)) [
    | inl l ↦ inl (rw (handle_refresh, e) (rw (l) refl))
    | inr (lease, l) ↦ elim (refresh_registration-holds c now backend uuid owner lease r) [
      | inl same ↦ inl (rw (handle_refresh, e) (rw (l) same))
      | inr (reg, found, h) ↦ inr (holds-HoldsLease q backend uuid owner lease r reg found e l h)
    ]
  ]
]

-- A deletion changes nothing, unless the request holds the player's lease.
pub handle_delete-HoldsLease :
    (q : Request) (backend uuid : Bytes) (r : Runtime)
    → ((handle_delete q backend uuid r).1 ≡ r) ⊎ HoldsLease q backend uuid r
unfolding handle_delete
handle_delete-HoldsLease q backend uuid r = elim (Option-cases (required q.owner)) [
  | inl e ↦ inl (rw (handle_delete, e) refl)
  | inr (owner, e) ↦ elim (Option-cases (required q.lease)) [
    | inl l ↦ inl (rw (handle_delete, e) (rw (l) refl))
    | inr (lease, l) ↦ elim (delete_registration-holds backend uuid owner lease r) [
      | inl same ↦ inl (rw (handle_delete, e) (rw (l) (rw (same) refl)))
      | inr (reg, found, h) ↦ inr (holds-HoldsLease q backend uuid owner lease r reg found e l h)
    ]
  ]
]

-- No session of the player is left.
abbrev pub NoSession : Bytes → Runtime → Type 0
NoSession uuid r = All (λ (x : Bytes × Session). x.1.player_uuid ≢ uuid) r.sessions

select-NoSession :
    (uuid : Bytes) (sessions : Sessions)
    → All
        (λ (x : Bytes × Session). x.1.player_uuid ≢ uuid)
        (select (λ (x : Bytes × Session). not (x.1.player_uuid == uuid)) sessions)
select-NoSession uuid [] = tt
select-NoSession uuid ((key, s) ∷ rest) =
    ground (arith, select-NoSession uuid rest, bytes_eq_iff s.player_uuid uuid)

pub close_sessions_for_uuid-NoSession :
    (uuid : Bytes) (r : Runtime) → NoSession uuid (close_sessions_for_uuid uuid r)
unfolding close_sessions_for_uuid
close_sessions_for_uuid-NoSession uuid r = select-NoSession uuid r.sessions

put_registration-replaces :
    (c : Config) (now : ℕ) (lease backend uuid owner : Bytes) (r : Runtime) (old : Registration)
    → r.closed ≡ false
    → lookup uuid r.registrations ≡ some old
    → put_registration c now lease backend uuid owner r
      ≡ store uuid
          (new_registration c now lease backend owner ((old.generation + 1) % 2 ^ 64))
          (some old)
          r
unfolding put_registration
put_registration-replaces c now lease backend uuid owner r old up l = ground (arith, up, l)

-- A new registration of a player that has one takes it over, whichever backend that was for: it is
-- stored with the new owner, lease and backend, with the next generation in 64 bits and a whole
-- lifetime from now, and no session of the player is left.
pub handle_put-takes_over :
    (c : Config) (now : ℕ) (lease owner : Bytes) (q : Request) (backend uuid : Bytes) (r : Runtime)
    (old : Registration)
    → r.closed ≡ false
    → lookup uuid r.registrations ≡ some old
    → required q.owner ≡ some owner
    → NoSession uuid (handle_put c now (some lease) q backend uuid r).1
      × (lookup uuid (handle_put c now (some lease) q backend uuid r).1.registrations
          ≡ some (record {
            backend_id = backend;
            owner_id = owner;
            lease_id = lease;
            generation = (old.generation + 1) % 2 ^ 64;
            expires_at = now + c.registration_ttl;
          }))
unfolding handle_put after_put store close_sessions_for_uuid
handle_put-takes_over c now lease owner q backend uuid r old up l o =
    let reg = new_registration c now lease backend owner ((old.generation + 1) % 2 ^ 64) in
    let step = put_registration-replaces c now lease backend uuid owner r old up l in
    (
      rw (handle_put, o) (rw (step) (select-NoSession uuid r.sessions)),
      rw (handle_put, o) (rw (step) (lookup-insert_same uuid reg r.registrations)),
    )
