-- ===== src/VoiceChat/Leases.antt =====
-- Who may send through the gateway of runtime.go.
use mc_router.Prelude.{
  ℕ, ◌+◌, ◌≤◌, ◌≡◌, ◌⊎◌, inl, inr, refl, sym, ap, ◌∙◌, arith, Bool, true, false, Option, none, some,
  Bytes, lookup, Option-cases, Bool-cases, lookup-erase, bytes_Eq, bytes_eq_iff,
}
use mc_router.VoiceChat.Packet.{ok, ClientPacket, parse_client_packet}
use mc_router.VoiceChat.PacketLaws.{Result-cases}
use mc_router.VoiceChat.State.{
  Config, Registration, Session, Runtime, Lookup, unknown_registration, expired_registration,
  registered, lookup_registration, reuse_session, publish_session, serves, SessionResult,
  session_ok, session_closed, session_limit, backend_missing, dial_failed, new_session,
  dynamic_session_key, room,
}
use mc_router.VoiceChat.Handlers.{
  dialled, after_reuse, session_for, forwarded, deliver, after_lookup, forward_client_packet,
}

reuse_session-serves :
    (key : Bytes) (reg : Registration) (r : Runtime) (s : Session)
    → (reuse_session key reg r).0 ≡ some s
    → serves reg s ≡ true
unfolding reuse_session
reuse_session-serves key reg r s h = elim (Option-cases (lookup key r.sessions)) [
  | inl l ↦ ground (arith, l)
  | inr (t, l) ↦ ground (arith, l, h)
]

-- Where no session is reused, the key is free afterwards.
reuse_session-free :
    (key : Bytes) (reg : Registration) (r : Runtime)
    → (reuse_session key reg r).0 ≡ none
    → lookup key (reuse_session key reg r).1.sessions ≡ none
unfolding reuse_session
reuse_session-free key reg r h = elim (Option-cases (lookup key r.sessions)) [
  | inl l ↦ rw (reuse_session, l) l
  | inr (t, l) ↦ ground (arith, l, lookup-erase key key r.sessions, bytes_eq_iff key key)
]

new_session-serves :
    (now : ℕ) (uuid client : Bytes) (reg : Registration) (id : ℕ)
    → serves reg (new_session now uuid client reg id) ≡ true
new_session-serves now uuid client reg id =
    ground
      (arith, bytes_eq_iff reg.backend_id reg.backend_id, bytes_eq_iff reg.lease_id reg.lease_id)

publish_session-new :
    (c : Config) (key : Bytes) (t s : Session) (r : Runtime) (created : Bool)
    → lookup key r.sessions ≡ none
    → (publish_session c key t r).0 ≡ session_ok s created
    → s ≡ t
unfolding publish_session
publish_session-new c key t s r created free h = ground (arith, free, h)

dialled-serves :
    (c : Config) (now : ℕ) (uuid client : Bytes) (reg : Registration) (dial : Bool) (r : Runtime)
    (s : Session) (created : Bool)
    → lookup (dynamic_session_key uuid client) r.sessions ≡ none
    → (dialled c now uuid client reg dial r).0 ≡ session_ok s created
    → serves reg s ≡ true
dialled-serves c now uuid client reg false r s created free h = cc
dialled-serves c now uuid client reg true r s created free h =
    rw
      (publish_session-new c (dynamic_session_key uuid client)
        (new_session now uuid client reg r.next_id) s (record r { next_id = r.next_id + 1 }) created
        free h)
      (new_session-serves now uuid client reg r.next_id)

room-refusal :
    (c : Config) (reg : Registration) (r : Runtime) (refusal : SessionResult)
    → room c reg r ≡ some refusal
    → (refusal ≡ session_limit) ⊎ (refusal ≡ backend_missing)
unfolding room
room-refusal c reg r refusal h = ground (arith, h)

after_reuse-none :
    (c : Config) (now : ℕ) (uuid client : Bytes) (reg : Registration) (dial : Bool) (r : Runtime)
    → ((room c reg r ≡ none)
        × (after_reuse c now uuid client reg dial (none, r) ≡ dialled c now uuid client reg dial r))
      ⊎ ((after_reuse c now uuid client reg dial (none, r)).0 ≡ session_limit)
      ⊎ ((after_reuse c now uuid client reg dial (none, r)).0 ≡ backend_missing)
unfolding after_reuse
after_reuse-none c now uuid client reg dial r = elim (Option-cases (room c reg r)) [
  | inl e ↦ inl (e, rw (after_reuse, e) refl)
  | inr (refusal, e) ↦ inr (elim (room-refusal c reg r refusal e) [
    | inl l ↦ inl (rw (after_reuse, e) l)
    | inr m ↦ inr (rw (after_reuse, e) m)
  ])
]

after_reuse-serves :
    (c : Config) (now : ℕ) (uuid client : Bytes) (reg : Registration) (dial : Bool)
    (found : Option Session) (r : Runtime) (s : Session) (created : Bool)
    → ((t : Session) → found ≡ some t → serves reg t ≡ true)
    → (found ≡ none → lookup (dynamic_session_key uuid client) r.sessions ≡ none)
    → (after_reuse c now uuid client reg dial (found, r)).0 ≡ session_ok s created
    → serves reg s ≡ true
unfolding after_reuse
after_reuse-serves c now uuid client reg dial (some t) r s created good free h =
    good s ground (arith, h)
after_reuse-serves c now uuid client reg dial none r s created good free h =
    elim (after_reuse-none c now uuid client reg dial r) [
      | inl (e, step) ↦
          dialled-serves c now uuid client reg dial r s created (free refl)
            (ap (λ (x : SessionResult × Runtime). x.0) (sym step) ∙ h)
      | inr (inl l) ↦ cc
      | inr (inr m) ↦ cc
    ]

session_for-serves :
    (c : Config) (now : ℕ) (uuid client : Bytes) (reg : Registration) (dial : Bool) (r : Runtime)
    (s : Session) (created : Bool)
    → (session_for c now uuid client reg dial r).0 ≡ session_ok s created
    → serves reg s ≡ true
unfolding session_for
session_for-serves c now uuid client reg dial r s created h = elim (Bool-cases r.closed) [
  | inl e ↦ ground (arith, e, h)
  | inr e ↦
      let key = dynamic_session_key uuid client in
      let (found, r') = reuse_session key reg r in
      after_reuse-serves c now uuid client reg dial found r' s created
        (λ t. reuse_session-serves key reg r t) (reuse_session-free key reg r) ground (arith, e, h)
]

deliver-forwarded :
    (now : ℕ) (key payload p : Bytes) (written : Bool) (result : SessionResult) (r : Runtime)
    (s : Session)
    → (deliver now key payload written (result, r)).0 ≡ forwarded s p
    → (created : Bool) × (result ≡ session_ok s created) × (p ≡ payload)
unfolding deliver
deliver-forwarded now key payload p written session_closed r s h = cc
deliver-forwarded now key payload p written session_limit r s h = cc
deliver-forwarded now key payload p written backend_missing r s h = cc
deliver-forwarded now key payload p written dial_failed r s h = cc
deliver-forwarded now key payload p true (session_ok t created) r s h =
    (created, ground (arith, h), ground (arith, h))
deliver-forwarded now key payload p false (session_ok t created) r s h = cc

lookup_registration-registered :
    (now : ℕ) (uuid : Bytes) (r : Runtime) (reg : Registration)
    → (lookup_registration now uuid r).0 ≡ registered reg
    → (lookup uuid r.registrations ≡ some reg) × (now ≤ reg.expires_at)
unfolding lookup_registration
lookup_registration-registered now uuid r reg h =
    elim (Option-cases (lookup uuid r.registrations)) [
      | inl l ↦ ground (arith, l, h)
      | inr (t, l) ↦ ground (arith, l, h)
    ]

-- What has to hold for a datagram to reach a backend.
pub record IsAuthorised (now : ℕ) (payload : Bytes) (r : Runtime) (s : Session) : Type 0 where
  pub packet : ClientPacket
  pub parsed : parse_client_packet payload ≡ ok packet
  pub registration : Registration
  pub found : lookup packet.player_uuid r.registrations ≡ some registration
  pub alive : now ≤ registration.expires_at
  pub same_backend : s.backend_id ≡ registration.backend_id
  pub same_lease : s.lease_id ≡ registration.lease_id

serves-same :
    (reg : Registration) (s : Session)
    → serves reg s ≡ true
    → (s.backend_id ≡ reg.backend_id) × (s.lease_id ≡ reg.lease_id)
serves-same reg s h =
    ground
      (arith, bytes_eq_iff s.backend_id reg.backend_id, bytes_eq_iff s.lease_id reg.lease_id, h)

after_lookup-forwarded :
    (c : Config) (now : ℕ) (uuid client payload p : Bytes) (dial written : Bool) (l : Lookup)
    (r : Runtime) (s : Session)
    → (after_lookup c now uuid client payload dial written (l, r)).0 ≡ forwarded s p
    → (reg : Registration) × (l ≡ registered reg) × (serves reg s ≡ true) × (p ≡ payload)
unfolding after_lookup
after_lookup-forwarded c now uuid client payload p dial written unknown_registration r s h = cc
after_lookup-forwarded c now uuid client payload p dial written expired_registration r s h = cc
after_lookup-forwarded c now uuid client payload p dial written (registered reg) r s h =
    let (result, r') = session_for c now uuid client reg dial r in
    let (created, e, same) =
      deliver-forwarded now (dynamic_session_key uuid client) payload p written result r' s h in
    (reg, refl, session_for-serves c now uuid client reg dial r s created e, same)

-- A datagram that is forwarded goes on unchanged, over a session of the backend and of the lease for
-- which the player in its envelope is registered, and the registration has not expired.
pub forward_client_packet-IsAuthorised :
    (c : Config) (now : ℕ) (client payload p : Bytes) (dial written : Bool) (r : Runtime)
    (s : Session)
    → (forward_client_packet c now client payload dial written r).0 ≡ forwarded s p
    → (p ≡ payload) × IsAuthorised now payload r s
unfolding forward_client_packet
forward_client_packet-IsAuthorised c now client payload p dial written r s h =
    elim (Result-cases (parse_client_packet payload)) [
      | inl (e, q) ↦ ground (arith, q, h)
      | inr (packet, q) ↦
          let uuid = packet.player_uuid in
          let (l, r') = lookup_registration now uuid r in
          let (reg, e, good, same) =
            after_lookup-forwarded c now uuid client payload p dial written l r' s ground
              (arith, q, h) in
          let (found, alive) = lookup_registration-registered now uuid r reg e in
          let (backend, lease) = serves-same reg s good in
          (
            same,
            record {
              packet = packet;
              parsed = q;
              registration = reg;
              found = found;
              alive = alive;
              same_backend = backend;
              same_lease = lease;
            },
          )
    ]
