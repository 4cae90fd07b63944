-- ===== src/Mcproto/HandshakeLaws.antt =====
-- What a handshake that is read looks like.
use mc_router.Prelude.{
  ℕ, ◌+◌, ◌^◌, ◌≤◌, ◌<◌, ◌≡◌, ◌≢◌, ◌⊎◌, inl, inr, refl, ap, ◌∙◌, arith, true, false, not, none,
  ◌++◌, Bytes, nat_eq, length, length-append, take-append-drop, length-take,
}
use mathlib.Core.List.{append_assoc}
use mc_router.Prelude.Int.{pos}
use mc_router.Go.Text.{is_blank}
use mc_router.HostAddr.{normalize}
use mc_router.Mcproto.VarInt.{
  Error, malformed_packet_id, malformed_version, malformed_address, empty_address, Read, done,
  failed, read_varint,
}
use mc_router.Mcproto.VarIntLaws.{read_varint_bounds}
use mc_router.Mcproto.Packet.{
  Result, ok, err, ◌>>=◌, guard, wrap, read_int32, read_full, read_string, bad_length,
}
use mc_router.Mcproto.Handshake.{
  Limits, default_limits, Handshake, known_state, check_address, parse_tail,
  parse_handshake_payload, read_payload, read_handshake, handshake_packet_id,
}

bind_ok {ℓ κ} :
    {A : Type ℓ} {B : Type κ} (m : Result A) (f : A → Result B) (b : B)
    → (m >>= f) ≡ ok b
    → (a : A) × (m ≡ ok a) × (f a ≡ ok b)
bind_ok (ok a) f b h = (a, refl, h)
bind_ok (err e) f b h = cc

-- What a handshake that passed the checks satisfies.
pub record IsAccepted (h : Handshake) : Type 0 where
  pub routable : normalize h.server_address ≢ none
  pub state : known_state h.next_state ≡ true

parse_tail-fields :
    (version : ℕ) (address r : Bytes) (h : Handshake)
    → parse_tail version address r ≡ ok h
    → (h.server_address ≡ address) × (known_state h.next_state ≡ true)
unfolding parse_tail
parse_tail-fields version address r h e = ground arith

check_address-ok : (a : Bytes) {u : Unit {0}} → check_address a ≡ ok u → normalize a ≢ none
unfolding check_address
check_address-ok a e n = ground (arith, n)

parse_handshake_payload-IsAccepted :
    (payload : Bytes) (limits : Limits) (h : Handshake)
    → parse_handshake_payload payload limits ≡ ok h
    → IsAccepted h
unfolding parse_handshake_payload
parse_handshake_payload-IsAccepted payload limits h e =
    let ((id, r1), p1, e1) = bind_ok (wrap malformed_packet_id (read_int32 payload)) _ h e in
    let (t1, p2, e2) = bind_ok (guard (nat_eq id handshake_packet_id) malformed_packet_id) _ h e1 in
    let ((version, r2), p3, e3) = bind_ok (wrap malformed_version (read_int32 r1)) _ h e2 in
    let ((address, r3), p4, e4) = bind_ok (wrap malformed_address (read_string _ r2)) _ h e3 in
    let (t2, p5, e5) = bind_ok (guard (not (is_blank address)) empty_address) _ h e4 in
    let (t3, p6, e6) = bind_ok (check_address address) _ h e5 in
    let (same, known) = parse_tail-fields version address r3 h e6 in
    record { routable = rw same (check_address-ok address p6); state = known }

read_full-parts :
    (n : ℕ) (s a b : Bytes) → read_full n s ≡ ok (a, b) → (a ++ b ≡ s) × (length a ≡ n)
unfolding read_full
read_full-parts n s a b e = ground (arith, take-append-drop n s, length-take n s)

bad_length-le :
    (limit n : ℕ)
    → limit < 2 ^ 31
    → n < 2 ^ 32
    → bad_length (pos limit) n ≡ false
    → (0 < n) × (n ≤ limit)
unfolding bad_length
bad_length-le limit n h k e = ground arith

pub Read-cases {ℓ} :
    {A : Type ℓ} (r : Read A)
    → ((e : Error) × (r ≡ failed e))
      ⊎ ((v : A) × (raw : Bytes) × (rest : Bytes) × (r ≡ done v raw rest))
Read-cases (done v raw rest) = inr (v, raw, rest, refl)
Read-cases (failed e) = inl (e, refl)

Result-cases {ℓ} :
    {A : Type ℓ} (r : Result A) → ((e : Error) × (r ≡ err e)) ⊎ ((a : A) × (r ≡ ok a))
Result-cases (ok a) = inr (a, refl)
Result-cases (err e) = inl (e, refl)

read_payload_sound :
    (n : ℕ) (t r : Bytes) (limits : Limits) (h : Handshake) (raw rest : Bytes)
    → read_payload n t r limits ≡ done h raw rest
    → (raw ++ rest ≡ t ++ r) × (length raw ≡ length t + n) × IsAccepted h
unfolding read_payload
read_payload_sound n t r limits h raw rest e = elim (Result-cases (read_full n r)) [
  | inl (x, p) ↦ ground (arith, p)
  | inr ((payload, rest'), p) ↦ elim (Result-cases (parse_handshake_payload payload limits)) [
    | inl (x, q) ↦ ground (arith, p, q)
    | inr (h', q) ↦
        let (parts, long) = read_full-parts n r payload rest' p in
        let ok' = parse_handshake_payload-IsAccepted payload limits h' q in
        let fields : (h' ≡ h) × (t ++ payload ≡ raw) × (rest' ≡ rest) = ground (arith, p, q) in
        (
          rw (← fields.1, ← fields.2) (append_assoc t payload rest' ∙ ap (λ x. t ++ x) parts),
          rw (← fields.1) (omega (arith, length-append t payload)),
          rw (fields.0) at ok',
        )
  ]
]

read_handshake-failed :
    (s : Bytes) (x : Error)
    → read_varint s ≡ failed x
    → (h : Handshake) (raw rest : Bytes) → read_handshake s default_limits ≢ done h raw rest
unfolding read_handshake
read_handshake-failed s x p h raw rest e = ground (arith, p)

read_handshake-body :
    (s : Bytes) (h : Handshake) (raw rest : Bytes) (n : ℕ) (t r : Bytes)
    → read_varint s ≡ done n t r
    → read_handshake s default_limits ≡ done h raw rest
    → (bad_length (pos 2048) n ≡ false) × (read_payload n t r default_limits ≡ done h raw rest)
unfolding read_handshake
read_handshake-body s h raw rest n t r p e = ground (arith, p)

-- A handshake that is read: the bytes kept for the backend are the front of the input, to the byte,
-- and no longer than a length and a payload may be; the address can be routed and the state is known.
pub read_handshake_sound :
    (s : Bytes) (h : Handshake) (raw rest : Bytes)
    → read_handshake s default_limits ≡ done h raw rest
    → (raw ++ rest ≡ s) × (length raw ≤ 2053) × IsAccepted h
read_handshake_sound s h raw rest e = elim (Read-cases (read_varint s)) [
  | inl (x, p) ↦ absurd (read_handshake-failed s x p h raw rest e)
  | inr (n, t, r, p) ↦
      let (small, front, least, most) = read_varint_bounds s n t r p in
      let inside = read_handshake-body s h raw rest n t r p e in
      let (same, long, accepted) = read_payload_sound n t r default_limits h raw rest inside.1 in
      let (lo, hi) = bad_length-le 2048 n (omega arith) small inside.0 in
      (same ∙ front, omega arith, accepted)
]
