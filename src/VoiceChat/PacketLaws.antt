-- ===== src/VoiceChat/PacketLaws.antt =====
-- The datagrams that the parser of udp.go accepts.
use mc_router.Prelude.{
  ℕ, zero, suc, ◌+◌, ◌^◌, ◌<◌, ◌≡◌, ◌≢◌, ◌⊎◌, inl, inr, refl, sym, ap, subst, ◌∙◌, arith, false, [],
  ◌∷◌, ◌++◌, Bytes, length, take, drop, take-append-drop, take-length, take-length-append,
  drop-length-append, nat_eq, leb, ltb, length-append, length-take, if◌then◌else◌, Bool-cases,
}
use mc_router.Mcproto.VarInt as Mc
use mc_router.Mcproto.VarInt.{add_group, write_varint}
use mc_router.Mcproto.VarIntLaws.{read_varint-write_varint, read_varint_bounds}
use mc_router.Mcproto.HandshakeLaws.{Read-cases}
use mc_router.Mcproto.RoundTrip.{write_varint-length_pos}
use mc_router.VoiceChat.Packet.{
  Error, invalid_length, truncated_packet, Result, ok, err, read_loop, read_varint, ClientPacket,
  take_payload, parse_body, parse_client_packet, magic_byte, uuid_size,
}

-- What the voice chat reader makes of the gateway's own VarInt reader: the value must not be
-- negative, and the number of the bytes is counted.
abbrev pub counted_varint : Mc.Read ℕ → Result (ℕ × ℕ)
counted_varint (Mc.done v raw rest) =
    if leb (2 ^ 31) v then err invalid_length else ok (v, length raw)
counted_varint (Mc.failed Mc.eof) = err truncated_packet
counted_varint (Mc.failed e) = err invalid_length

read_loop-counted :
    (n i value : ℕ) (raw s : Bytes)
    → length raw ≡ i
    → read_loop n i value s ≡ counted_varint (Mc.read_loop n i value raw s)
unfolding read_loop Mc.read_loop
read_loop-counted zero i value raw s h = refl
read_loop-counted (suc n) i value raw [] h = refl
read_loop-counted (suc n) i value raw (b ∷ s) h =
    let size = length-append raw (b ∷ []) in
    let rest = read_loop-counted n (i + 1) (add_group value i b) (raw ++ b ∷ []) s (omega arith) in
    ground arith

-- The reader of voice chat datagrams agrees with the reader of Minecraft packets on every input: the
-- same value and number of bytes where that is not negative, and otherwise an error.
pub read_varint-counted : (s : Bytes) → read_varint s ≡ counted_varint (Mc.read_varint s)
unfolding read_varint Mc.read_varint
read_varint-counted s = read_loop-counted 5 0 0 [] s refl

read_varint-write :
    (n : ℕ) (rest : Bytes)
    → n < 2 ^ 31
    → read_varint (write_varint n ++ rest) ≡ ok (n, length (write_varint n))
read_varint-write n rest h =
    read_varint-counted (write_varint n ++ rest)
    ∙ rw (read_varint-write_varint n rest (omega arith)) (ground arith)

take_payload-exact :
    (uuid p : Bytes)
    → take_payload uuid (length p) p ≡ ok (record { player_uuid = uuid; encrypted_payload = p })
unfolding take_payload
take_payload-exact uuid p = ground (arith, take-length p)

-- A sent datagram: magic byte, identifier, length of the payload, payload.
abbrev pub envelope : Bytes → Bytes → Bytes
envelope uuid p = magic_byte ∷ (uuid ++ (write_varint (length p) ++ p))

parse_body-step :
    (s : Bytes) (n used : ℕ)
    → ltb (length s) (uuid_size + 1) ≡ false
    → read_varint (drop uuid_size s) ≡ ok (n, used)
    → parse_body s ≡ take_payload (take uuid_size s) n (drop used (drop uuid_size s))
unfolding parse_body
parse_body-step s n used long e = rw (parse_body, long, e) refl

parse_body-envelope :
    (uuid p : Bytes)
    → length uuid ≡ 16
    → length p < 2 ^ 31
    → parse_body (uuid ++ (write_varint (length p) ++ p))
      ≡ ok (record { player_uuid = uuid; encrypted_payload = p })
parse_body-envelope uuid p size small =
    let tail = write_varint (length p) ++ p in
    let written = read_varint-write (length p) p small in
    let whole = length-append uuid tail in
    let part = length-append (write_varint (length p)) p in
    let some_byte = write_varint-length_pos (length p) (omega arith) in
    let long : ltb (length (uuid ++ tail)) (uuid_size + 1) ≡ false = ground arith in
    let front : take uuid_size (uuid ++ tail) ≡ uuid = rw⁻¹ size (take-length-append uuid tail) in
    let back : drop uuid_size (uuid ++ tail) ≡ tail = rw⁻¹ size (drop-length-append uuid tail) in
    parse_body-step (uuid ++ tail) (length p) (length (write_varint (length p))) long
      (ap read_varint back ∙ written)
    ∙ rw (front, back)
        (rw (drop-length-append (write_varint (length p)) p) (take_payload-exact uuid p))

-- A datagram that was put together from an identifier of sixteen bytes and a payload is parsed to just
-- these.
pub parse_client_packet-envelope :
    (uuid p : Bytes)
    → length uuid ≡ 16
    → length p < 2 ^ 31
    → parse_client_packet (envelope uuid p)
      ≡ ok (record { player_uuid = uuid; encrypted_payload = p })
unfolding parse_client_packet
parse_client_packet-envelope uuid p size small = parse_body-envelope uuid p size small

-- What an accepted datagram consists of.
pub record IsEnvelope (s : Bytes) (c : ClientPacket) : Type 0 where
  pub length_bytes : Bytes
  pub joined : s ≡ magic_byte ∷ (c.player_uuid ++ (length_bytes ++ c.encrypted_payload))
  pub uuid_length : length c.player_uuid ≡ 16
  pub announced :
      read_varint (length_bytes ++ c.encrypted_payload)
      ≡ ok (length c.encrypted_payload, length length_bytes)

counted_failed :
    (x : Mc.Error)
    → (counted_varint (Mc.failed x) ≡ err truncated_packet)
      ⊎ (counted_varint (Mc.failed x) ≡ err invalid_length)
counted_failed x = ground arith

not-counted : (x : Mc.Error) (n used : ℕ) → counted_varint (Mc.failed x) ≢ ok (n, used)
not-counted x n used h = elim (counted_failed x) [ inl e ↦ cc | inr e ↦ cc ]

-- Where the count succeeds, the reader's bytes are the front of the input.
counted_varint-ok :
    (s : Bytes) (n used : ℕ)
    → counted_varint (Mc.read_varint s) ≡ ok (n, used)
    → (raw : Bytes) × (rest : Bytes) × (s ≡ raw ++ rest) × (length raw ≡ used)
counted_varint-ok s n used h = elim (Read-cases (Mc.read_varint s)) [
  | inl (x, p) ↦ absurd (not-counted x n used (sym (ap counted_varint p) ∙ h))
  | inr (v, raw, rest, p) ↦
      (raw, rest, sym (read_varint_bounds s v raw rest p).1, ground (arith, p, h))
]

take_payload-ok :
    (uuid s : Bytes) (n : ℕ) (c : ClientPacket)
    → take_payload uuid n s ≡ ok c
    → (c.player_uuid ≡ uuid) × (c.encrypted_payload ≡ s) × (length s ≡ n)
unfolding take_payload
take_payload-ok uuid s n c h = ground (arith, take-length s)

pub Result-cases {ℓ} :
    {A : Type ℓ} (r : Result A) → ((e : Error) × (r ≡ err e)) ⊎ ((a : A) × (r ≡ ok a))
Result-cases (ok a) = inr (a, refl)
Result-cases (err e) = inl (e, refl)

parse_body-err :
    (s : Bytes) (e : Error) (c : ClientPacket)
    → read_varint (drop uuid_size s) ≡ err e
    → parse_body s ≢ ok c
unfolding parse_body
parse_body-err s e c p h = ground (arith, p, h)

parse_body-long :
    (s : Bytes) (c : ClientPacket) → parse_body s ≡ ok c → ltb (length s) (uuid_size + 1) ≡ false
unfolding parse_body
parse_body-long s c h = elim (Bool-cases (ltb (length s) (uuid_size + 1))) [
  | inl short ↦ ground (arith, short, h)
  | inr long ↦ long
]

length-front : (s : Bytes) → ltb (length s) (uuid_size + 1) ≡ false → length (take uuid_size s) ≡ 16
length-front s h = ground (arith, length-take uuid_size s)

parse_body-IsEnvelope :
    (s : Bytes) (c : ClientPacket) → parse_body s ≡ ok c → IsEnvelope (magic_byte ∷ s) c
parse_body-IsEnvelope s c h = elim (Result-cases (read_varint (drop uuid_size s))) [
  | inl (e, p) ↦ absurd (parse_body-err s e c p h)
  | inr ((n, used), p) ↦
      let long = parse_body-long s c h in
      let tail = drop uuid_size s in
      let (raw, rest, joined, size) =
        counted_varint-ok tail n used (sym (read_varint-counted tail) ∙ p) in
      let (player, payload, announced) =
        take_payload-ok (take uuid_size s) (drop used tail) n c
          (sym (parse_body-step s n used long p) ∙ h) in
      let behind : drop used tail ≡ rest =
        ap (drop used) joined
        ∙ ap (λ k. drop k (raw ++ rest)) (sym size)
        ∙ drop-length-append raw rest in
      let same : c.encrypted_payload ≡ rest = payload ∙ behind in
      let whole : tail ≡ raw ++ c.encrypted_payload = joined ∙ ap (λ x. raw ++ x) (sym same) in
      let count : n ≡ length c.encrypted_payload = sym (ap length payload ∙ announced) in
      record {
        length_bytes = raw;
        joined =
            ap (λ x. magic_byte ∷ x)
              (sym (take-append-drop uuid_size s)
                ∙ ap (λ x. x ++ tail) (sym player)
                ∙ ap (λ x. c.player_uuid ++ x) whole);
        uuid_length = ap length player ∙ length-front s long;
        announced = ap read_varint (sym whole) ∙ p ∙ (λ i. ok (count i, sym size i));
      }
]

-- A datagram that the parser accepts is exactly magic byte, identifier, length and payload: nothing is
-- skipped, and nothing is left behind the payload.
pub parse_client_packet-IsEnvelope :
    (s : Bytes) (c : ClientPacket) → parse_client_packet s ≡ ok c → IsEnvelope s c
unfolding parse_client_packet
parse_client_packet-IsEnvelope [] c h = cc
parse_client_packet-IsEnvelope (b ∷ s) c h = elim (Bool-cases (nat_eq b magic_byte)) [
  | inl e ↦
      subst (λ x. IsEnvelope (x ∷ s) c) (ground (arith, e))
        (parse_body-IsEnvelope s c ground (arith, e, h))
  | inr e ↦ ground (arith, e, h)
]
