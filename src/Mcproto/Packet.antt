-- ===== src/Mcproto/Packet.antt =====
-- status.go and the shared readers of handshake.go: packets and strings. The JSON text of a status
-- response comes from encoding/json and is an argument here.
use mc_router.Prelude.{
  ℕ, ◌%◌, ◌^◌, Bool, true, false, not, ◌||◌, List, [], ◌∷◌, ◌++◌, Bytes, leb, if◌then◌else◌, length,
  take, drop,
}
use mc_router.Prelude.Int.{ℤ, pos, to_int32, ltb_ℤ, leb_ℤ}
use mc_router.Go.Utf8.{utf8_valid}
use mc_router.Mcproto.VarInt.{
  Error, eof, packet_too_large, bad_string, done, failed, read_varint, write_varint,
}

pub data Result {ℓ} (A : Type ℓ) : Type ℓ where
  ok : A → Result A
  err : Error → Result A

abbrev pub guard : Bool → Error → Result (Unit {0})
guard true problem = ok tt
guard false problem = err problem

infixl 5 ◌>>=◌ ◌>>◌
abbrev pub ◌>>=◌ {ℓ κ} : {A : Type ℓ} {B : Type κ} → Result A → (A → Result B) → Result B
ok value >>= next = next value
err problem >>= next = err problem

abbrev pub ◌>>◌ {ℓ} : {B : Type ℓ} → Result (Unit {0}) → Result B → Result B
first >> next = first >>= λ _. next

-- `if !test { return e }`
-- The error under another name, as `fmt.Errorf("%w: …")` wraps it.
abbrev pub wrap {ℓ} : {A : Type ℓ} → Error → Result A → Result A
wrap e (ok a) = ok a
wrap e (err x) = err e

-- readVarIntFromReader: the pattern and the rest of the input.
unfoldable pub read_int32 : Bytes → Result (ℕ × Bytes)
read_int32 s = elim (read_varint s) [ done v raw rest ↦ ok (v, rest) | failed e ↦ err e ]

-- io.ReadFull into a buffer of n bytes.
unfoldable pub read_full : ℕ → Bytes → Result (Bytes × Bytes)
read_full n s = if leb n (length s) then ok (take n s, drop n s) else err eof

abbrev pub default_max_packet_length : ℤ
default_max_packet_length = pos 2048

abbrev pub default_max_server_address_bytes : ℤ
default_max_server_address_bytes = pos 255

-- A limit that is not positive stands for the default.
abbrev pub or_default : ℤ → ℤ → ℤ
or_default limit d = if leb_ℤ limit (pos 0) then d else limit

unfoldable pub bad_length : ℤ → ℕ → Bool
bad_length limit v = leb_ℤ (to_int32 v) (pos 0) || ltb_ℤ limit (to_int32 v)

-- The packet's identifier and what follows it in the packet, and the input behind the packet.
unfoldable pub read_packet : ℤ → Bytes → Result ((ℕ × Bytes) × Bytes)
read_packet limit s = do
  (n, r) ← read_int32 s
  guard (not (bad_length (or_default limit default_max_packet_length) n)) packet_too_large
  (payload, rest) ← read_full n r
  (id, fields) ← read_int32 payload
  ok ((id, fields), rest)

unfoldable pub bad_string_length : ℤ → ℕ → Bool
bad_string_length limit v = ltb_ℤ (to_int32 v) (pos 0) || ltb_ℤ limit (to_int32 v)

unfoldable pub read_string : ℤ → Bytes → Result (Bytes × Bytes)
read_string limit s = do
  (n, r) ← read_int32 s
  guard (not (bad_string_length limit n)) bad_string
  (buf, rest) ← read_full n r
  guard (utf8_valid buf) bad_string
  ok (buf, rest)

-- `int32(len(raw))`
abbrev pub int32_length : Bytes → ℕ
int32_length s = length s % 2 ^ 32

abbrev pub concat : List Bytes → Bytes
concat [] = []
concat (f ∷ fs) = f ++ concat fs

unfoldable pub build_packet : ℕ → List Bytes → Bytes
build_packet id fields =
    let payload = write_varint id ++ concat fields in write_varint (int32_length payload) ++ payload

unfoldable pub encode_string : Bytes → Bytes
encode_string value = write_varint (int32_length value) ++ value

abbrev pub status_request_packet_id : ℕ
status_request_packet_id = 0

abbrev pub status_response_packet_id : ℕ
status_response_packet_id = 0

abbrev pub status_ping_packet_id : ℕ
status_ping_packet_id = 1

abbrev pub status_pong_packet_id : ℕ
status_pong_packet_id = 1

-- The argument is the JSON text of the response.
unfoldable pub build_status_response_packet : Bytes → Bytes
build_status_response_packet raw =
    build_packet status_response_packet_id ((write_varint (int32_length raw) ++ raw) ∷ [])

unfoldable pub build_status_pong_packet : Bytes → Bytes
build_status_pong_packet payload = build_packet status_pong_packet_id (payload ∷ [])
