-- ===== src/Mcproto/VarInt.antt =====
-- varint.go. An int32 is its 32-bit pattern, so `<<` and `|` are those of the pattern.
use mc_router.Prelude.{
  ℕ, zero, suc, ◌+◌, ◌*◌, ◌/◌, ◌%◌, ◌^◌, [], ◌∷◌, ◌++◌, Bytes, nat_eq, if◌then◌else◌,
}
use Prim.Native.Nat.{bit_and, bit_or}

pub data Error : Type 0 where
  eof varint_too_long packet_too_large : Error
  malformed_packet_id malformed_version malformed_address empty_address : Error
  invalid_address malformed_port malformed_state trailing_bytes : Error
  unsupported_next_state bad_string malformed_login unsupported_protocol : Error

-- A value with the bytes that it was read from and the rest, or an error.
pub data Read {ℓ} (A : Type ℓ) : Type ℓ where
  done : A → Bytes → Bytes → Read A
  failed : Error → Read A

abbrev pub max_varint_bytes : ℕ
max_varint_bytes = 5

-- `value |= int32(b&0x7f) << (7 * i)`
unfoldable pub add_group : ℕ → ℕ → ℕ → ℕ
add_group value i b = bit_or value (bit_and b 0x7f * 2 ^ (7 * i) % 2 ^ 32)

-- The loop of ReadVarInt: the rounds left, the round's number, the value and the bytes so far.
unfoldable pub read_loop : ℕ → ℕ → ℕ → Bytes → Bytes → Read ℕ
unfolding add_group
read_loop zero i value raw s = failed varint_too_long
read_loop (suc n) i value raw [] = failed eof
read_loop (suc n) i value raw (b ∷ s) =
    let next = read_loop n (i + 1) (add_group value i b) (raw ++ b ∷ []) s in
    if nat_eq (bit_and b 0x80) 0 then done (add_group value i b) (raw ++ b ∷ []) s else next

unfoldable pub read_varint : Bytes → Read ℕ
read_varint s = read_loop max_varint_bytes 0 0 [] s

-- The loop of WriteVarInt; each round takes seven bits off the value.
unfoldable pub write_loop : ℕ → ℕ → Bytes
write_loop zero value = []
write_loop (suc n) value =
    let rest = write_loop n (value / 128) in
    if nat_eq (value / 128) 0
    then bit_and value 0x7f ∷ []
    else bit_or (bit_and value 0x7f) 0x80 ∷ rest

unfoldable pub write_varint : ℕ → Bytes
write_varint value = write_loop max_varint_bytes value
