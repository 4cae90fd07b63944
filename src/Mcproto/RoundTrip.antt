-- ===== src/Mcproto/RoundTrip.antt =====
-- Reading back what the gateway writes: numbers, strings and whole packets.
use mc_router.Prelude.{
  ℕ, ◌+◌, ◌^◌, ◌≤◌, ◌<◌, ◌≡◌, arith, true, false, List, [], ◌++◌, Bytes, length, length-append,
  take-length-append, drop-length-append,
}
use mathlib.Core.List.{append_assoc}
use native.Mathlib.Nat.{mod-eq_of_lt}
use mc_router.Prelude.Int.{pos}
use mc_router.Go.Utf8.{utf8_valid}
use mc_router.Mcproto.VarInt.{write_varint}
use mc_router.Mcproto.VarIntLaws.{read_varint-write_varint, read_varint_bounds}
use mc_router.Mcproto.Packet.{
  ok, read_int32, read_full, read_string, bad_length, bad_string_length, or_default, read_packet,
  concat, build_packet, encode_string, int32_length,
}

pub read_full-append : (a b : Bytes) → read_full (length a) (a ++ b) ≡ ok (a, b)
unfolding read_full
read_full-append a b =
    ground (arith, length-append a b, take-length-append a b, drop-length-append a b)

pub read_int32-write_varint :
    (v : ℕ) (rest : Bytes) → v < 2 ^ 32 → read_int32 (write_varint v ++ rest) ≡ ok (v, rest)
unfolding read_int32
read_int32-write_varint v rest h = rw (read_varint-write_varint v rest h, read_int32)

pub write_varint-length_pos : (v : ℕ) → v < 2 ^ 32 → 1 ≤ length (write_varint v)
write_varint-length_pos v h =
    let b =
      read_varint_bounds (write_varint v ++ []) v (write_varint v) []
        (read_varint-write_varint v [] h) in
    b.2

pub write_varint-length-le : (v : ℕ) → v < 2 ^ 32 → length (write_varint v) ≤ 5
write_varint-length-le v h =
    let b =
      read_varint_bounds (write_varint v ++ []) v (write_varint v) []
        (read_varint-write_varint v [] h) in
    b.3

pub good_length :
    (limit n : ℕ) → 0 < n → n ≤ limit → limit < 2 ^ 31 → bad_length (pos limit) n ≡ false
unfolding bad_length
good_length limit n h k l = ground arith

good_string_length :
    (limit n : ℕ) → n ≤ limit → limit < 2 ^ 31 → bad_string_length (pos limit) n ≡ false
unfolding bad_string_length
good_string_length limit n k l = ground arith

lt_of_limit : (n limit : ℕ) → n ≤ limit → limit < 2 ^ 31 → n < 2 ^ 32
lt_of_limit n limit h k = omega arith

or_default_pos : (limit : ℕ) → 0 < limit → or_default (pos limit) (pos 2048) ≡ pos limit
or_default_pos limit h = ground arith

-- A string within the limit is read back, with what follows it.
pub read_string-encode_string :
    (limit : ℕ) (a rest : Bytes)
    → length a ≤ limit
    → limit < 2 ^ 31
    → utf8_valid a ≡ true
    → read_string (pos limit) (encode_string a ++ rest) ≡ ok (a, rest)
unfolding read_string encode_string
read_string-encode_string limit a rest h k u =
    rw (append_assoc (write_varint (int32_length a)) a rest) (
      rw (mod-eq_of_lt (lt_of_limit (length a) limit h k)) (
        rw (read_int32-write_varint (length a) (a ++ rest) (lt_of_limit (length a) limit h k))
          (rw (good_string_length limit (length a) h k) (rw (read_full-append a rest) (rw u)))))

-- A packet within the limit is read back, with what follows it.
pub read_packet-build_packet :
    (limit id : ℕ) (fields : List Bytes) (rest : Bytes)
    → 0 < limit
    → limit < 2 ^ 31
    → id < 2 ^ 32
    → length (write_varint id) + length (concat fields) ≤ limit
    → read_packet (pos limit) (build_packet id fields ++ rest) ≡ ok ((id, concat fields), rest)
unfolding read_packet build_packet
read_packet-build_packet limit id fields rest p k i h =
    let n = length-append (write_varint id) (concat fields) in
    let positive = write_varint-length_pos id i in
    let short = lt_of_limit (length (write_varint id ++ concat fields)) limit (omega arith) k in
    rw
      (append_assoc (write_varint (int32_length (write_varint id ++ concat fields)))
        (write_varint id ++ concat fields) rest)
      (rw (mod-eq_of_lt short) (
        rw
          (read_int32-write_varint (length (write_varint id ++ concat fields))
            ((write_varint id ++ concat fields) ++ rest) short)
          (rw (or_default_pos limit p) (
            rw
              (good_length limit (length (write_varint id ++ concat fields)) (omega arith)
                (omega arith) k)
              (rw (read_full-append (write_varint id ++ concat fields) rest)
                (rw (read_int32-write_varint id (concat fields) i)))))))
