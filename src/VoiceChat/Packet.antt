-- ===== src/VoiceChat/Packet.antt =====
-- internal/voicechat/udp.go: the clear envelope of a client's datagram, and player identifiers.
use mc_router.Prelude.{
  ℕ, zero, suc, ◌+◌, ◌*◌, ◌^◌, not, Option, none, [], ◌∷◌, ◌++◌, Bytes, if◌then◌else◌, ltb, leb,
  nat_eq, length, take, drop, select,
}
use Prim.Native.Nat.{bit_and}
use mc_router.Go.Hex.{encode, decode}
use mc_router.Mcproto.VarInt.{add_group}

abbrev pub magic_byte : ℕ
magic_byte = 0xff

abbrev pub uuid_size : ℕ
uuid_size = 16

abbrev pub max_varint_bytes : ℕ
max_varint_bytes = 5

pub data Error : Type 0 where
  packet_too_short invalid_magic invalid_length truncated_packet trailing_bytes : Error

pub data Result {ℓ} (A : Type ℓ) : Type ℓ where
  ok : A → Result A
  err : Error → Result A

-- UUID.String: sixteen bytes in five groups.
unfoldable pub uuid_string : Bytes → Bytes
uuid_string u =
    encode (take 4 u)
    ++ (b'-'
        ∷ (encode (take 2 (drop 4 u))
            ++ (b'-'
                ∷ (encode (take 2 (drop 6 u))
                    ++ (b'-' ∷ (encode (take 2 (drop 8 u)) ++ (b'-' ∷ encode (drop 10 u))))))))

pub record ClientPacket : Type 0 where
  pub player_uuid : Bytes
  pub encrypted_payload : Bytes

-- The loop of readVarInt: the rounds left, the round's number, the value so far and the data.
unfoldable pub read_loop : ℕ → ℕ → ℕ → Bytes → Result (ℕ × ℕ)
read_loop zero i value s = err invalid_length
read_loop (suc n) i value [] = err truncated_packet
read_loop (suc n) i value (b ∷ s) =
    let next = read_loop n (i + 1) (add_group value i b) s in
    if not (nat_eq (bit_and b 0x80) 0)
    then next
    else if leb (2 ^ 31) (add_group value i b)
    then err invalid_length
    else ok (add_group value i b, i + 1)

-- The value and the number of its bytes.
unfoldable pub read_varint : Bytes → Result (ℕ × ℕ)
read_varint s = read_loop max_varint_bytes 0 0 s

-- The payload: all that follows the length, which must be as long as the length says.
unfoldable pub take_payload : Bytes → ℕ → Bytes → Result ClientPacket
take_payload uuid n s =
    if ltb (length s) n
    then err truncated_packet
    else if ltb n (length s)
    then err trailing_bytes
    else ok (record { player_uuid = uuid; encrypted_payload = take n s })

unfoldable pub parse_body : Bytes → Result ClientPacket
parse_body s =
    if ltb (length s) (uuid_size + 1)
    then err packet_too_short
    else elim (read_varint (drop uuid_size s)) [
      | err e ↦ err e
      | ok (n, used) ↦ take_payload (take uuid_size s) n (drop used (drop uuid_size s))
    ]

unfoldable pub parse_client_packet : Bytes → Result ClientPacket
parse_client_packet [] = err packet_too_short
parse_client_packet (b ∷ s) = if not (nat_eq b magic_byte) then err invalid_magic else parse_body s

-- strings.ReplaceAll(s, "-", "")
abbrev pub without_dashes : Bytes → Bytes
without_dashes s = select (λ c. not (nat_eq c b'-')) s

unfoldable pub parse_uuid : Bytes → Option Bytes
parse_uuid s =
    if not (nat_eq (length (without_dashes s)) (uuid_size * 2))
    then none
    else decode (without_dashes s)
