-- ===== src/Mcproto/HandshakeRoundTrip.antt =====
-- Reading back a handshake that was written with the packet builder.
use mc_router.Prelude.{
  ℕ, ◌+◌, ◌*◌, ◌/◌, ◌%◌, ◌^◌, ◌≤◌, ◌<◌, ◌≡◌, ◌≢◌, inl, inr, arith, true, false, none, List, [], ◌∷◌,
  ◌++◌, Bytes, length, length-append, Option-cases,
}
use mathlib.Core.List.{append_assoc}
use native.Mathlib.Nat.{mod-eq_of_lt}
use mc_router.Go.Utf8.{utf8_valid}
use mc_router.Go.Text.{is_blank}
use mc_router.HostAddr.{normalize}
use mc_router.Mcproto.VarInt.{done, write_varint}
use mc_router.Mcproto.VarIntLaws.{read_varint-write_varint}
use mc_router.Mcproto.Packet.{ok, concat, build_packet, encode_string, int32_length}
use mc_router.Mcproto.Handshake.{
  default_limits, Handshake, known_state, check_address, parse_tail, parse_handshake_payload,
  read_payload, read_handshake, handshake_packet_id,
}
use mc_router.Mcproto.RoundTrip.{
  read_full-append, read_int32-write_varint, write_varint-length_pos, write_varint-length-le,
  read_string-encode_string, good_length,
}

-- The fields of a handshake packet, in the order of the protocol.
unfoldable pub handshake_fields : Handshake → List Bytes
handshake_fields h =
    write_varint h.protocol_version
    ∷ encode_string h.server_address
    ∷ (h.server_port / 256 ∷ h.server_port % 256 ∷ [])
    ∷ write_varint h.next_state
    ∷ []

-- A handshake that the protocol can carry and the gateway takes.
pub record IsSendable (h : Handshake) : Type 0 where
  pub version : h.protocol_version < 2 ^ 32
  pub address_length : length h.server_address ≤ 255
  pub address_text : utf8_valid h.server_address ≡ true
  pub address_shown : is_blank h.server_address ≡ false
  pub routable : normalize h.server_address ≢ none
  pub port : h.server_port < 65536
  pub state : known_state h.next_state ≡ true

known_state-lt : (n : ℕ) → known_state n ≡ true → n < 2 ^ 32
unfolding known_state
known_state-lt n h = ground arith

-- What follows the server address.
abbrev tail_bytes : Handshake → Bytes
tail_bytes h = h.server_port / 256 ∷ h.server_port % 256 ∷ (write_varint h.next_state ++ [])

port_back :
    (h : Handshake)
    → h.server_port < 65536
    → ok (record h { server_port = h.server_port / 256 * 256 + h.server_port % 256 }) ≡ ok h
port_back h p = ground arith

parse_tail-fields_of :
    (h : Handshake)
    → IsSendable h
    → parse_tail h.protocol_version h.server_address (tail_bytes h) ≡ ok h
unfolding parse_tail
parse_tail-fields_of h v =
    rw
      (read_full-append (h.server_port / 256 ∷ h.server_port % 256 ∷ [])
        (write_varint h.next_state ++ []))
      (rw (read_int32-write_varint h.next_state [] (known_state-lt h.next_state v.state))
        (rw v.state (port_back h v.port)))

check_address_of : (a : Bytes) → normalize a ≢ none → check_address a ≡ ok tt
unfolding check_address
check_address_of a h = elim (Option-cases (normalize a)) [
  | inl e ↦ absurd (h e)
  | inr (n, e) ↦ rw (e, check_address)
]

parse_handshake_payload-fields :
    (h : Handshake)
    → IsSendable h
    → parse_handshake_payload (write_varint 0 ++ concat (handshake_fields h)) default_limits ≡ ok h
unfolding parse_handshake_payload handshake_fields
parse_handshake_payload-fields h v =
    rw (read_int32-write_varint 0 (concat (handshake_fields h)) (omega arith)) (
      rw
        (read_int32-write_varint h.protocol_version (encode_string h.server_address ++ tail_bytes h)
          v.version)
        (rw
          (read_string-encode_string 255 h.server_address (tail_bytes h) v.address_length
            (omega arith) v.address_text)
          (rw v.address_shown
            (rw (check_address_of h.server_address v.routable) (parse_tail-fields_of h v)))))

payload_length :
    (h : Handshake) → IsSendable h → length (write_varint 0 ++ concat (handshake_fields h)) ≤ 277
unfolding handshake_fields encode_string
payload_length h v = omega (
  arith,
  length-append (write_varint 0) (concat (handshake_fields h)),
  length-append (write_varint h.protocol_version) (encode_string h.server_address ++ tail_bytes h),
  length-append (encode_string h.server_address) (tail_bytes h),
  length-append (write_varint (int32_length h.server_address)) h.server_address,
  length-append (write_varint h.next_state) [],
  write_varint-length-le 0 (omega arith),
  write_varint-length-le h.protocol_version v.version,
  write_varint-length-le (int32_length h.server_address) (omega arith),
  write_varint-length-le h.next_state (known_state-lt h.next_state v.state),
  v.address_length,
)

payload_length_pos : (h : Handshake) → 0 < length (write_varint 0 ++ concat (handshake_fields h))
payload_length_pos h = omega (
  arith,
  length-append (write_varint 0) (concat (handshake_fields h)),
  write_varint-length_pos 0 (omega arith),
)

read_payload_of :
    (payload t rest : Bytes) (h : Handshake)
    → parse_handshake_payload payload default_limits ≡ ok h
    → read_payload (length payload) t (payload ++ rest) default_limits ≡ done h (t ++ payload) rest
unfolding read_payload
read_payload_of payload t rest h e = rw (read_full-append payload rest, read_payload) (rw e)

-- The gateway reads back a handshake that its own packet builder wrote, keeps exactly the bytes of
-- the packet for the backend, and leaves what follows on the connection.
pub read_handshake-build_packet :
    (h : Handshake) (rest : Bytes)
    → IsSendable h
    → read_handshake (build_packet handshake_packet_id (handshake_fields h) ++ rest) default_limits
      ≡ done h (build_packet handshake_packet_id (handshake_fields h)) rest
unfolding read_handshake build_packet
read_handshake-build_packet h rest v =
    let payload = write_varint 0 ++ concat (handshake_fields h) in
    let most = payload_length h v in
    let short : length payload < 2 ^ 32 = omega (arith, most) in
    rw (append_assoc (write_varint (int32_length payload)) payload rest) (
      rw (mod-eq_of_lt short) (
        rw (read_varint-write_varint (length payload) (payload ++ rest) short, read_handshake)
          (rw
            (good_length 2048 (length payload) (payload_length_pos h) (omega (arith, most))
              (omega arith))
            (read_payload_of payload (write_varint (length payload)) rest h
              (parse_handshake_payload-fields h v)))))
