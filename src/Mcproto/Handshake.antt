-- ===== src/Mcproto/Handshake.antt =====
-- handshake.go: reading the packet that opens a connection.
use mc_router.Prelude.{
  ℕ, ◌+◌, ◌*◌, Bool, not, ◌||◌, none, some, [], ◌++◌, Bytes, nat_eq, if◌then◌else◌,
}
use mc_router.Prelude.Int.{ℤ}
use mc_router.Go.Text.{is_empty, is_blank, byte_at}
use mc_router.HostAddr.{normalize}
use mc_router.Mcproto.VarInt.{
  packet_too_large, malformed_packet_id, malformed_version, malformed_address, empty_address,
  invalid_address, malformed_port, malformed_state, trailing_bytes, unsupported_next_state, Read,
  done, failed, read_varint,
}
use mc_router.Mcproto.Packet.{
  Result, ok, err, ◌>>=◌, ◌>>◌, guard, wrap, read_int32, read_full, read_string, bad_length,
  or_default, default_max_packet_length, default_max_server_address_bytes,
}

abbrev pub handshake_packet_id : ℕ
handshake_packet_id = 0

abbrev pub next_state_status : ℕ
next_state_status = 1

abbrev pub next_state_login : ℕ
next_state_login = 2

abbrev pub next_state_transfer : ℕ
next_state_transfer = 3

pub record Limits : Type 0 where
  pub max_packet_length : ℤ
  pub max_server_address_bytes : ℤ

abbrev pub default_limits : Limits
default_limits = record {
  max_packet_length = default_max_packet_length;
  max_server_address_bytes = default_max_server_address_bytes;
}

pub record Handshake : Type 0 where
  pub protocol_version : ℕ
  pub server_address : Bytes
  pub server_port : ℕ
  pub next_state : ℕ

-- The empty address stands for one that cannot be normalised.
unfoldable pub route_address : Handshake → Bytes
route_address h = elim (normalize h.server_address) [ none ↦ [] | some a ↦ a ]

unfoldable pub known_state : ℕ → Bool
known_state n =
    nat_eq n next_state_status || nat_eq n next_state_login || nat_eq n next_state_transfer

-- hostaddr.Normalize as a check: its result is not kept.
unfoldable pub check_address : Bytes → Result (Unit {0})
check_address a = elim (normalize a) [ none ↦ err invalid_address | some h ↦ ok tt ]

-- binary.BigEndian.Uint16 of the two bytes read.
abbrev pub be_uint16 : Bytes → ℕ
be_uint16 raw = byte_at 0 raw * 256 + byte_at 1 raw

-- The fields behind the server address: port, next state, and nothing else.
unfoldable pub parse_tail : ℕ → Bytes → Bytes → Result Handshake
parse_tail version address r = do
  (port, r1) ← wrap malformed_port (read_full 2 r)
  (state, r2) ← wrap malformed_state (read_int32 r1)
  guard (known_state state) unsupported_next_state
  guard (is_empty r2) trailing_bytes
  ok (record {
    protocol_version = version;
    server_address = address;
    server_port = be_uint16 port;
    next_state = state;
  })

unfoldable pub parse_handshake_payload : Bytes → Limits → Result Handshake
parse_handshake_payload payload limits = do
  (id, r1) ← wrap malformed_packet_id (read_int32 payload)
  guard (nat_eq id handshake_packet_id) malformed_packet_id
  (version, r2) ← wrap malformed_version (read_int32 r1)
  (address, r3) ←
      wrap malformed_address (
        read_string (or_default limits.max_server_address_bytes default_max_server_address_bytes)
          r2)
  guard (not (is_blank address)) empty_address
  check_address address
  parse_tail version address r3

abbrev finish : Result Handshake → Bytes → Bytes → Read Handshake
finish (ok h) raw rest = done h raw rest
finish (err e) raw rest = failed e

-- The payload of the given length, behind the bytes of the length itself.
unfoldable pub read_payload : ℕ → Bytes → Bytes → Limits → Read Handshake
read_payload n length_raw r limits = elim (read_full n r) [
  | err e ↦ failed e
  | ok (payload, rest) ↦
      finish (parse_handshake_payload payload limits) (length_raw ++ payload) rest
]

-- The handshake, the bytes that it was read from, and the rest of the connection. The bytes that
-- the source returns beside an error have no reader.
unfoldable pub read_handshake : Bytes → Limits → Read Handshake
read_handshake s limits = elim (read_varint s) [
  | failed e ↦ failed e
  | done n raw r ↦
      if bad_length (or_default limits.max_packet_length default_max_packet_length) n
      then failed packet_too_large
      else read_payload n raw r limits
]
