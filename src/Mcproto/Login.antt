-- ===== src/Mcproto/Login.antt =====
-- login.go: the login start packet and the disconnect answer. The JSON text of the reason comes from
-- encoding/json and is an argument.
use mc_router.Prelude.{ℕ, not, Bytes, nat_eq, length, ◌++◌, [], ◌∷◌}
use mc_router.Prelude.Int.{pos}
use mc_router.Go.Text.{is_blank}
use mc_router.Mcproto.VarInt.{malformed_login, unsupported_protocol, write_varint}
use mc_router.Mcproto.Packet.{
  Result, ok, ◌>>=◌, ◌>>◌, guard, wrap, read_string, build_packet, int32_length,
}

abbrev pub protocol_minecraft_1211 : ℕ
protocol_minecraft_1211 = 767

abbrev pub login_start_packet_id : ℕ
login_start_packet_id = 0

abbrev pub login_disconnect_packet_id : ℕ
login_disconnect_packet_id = 0

abbrev pub login_username_max_bytes : ℕ
login_username_max_bytes = 16

abbrev pub login_uuid_bytes : ℕ
login_uuid_bytes = 16

unfoldable pub validate_login_start_payload : ℕ → Bytes → Result (Unit {0})
validate_login_start_payload version payload = do
  guard (nat_eq version protocol_minecraft_1211) unsupported_protocol
  (username, rest) ← wrap malformed_login (read_string (pos login_username_max_bytes) payload)
  guard (not (is_blank username)) malformed_login
  guard (nat_eq (length rest) login_uuid_bytes) malformed_login
  ok tt

unfoldable pub login_disconnect_packet_id_for_protocol : ℕ → Result ℕ
login_disconnect_packet_id_for_protocol version = do
  guard (nat_eq version protocol_minecraft_1211) unsupported_protocol
  ok login_disconnect_packet_id

-- The second argument is the JSON text of the reason.
unfoldable pub build_login_disconnect_packet : ℕ → Bytes → Result Bytes
build_login_disconnect_packet version raw = do
  id ← login_disconnect_packet_id_for_protocol version
  ok (build_packet id ((write_varint (int32_length raw) ++ raw) ∷ []))
