-- ===== src/Examples/Packets.antt =====
-- Packets.
use mc_router.Prelude.{
  ◌<◌, ◌^◌, ◌≡◌, ◌≤◌, refl, arith, some, Bytes, [], ◌∷◌, ◌++◌, codes, length, true, false,
}
use mc_router.Prelude.Int.{pos}
use mc_router.HostAddr.{normalize}
use mc_router.Go.Utf8.{utf8_valid}
use mc_router.Go.Text.{is_blank}
use mc_router.Mcproto.VarInt.{Read, done, read_varint, write_varint, max_varint_bytes}
use mc_router.Mcproto.VarIntLaws.{read_varint_bounds}
use mc_router.Mcproto.Packet.{ok, read_packet, build_packet, concat}
use mc_router.Mcproto.RoundTrip.{read_packet-build_packet}
use mc_router.Mcproto.Handshake.{
  Handshake, default_limits, read_handshake, handshake_packet_id, known_state,
}
use mc_router.Mcproto.HandshakeLaws.{IsAccepted, read_handshake_sound}
use mc_router.Mcproto.HandshakeRoundTrip.{handshake_fields, IsSendable, read_handshake-build_packet}

abbrev two_bytes : Bytes
two_bytes = 0xac ∷ 2 ∷ []

two_bytes-read : read_varint (two_bytes ++ 7 ∷ []) ≡ done 300 two_bytes (7 ∷ [])
unfolding read_varint mc_router.Mcproto.VarInt.read_loop
two_bytes-read = refl

read_varint_bounds_example :
    (300 < 2 ^ 32)
    × (two_bytes ++ 7 ∷ [] ≡ two_bytes ++ 7 ∷ [])
    × (1 ≤ length two_bytes)
    × (length two_bytes ≤ max_varint_bytes)
read_varint_bounds_example =
    read_varint_bounds (two_bytes ++ 7 ∷ []) 300 two_bytes (7 ∷ []) two_bytes-read

abbrev host : Bytes
host = codes "play.example.net"

host-text : utf8_valid host ≡ true
unfolding utf8_valid
host-text = refl

host-routable : normalize host ≡ some host
unfolding normalize mc_router.Go.Text.trim_suffix mc_router.Go.Text.to_lower
    mc_router.Go.Text.trim_space mc_router.Go.Text.before utf8_valid mc_router.Go.Netip.parse_ip
    mc_router.Go.Text.trim_prefix mc_router.Go.Ipv4.parse_ipv4 mc_router.Go.Text.split
host-routable = refl

host-shown : is_blank host ≡ false
unfolding is_blank mc_router.Go.Text.trim_space
host-shown = refl

one_byte : length (write_varint 1) ≡ 1
unfolding write_varint mc_router.Mcproto.VarInt.write_loop
one_byte = refl

read_packet-build_packet_example :
    read_packet (pos 2048) (build_packet 1 (host ∷ []) ++ []) ≡ ok ((1, concat (host ∷ [])), [])
read_packet-build_packet_example =
    read_packet-build_packet 2048 1 (host ∷ []) [] (omega arith) (omega arith) (omega arith)
      (omega (arith, one_byte))

abbrev login : Handshake
login = record {
  protocol_version = 767;
  server_address = host;
  server_port = 25565;
  next_state = 2;
}

login-state : known_state login.next_state ≡ true
unfolding known_state
login-state = refl

login-IsSendable : IsSendable login
login-IsSendable = record {
  version = omega arith;
  address_length = omega arith;
  address_text = host-text;
  address_shown = host-shown;
  routable = λ h. cc (host-routable);
  port = omega arith;
  state = login-state;
}

read_handshake-build_packet_example :
    read_handshake
      (build_packet handshake_packet_id (handshake_fields login) ++ 9 ∷ [])
      default_limits
    ≡ done login (build_packet handshake_packet_id (handshake_fields login)) (9 ∷ [])
read_handshake-build_packet_example = read_handshake-build_packet login (9 ∷ []) login-IsSendable

abbrev sent : Bytes
sent = build_packet handshake_packet_id (handshake_fields login)

read_handshake_sound_example :
    (sent ++ 9 ∷ [] ≡ sent ++ 9 ∷ []) × (length sent ≤ 2053) × IsAccepted login
read_handshake_sound_example =
    read_handshake_sound (sent ++ 9 ∷ []) login sent (9 ∷ []) read_handshake-build_packet_example
