-- ===== src/Availability/Laws.antt =====
-- What a probe of monitor.go sends, and which changes are reported.
use mc_router.Prelude.{
  ℕ, ◌≡◌, ◌≢◌, sym, ap, subst, Bool, some, List, [], ◌∷◌, ◌++◌, Bytes, lookup, bytes_Eq, drop,
  Option, if◌then◌else◌, ◌&&◌, ◌==◌,
}
use mathlib.Core.List.{append-nil}
use mc_router.Mcproto.VarInt.{Read, done, write_varint}
use mc_router.Mcproto.Packet.{build_packet, concat, int32_length, status_request_packet_id}
use mc_router.Mcproto.Handshake.{
  Handshake, default_limits, read_handshake, handshake_packet_id, next_state_status,
}
use mc_router.Mcproto.HandshakeRoundTrip.{handshake_fields, IsSendable, read_handshake-build_packet}
use mc_router.Availability.{
  probe_payload, probe_handshake, probe_request, status_protocol_version, Notice, Sent,
}

-- The handshake that a probe means to send.
abbrev pub asked : Bytes → ℕ → Handshake
asked server_address port = record {
  protocol_version = status_protocol_version;
  server_address = server_address;
  server_port = port;
  next_state = next_state_status;
}

build_packet-concat :
    (id : ℕ) (a b : List Bytes) → concat a ≡ concat b → build_packet id a ≡ build_packet id b
unfolding build_packet
build_packet-concat id a b e =
    ap (λ t. write_varint (int32_length (write_varint id ++ t)) ++ (write_varint id ++ t)) e

probe_handshake-fields :
    (server_address : Bytes) (port : ℕ)
    → probe_handshake server_address port
      ≡ build_packet handshake_packet_id (handshake_fields (asked server_address port))
unfolding probe_handshake probe_payload handshake_fields write_varint
    mc_router.Mcproto.VarInt.write_loop
probe_handshake-fields server_address port =
    let fields = drop 1 (probe_payload server_address port) in
    build_packet-concat 0 (fields ∷ []) (handshake_fields (asked server_address port))
      (append-nil fields)

-- A gateway that is probed reads the probe's own handshake, for the address and port of the probe and
-- with a status as what comes next; behind it is the status request.
pub read_handshake-probe_request :
    (server_address : Bytes) (port : ℕ)
    → IsSendable (asked server_address port)
    → read_handshake (probe_request server_address port) default_limits
      ≡ done
          (asked server_address port)
          (probe_handshake server_address port)
          (build_packet status_request_packet_id [])
read_handshake-probe_request server_address port v =
    subst
      (λ s.
        read_handshake (s ++ build_packet status_request_packet_id []) default_limits
        ≡ done (asked server_address port) s (build_packet status_request_packet_id []))
      (sym (probe_handshake-fields server_address port))
      (read_handshake-build_packet (asked server_address port)
        (build_packet status_request_packet_id []) v)

-- What a companion knows of each backend, if anything, behind a notice that reaches it or not.
abbrev pub hear : Notice → (Bytes → Option Bool) → Bytes → Option Bool
hear n knows id = if n.delivered && n.id == id then some n.online else knows id

-- Each notice says something that the companion does not know from the notices that have reached it.
abbrev pub AreNews : (Bytes → Option Bool) → List Notice → Type 0
AreNews knows [] = Unit
AreNews knows (n ∷ ns) = (knows n.id ≢ some n.online) × AreNews (hear n knows) ns

-- What the companion knows behind a list of notices.
abbrev all_heard : List Notice → (Bytes → Option Bool) → Bytes → Option Bool
all_heard [] knows = knows
all_heard (n ∷ ns) knows = all_heard ns (hear n knows)

-- The monitor's map holds what the companion knows.
abbrev Mirrors : Sent → (Bytes → Option Bool) → Type 0
Mirrors sent knows = (id : Bytes) → lookup id sent ≡ knows id
