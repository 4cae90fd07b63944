-- ===== src/Availability.antt =====
-- internal/availability/monitor.go: probes of backends, and the reports of changes. The network, the
-- check of JSON and the control companion are arguments.
pub mod Laws
use mc_router.Prelude.{
  ℕ, suc, ◌+◌, ◌-◌, ◌/◌, ◌%◌, Bool, true, false, not, ◌&&◌, ◌||◌, Option, none, some, List, [], ◌∷◌,
  ◌++◌, Bytes, if◌then◌else◌, ltb, leb, nat_eq, length, drop, ◌==◌, bytes_Eq, lookup, insert,
}
use mc_router.Go.Conv.{unsigned}
use mc_router.Go.HostPort.{split_host_port}
use mc_router.Config.{AvailabilityBackend}
use mc_router.Mcproto.VarInt.{write_varint, add_group}
use mc_router.Mcproto.Packet.{
  Result, ok, err, build_packet, encode_string, read_packet, status_request_packet_id,
  status_response_packet_id,
}
use mc_router.Mcproto.Handshake.{default_limits, handshake_packet_id, next_state_status}

abbrev pub status_protocol_version : ℕ
status_protocol_version = 767

-- strconv.ParseUint with 16 bits.
unfoldable pub parse_uint16 : Bytes → Option ℕ
parse_uint16 s = elim (unsigned s) [ none ↦ none | some n ↦ if ltb n 65536 then some n else none ]

-- The payload of the handshake with the packet's identifier in front.
unfoldable pub probe_payload : Bytes → ℕ → Bytes
probe_payload server_address port =
    write_varint handshake_packet_id
    ++ (write_varint status_protocol_version
        ++ (encode_string server_address
            ++ ((port / 256 ∷ port % 256 ∷ []) ++ write_varint next_state_status)))

unfoldable pub probe_handshake : Bytes → ℕ → Bytes
probe_handshake server_address port =
    build_packet 0 (drop 1 (probe_payload server_address port) ∷ [])

abbrev pub probe_request : Bytes → ℕ → Bytes
probe_request server_address port =
    probe_handshake server_address port ++ build_packet status_request_packet_id []

-- readVarInt: the number of the byte, the value so far and the data; the value and the bytes it took.
unfoldable pub read_loop : ℕ → ℕ → Bytes → Option (ℕ × ℕ)
read_loop i value [] = none
read_loop i value (b ∷ s) =
    let next = read_loop (i + 1) (add_group value i b) s in
    if nat_eq i 5 then none else if ltb b 0x80 then some (add_group value i b, i + 1) else next

-- The text of a status response; a length of 2 ^ 31 and more is negative in the source.
unfoldable pub status_ok : (Bytes → Bool) → Bytes → Bool
status_ok json_valid payload = elim (read_loop 0 0 payload) [
  | none ↦ false
  | some (n, offset) ↦
      if nat_eq n 0 || leb 0x8000_0000 n || not (nat_eq n (length payload - offset))
      then false
      else json_valid (drop offset payload)
]

unfoldable pub reply_ok : (Bytes → Bool) → Bytes → Bool
reply_ok json_valid s = elim (read_packet default_limits.max_packet_length s) [
  | err e ↦ false
  | ok ((id, payload), rest) ↦
      if nat_eq id status_response_packet_id then status_ok json_valid payload else false
]

-- What a dial of an address comes to, whether the request is written, and what is sent back.
pub record World : Type 0 where
  pub dials : Bytes → Bool
  pub takes : Bytes → Bytes → Bool
  pub replies : Bytes → Bytes → Bytes
  pub json_valid : Bytes → Bool

-- Probe, true where it gives no error.
unfoldable pub probe : World → AvailabilityBackend → Bool
probe w b = elim (split_host_port b.address) [
  | none ↦ false
  | some (host, port_raw) ↦ elim (parse_uint16 port_raw) [
    | none ↦ false
    | some port ↦
        if not (w.dials b.address)
        then false
        else if not (w.takes b.address (probe_request b.server_address port))
        then false
        else reply_ok w.json_valid (w.replies b.address (probe_request b.server_address port))
  ]
]

-- A call of notify.
pub record Notice : Type 0 where
  pub id : Bytes
  pub online : Bool
  pub delivered : Bool

abbrev pub Sent : Type 0
Sent = List (Bytes × Bool)

-- What the companion was told last is this.
abbrev pub told : Bytes → Bool → Sent → Bool
told id online sent = elim (lookup id sent) [
  | none ↦ false
  | some previous ↦ if online then previous else not previous
]

abbrev pub record_notice : Notice → Sent → Sent
record_notice n sent = if n.delivered then insert n.id n.online sent else sent

abbrev pub notice_of : (Bytes → Bool → Bool) → AvailabilityBackend → Bool → Notice
notice_of delivers b online = record {
  id = b.id;
  online = online;
  delivered = delivers b.id online;
}

-- checkAll: the notices and the map behind them.
unfoldable pub check_all :
    (AvailabilityBackend → Bool)
    → (Bytes → Bool → Bool)
    → List AvailabilityBackend
    → Sent
    → List Notice × Sent
check_all probes delivers [] sent = ([], sent)
check_all probes delivers (b ∷ bs) sent = elim (told b.id (probes b) sent) [
  | true ↦ check_all probes delivers bs sent
  | false ↦
      let n = notice_of delivers b (probes b) in
      let (notices, later) = check_all probes delivers bs (record_notice n sent) in
      (n ∷ notices, later)
]

-- A tick: what the probes find, and whether a notice reaches the companion.
pub record Tick : Type 0 where
  pub probes : AvailabilityBackend → Bool
  pub delivers : Bytes → Bool → Bool

-- run, from tick to tick.
unfoldable pub run : List AvailabilityBackend → List Tick → Sent → List Notice × Sent
run backends [] sent = ([], sent)
run backends (t ∷ ts) sent =
    let (notices, after) = check_all t.probes t.delivers backends sent in
    let (later, last) = run backends ts after in (notices ++ later, last)
