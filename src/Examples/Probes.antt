-- ===== src/Examples/Probes.antt =====
-- Probes of a backend, and what the monitor reports of it.
use mc_router.Prelude.{◌≡◌, refl, arith, some, true, false, List, [], ◌∷◌, codes}
use mc_router.HostAddr.{normalize}
use mc_router.Go.Utf8.{utf8_valid}
use mc_router.Config.{AvailabilityBackend}
use mc_router.Mcproto.VarInt.{done}
use mc_router.Mcproto.Packet.{build_packet, status_request_packet_id}
use mc_router.Mcproto.Handshake.{default_limits, read_handshake, known_state}
use mc_router.Mcproto.HandshakeRoundTrip.{IsSendable}
use mc_router.Availability.{probe_request, probe_handshake, Tick}
use mc_router.Availability.Laws.{asked, read_handshake-probe_request}

abbrev backend : AvailabilityBackend
backend = record {
  id = codes "survival";
  address = codes "10.0.0.5:25565";
  server_address = codes "survival.example.net";
}

text-valid : utf8_valid backend.server_address ≡ true
unfolding utf8_valid
text-valid = refl

routable : normalize backend.server_address ≡ some backend.server_address
unfolding normalize mc_router.Go.Text.trim_suffix mc_router.Go.Text.to_lower
    mc_router.Go.Text.trim_space mc_router.Go.Text.before utf8_valid mc_router.Go.Netip.parse_ip
    mc_router.Go.Text.trim_prefix mc_router.Go.Ipv4.parse_ipv4 mc_router.Go.Text.split
routable = refl

asked-IsSendable : IsSendable (asked backend.server_address 25565)
unfolding mc_router.Go.Text.trim_space known_state
asked-IsSendable = record {
  version = omega arith;
  address_length = omega arith;
  address_text = text-valid;
  address_shown = refl;
  routable = λ h. cc (routable);
  port = omega arith;
  state = refl;
}

read_handshake-probe_request_example :
    read_handshake (probe_request backend.server_address 25565) default_limits
    ≡ done
        (asked backend.server_address 25565)
        (probe_handshake backend.server_address 25565)
        (build_packet status_request_packet_id [])
read_handshake-probe_request_example =
    read_handshake-probe_request backend.server_address 25565 asked-IsSendable

-- The backend comes up, a notice is lost, and it goes down.
abbrev ticks : List Tick
ticks =
    record { probes = λ b. true; delivers = λ id online. false }
    ∷ record { probes = λ b. true; delivers = λ id online. true }
    ∷ record { probes = λ b. false; delivers = λ id online. true }
    ∷ []
