-- ===== src/Examples/Voice.antt =====
-- Voice chat datagrams and the states of a voice chat gateway.
use mc_router.Prelude.{
  ◌+◌, ℕ, ◌<◌, ◌≤◌, ◌^◌, ◌≡◌, ◌≢◌, ◌⊎◌, inl, inr, refl, arith, some, none, Bool, true, false, Bytes,
  List, [], ◌∷◌, ◌++◌, codes, length, lookup, bytes_Eq, All,
}
use mathlib.Core.List.{Memᴰ}
use mathlib.Core.List.Memᴰ.{head}
use mc_router.VoiceChat.Packet.{ClientPacket, uuid_string}
use mc_router.VoiceChat.PacketLaws.{
  envelope, parse_client_packet-envelope, IsEnvelope, parse_client_packet-IsEnvelope,
}
use mc_router.VoiceChat.State.{
  new_registration, Config, Registration, Session, Runtime, put_registration, lookup_registration,
  publish_session, dynamic_session_key,
}
use mc_router.VoiceChat.Handlers.{
  handle_registration, Request, put, post, delete, required, handle_put, handle_refresh,
  handle_delete, Forwarded, forwarded, forward_client_packet, expire_registrations,
}
use mc_router.VoiceChat.Steps.{here, next, puts, publishes, started, IsBounded, Reach-IsBounded}
use mc_router.VoiceChat.Leases.{IsAuthorised, forward_client_packet-IsAuthorised}
use mc_router.VoiceChat.Api.{IsEntitled, handle_registration-IsEntitled}
use mc_router.VoiceChat.Backend.{
  datagram, sent, read_backend, IsDeliverable, read_backend-IsDeliverable,
}
use mc_router.VoiceChat.Authority.{NoSession, handle_put-takes_over}
use mc_router.VoiceChat.Expiry.{expire_registrations-NoSession, lookup_registration-leaves_sessions}

abbrev player : Bytes
player = 0 ∷ 1 ∷ 2 ∷ 3 ∷ 4 ∷ 5 ∷ 6 ∷ 7 ∷ 8 ∷ 9 ∷ 10 ∷ 171 ∷ 205 ∷ 239 ∷ 254 ∷ 255 ∷ []

abbrev sound : Bytes
sound = 42 ∷ 43 ∷ 44 ∷ []

abbrev envelope_bytes : Bytes
envelope_bytes = envelope player sound

abbrev packet : ClientPacket
packet = record { player_uuid = player; encrypted_payload = sound }

parse_client_packet-IsEnvelope_example : IsEnvelope envelope_bytes packet
parse_client_packet-IsEnvelope_example =
    parse_client_packet-IsEnvelope envelope_bytes packet
      (parse_client_packet-envelope player sound refl (omega arith))

abbrev voice : Config
voice = record {
  registration_ttl = 90;
  max_registrations = 2;
  idle_timeout = 60;
  max_sessions = 2;
  max_packet_size = 2048;
  backends = (codes "survival", codes "10.0.0.9:24454") ∷ [];
  tokens = (codes "secret", codes "survival") ∷ [];
}

abbrev registration : Registration
registration = record {
  backend_id = codes "survival";
  owner_id = codes "plugin";
  lease_id = codes "lease-1";
  generation = 1;
  expires_at = 100;
}

abbrev session : Session
session = record {
  id = 0;
  player_uuid = player;
  client = codes "203.0.113.7:4000";
  backend_id = codes "survival";
  lease_id = codes "lease-1";
  generation = 1;
  last_activity = 20;
}

abbrev client : Bytes
client = codes "203.0.113.7:4000"

abbrev running : Runtime
running = record {
  closed = false;
  registrations = (player, registration) ∷ [];
  sessions = (dynamic_session_key player client, session) ∷ [];
  next_id = 1;
}

abbrev first_put : Runtime
first_put =
    (put_registration voice 10 (codes "lease-1") (codes "survival") player (codes "plugin")
      started).1

abbrev two_steps : Runtime
two_steps = (publish_session voice (dynamic_session_key player client) session first_put).1

Reach-IsBounded_example : IsBounded voice two_steps
Reach-IsBounded_example = Reach-IsBounded voice two_steps (
    next (next here (puts started 10 (codes "lease-1") (codes "survival") player (codes "plugin")))
      (publishes first_put (dynamic_session_key player client) session))

forwards :
    (forward_client_packet voice 30 client envelope_bytes true true running).0
    ≡ forwarded session envelope_bytes
unfolding forward_client_packet mc_router.VoiceChat.Handlers.after_lookup lookup_registration lookup
    mc_router.Prelude.bytes_eq mc_router.VoiceChat.Handlers.deliver
    mc_router.VoiceChat.Handlers.session_for mc_router.VoiceChat.Handlers.after_reuse
    mc_router.VoiceChat.State.reuse_session mc_router.Go.Hex.encode mc_router.Go.Hex.hex_digit
    uuid_string
forwards =
    rw (forward_client_packet, parse_client_packet-envelope player sound refl (omega arith)) refl

forward_client_packet-IsAuthorised_example :
    (envelope_bytes ≡ envelope_bytes) × IsAuthorised 30 envelope_bytes running session
forward_client_packet-IsAuthorised_example =
    forward_client_packet-IsAuthorised voice 30 client envelope_bytes envelope_bytes true true
      running session forwards

found : lookup player running.registrations ≡ some registration
unfolding lookup mc_router.Prelude.bytes_eq
found = refl

expire_registrations-NoSession_example :
    (lookup player (expire_registrations 101 running).registrations ≡ none)
    × NoSession player (expire_registrations 101 running)
expire_registrations-NoSession_example =
    expire_registrations-NoSession 101 player running registration found (omega arith)

lookup_registration-leaves_sessions_example :
    (lookup player (lookup_registration 101 player running).1.registrations ≡ none)
    × Memᴰ
        (dynamic_session_key player client, session)
        (expire_registrations 500 (lookup_registration 101 player running).1).sessions
lookup_registration-leaves_sessions_example =
    lookup_registration-leaves_sessions 101 500 running registration
      (dynamic_session_key player client, session) found (omega arith) (head refl)

abbrev request : Request
request = record {
  method = put;
  path = codes "/v1/voicechat/registrations/00010203-0405-0607-0809-0aabcdeffeff";
  authorization = codes "Bearer secret";
  owner = some (codes "plugin");
  lease = some (codes "lease-1");
}

handle_registration-IsEntitled_example :
    ((handle_registration voice 50 (some (codes "lease-2")) request running).1 ≡ running)
    ⊎ IsEntitled voice request running
handle_registration-IsEntitled_example =
    handle_registration-IsEntitled voice 50 (some (codes "lease-2")) request running

delivers :
    (read_backend voice 30
      (dynamic_session_key player client)
      session
      true
      (datagram sound)
      running).0
    ≡ sent sound
unfolding read_backend mc_router.VoiceChat.State.session_is_current lookup
    mc_router.Prelude.bytes_eq uuid_string mc_router.Go.Hex.encode mc_router.Go.Hex.hex_digit
delivers = refl

read_backend-IsDeliverable_example :
    IsDeliverable voice (dynamic_session_key player client) session sound (datagram sound) running
read_backend-IsDeliverable_example =
    read_backend-IsDeliverable voice 30 (dynamic_session_key player client) sound session true
      (datagram sound) running delivers

owner-required : required request.owner ≡ some (codes "plugin")
unfolding required mc_router.Go.Text.trim_space
owner-required = refl

handle_put-takes_over_example :
    NoSession player
      (handle_put voice 50 (some (codes "lease-2")) request (codes "survival") player running).1
    × (lookup player
          (handle_put voice 50
            (some (codes "lease-2"))
            request
            (codes "survival")
            player
            running).1.registrations
        ≡ some (record {
          backend_id = codes "survival";
          owner_id = codes "plugin";
          lease_id = codes "lease-2";
          generation = 2;
          expires_at = 50 + voice.registration_ttl;
        }))
handle_put-takes_over_example =
    handle_put-takes_over voice 50 (codes "lease-2") (codes "plugin") request (codes "survival")
      player running registration refl found owner-required
