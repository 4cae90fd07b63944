-- ===== src/Examples/Gateway.antt =====
-- A connection through the gateway, a history of reloads, and writes that take a part at a time.
use mc_router.Prelude.{
  ℕ, zero, suc, ◌≤◌, ◌≡◌, ◌⊎◌, inl, inr, refl, arith, some, none, Option, Bool, true, false, Bytes,
  List, [], ◌∷◌, ◌++◌, codes, if◌then◌else◌, nat_eq,
}
use mc_router.Config.{Float64}
use mc_router.Go.Netip.{Addr, v4}
use mc_router.Mcproto.Packet.{build_packet}
use mc_router.Mcproto.VarInt.{Read, done}
use mc_router.Mcproto.Handshake.{Handshake, default_limits, read_handshake, handshake_packet_id}
use mc_router.Mcproto.HandshakeRoundTrip.{handshake_fields}
use mc_router.HostAddr.{normalize}
use mc_router.Discovery.Merge.{MergeResult, merge_routes}
use mc_router.RateLimit as RateLimit
use mc_router.Examples.Routing.{env, config, lobby, table, built}
use mc_router.Examples.Clients.{numbers}
use mc_router.Router as Router
use mc_router.Proxy.Snapshot.{ServerState, Server, provided}
use mc_router.Proxy.Reloads.{
  IsConsistent, Call, file, discovery, run, run_all, Returns, run-Returns, run_all-IsConsistent,
}
use mc_router.Proxy.Writing.{Write, write_error, wrote, write_all, IsWritten, write_all-IsWritten}
use mc_router.Proxy.Answers.{Client, tcp, Dial, connected}
use mc_router.Proxy.Connection.{Network, Texts, Outcome, handle_conn, client_to_backend}
use mc_router.Proxy.Admission.{IsAdmitted}
use mc_router.Proxy.Metrics.{HasReason, IsSilent, handle_conn-HasReason, handle_conn-IsSilent}
use mc_router.Proxy.Relaying.{IsRouted, handle_conn-IsRouted}

abbrev pub float64 : Float64 → ℕ
float64 x = 1

-- A byte at first, and then another with an error.
abbrev failing : ℕ → Write
failing zero = wrote 1
failing (suc i) = write_error 1

write_all-IsWritten_example : IsWritten (1 ∷ 2 ∷ 3 ∷ []) (write_all failing (1 ∷ 2 ∷ 3 ∷ []))
write_all-IsWritten_example = write_all-IsWritten failing (1 ∷ 2 ∷ 3 ∷ [])

abbrev state : ServerState numbers float64
state = record {
  generation = 1;
  static_config = config;
  cfg = config;
  router = table;
  client_policy = record { allow = []; deny = [] };
  trusted_proxies = [];
  limiter = [];
  discovery_merge = merge_routes config.routes [] config.default_route;
  discovered_routes = [];
}

policy-parsed :
    mc_router.ClientPolicy.new config.client_policy.allow config.client_policy.deny
    ≡ some state.client_policy
unfolding mc_router.ClientPolicy.new mc_router.ClientPolicy.parse_prefixes
policy-parsed = refl

trusted-parsed :
    mc_router.ProxyProtocol.parse_cidrs config.proxy_protocol.trusted_proxies
    ≡ some state.trusted_proxies
unfolding mc_router.ProxyProtocol.parse_cidrs
trusted-parsed = refl

statics-normal : (mc_router.Discovery.Merge.static_routes config.routes []).0 ≡ config.routes
unfolding mc_router.Discovery.Merge.static_routes mc_router.Discovery.Merge.static_address
    mc_router.Discovery.Merge.static_aliases mc_router.Prelude.insert mc_router.Prelude.bytes_eq
    normalize mc_router.Go.Text.trim_suffix mc_router.Go.Text.to_lower mc_router.Go.Text.trim_space
    mc_router.Go.Text.before mc_router.Go.Utf8.utf8_valid mc_router.Go.Netip.parse_ip
    mc_router.Go.Text.trim_prefix mc_router.Go.Ipv4.parse_ipv4 mc_router.Go.Text.split
statics-normal = refl

pub routes-merged : config.routes ≡ (merge_routes config.routes [] config.default_route).routes
unfolding merge_routes mc_router.Discovery.Merge.collect mc_router.Discovery.Merge.select_candidates
    mc_router.Prelude.Sorting.sort_stable mc_router.Prelude.Sorting.insert_sorted
routes-merged = rw (statics-normal) refl

state-IsConsistent : IsConsistent numbers float64 env state
state-IsConsistent = record {
  table = built;
  policy = policy-parsed;
  trusted = trusted-parsed;
  merged = routes-merged;
}

abbrev server : Server numbers float64
server = record { state = state; listen_address = codes ":25565" }

run-Returns_example :
    Returns numbers float64 env server (run numbers float64 env (file (some config)) server)
run-Returns_example = run-Returns numbers float64 env (file (some config)) server

abbrev reloads : List (Call numbers float64 env)
reloads = file none ∷ discovery false false false (provided []) ∷ file (some config) ∷ []

run_all-IsConsistent_example :
    IsConsistent numbers float64 env (run_all numbers float64 env reloads server).state
    × (server.state.generation ≤ (run_all numbers float64 env reloads server).state.generation)
run_all-IsConsistent_example =
    run_all-IsConsistent numbers float64 env reloads server state-IsConsistent

abbrev login : Handshake
login = record {
  protocol_version = 767;
  server_address = codes "hub.example.net";
  server_port = 25565;
  next_state = 2;
}

abbrev packet : Bytes
packet = build_packet handshake_packet_id (handshake_fields login)

-- A client that sends its handshake and two bytes more, and then closes.
abbrev client : Client
client = record {
  remote = tcp (203 ∷ 0 ∷ 113 ∷ 7 ∷ []);
  sends = packet ++ 9 ∷ 8 ∷ [];
  stalls = false;
  deadline = λ i. true;
  writes = λ i j. write_error 0;
}

abbrev network : Network
network = record {
  dial = λ a. connected;
  writes = λ i. wrote 100;
  copied = 2;
  ended = client_to_backend;
}

abbrev texts : Texts
texts = record { status_override = λ o. []; status = []; login = [] }

packet-read : read_handshake (packet ++ 9 ∷ 8 ∷ []) default_limits ≡ done login packet (9 ∷ 8 ∷ [])
unfolding read_handshake mc_router.Mcproto.VarInt.read_varint mc_router.Mcproto.VarInt.read_loop
    build_packet mc_router.Mcproto.VarInt.write_varint mc_router.Mcproto.VarInt.write_loop
    handshake_fields mc_router.Mcproto.Packet.encode_string mc_router.Mcproto.Packet.bad_length
    mc_router.Mcproto.Handshake.read_payload mc_router.Mcproto.Packet.read_full
    mc_router.Mcproto.Handshake.parse_handshake_payload mc_router.Mcproto.Packet.read_int32
    mc_router.Mcproto.Packet.read_string mc_router.Mcproto.Packet.bad_string_length
    mc_router.Go.Utf8.utf8_valid mc_router.Go.Text.trim_space
    mc_router.Mcproto.Handshake.check_address mc_router.HostAddr.normalize
    mc_router.Go.Text.trim_suffix mc_router.Go.Text.to_lower mc_router.Go.Text.before
    mc_router.Go.Netip.parse_ip mc_router.Go.Text.trim_prefix mc_router.Go.Ipv4.parse_ipv4
    mc_router.Go.Text.split mc_router.Mcproto.Handshake.parse_tail
    mc_router.Mcproto.Handshake.known_state
packet-read = refl

hub-selected :
    Router.select table (mc_router.Mcproto.Handshake.route_address login)
    ≡ Router.ok (
        Router.entry_selection (record {
          route = Router.stored lobby (codes "lobby.example.net");
          match_kind = Router.match_kind_alias;
        }))
unfolding Router.select mc_router.HostAddr.normalize mc_router.Go.Text.trim_suffix
    mc_router.Go.Text.to_lower mc_router.Go.Text.trim_space mc_router.Go.Text.before
    mc_router.Mcproto.Handshake.route_address mc_router.Go.Utf8.utf8_valid
    mc_router.Go.Netip.parse_ip mc_router.Go.Text.trim_prefix mc_router.Go.Ipv4.parse_ipv4
    mc_router.Go.Text.split mc_router.Prelude.lookup mc_router.Prelude.bytes_eq
hub-selected = refl

hub-dialled :
    (handle_conn state texts network client 7 []).0.dialled ≡ some (codes "10.0.0.5:25565")
unfolding handle_conn mc_router.Proxy.Connection.identify mc_router.Proxy.Connection.after_limiter
    mc_router.Proxy.Connection.handle_handshake mc_router.Proxy.Connection.route
    mc_router.Proxy.Connection.serve_selection mc_router.Proxy.Connection.connect
    mc_router.Proxy.Connection.forward mc_router.Proxy.Answers.address_from_addr
    mc_router.Proxy.Answers.address_from_slice mc_router.ProxyProtocol.trusted
    mc_router.ClientPolicy.allows mc_router.ClientPolicy.contains_any mc_router.Go.Netip.unmap
    RateLimit.allow mc_router.Proxy.Answers.selected_backend
hub-dialled = rw (packet-read) (rw (mc_router.Proxy.Connection.route, hub-selected) refl)

handle_conn-IsRouted_example : IsRouted state texts network client 7 [] (codes "10.0.0.5:25565")
handle_conn-IsRouted_example =
    handle_conn-IsRouted state texts network client 7 [] (codes "10.0.0.5:25565") hub-dialled

handle_conn-IsSilent_example :
    IsAdmitted state texts network client 7 []
    ⊎ IsSilent (handle_conn state texts network client 7 []).0
handle_conn-IsSilent_example = handle_conn-IsSilent state texts network client 7 []

handle_conn-HasReason_example : HasReason (handle_conn state texts network client 7 []).0
handle_conn-HasReason_example = handle_conn-HasReason state texts network client 7 []
