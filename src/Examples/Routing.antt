-- ===== src/Examples/Routing.antt =====
-- A configuration with one route, and a table of Bedrock routes.
use mc_router.Prelude.{
  ◌≡◌, ◌≢◌, ◌↔◌, refl, sym, ◌∙◌, some, none, true, false, Bytes, List, [], ◌∷◌, codes,
}
use mathlib.Core.List.Memᴰ.{head}
use mc_router.HostAddr.{normalize}
use mc_router.Config.{Config, Route, StatusOverride, defaults}
use mc_router.Config.Fields.{Env, Errors}
use mc_router.Config.Validate.{
  validate, validate_sections, validate_services, validate_unknown_host, validate_default_route,
}
use mc_router.Config.Routes.{validate_routes, identities}
use mc_router.Router.{
  Result, ok, Router, RouteEntry, new, select, add_routes, stored, entry_selection,
  match_kind_alias, match_kind_canonical,
}
use mc_router.Router.Laws.{new_iff, select-server_address, select-alias}
use mc_router.BedrockRoute as Bedrock
use mc_router.BedrockRoute.Laws.{select-configured_host}

-- A machine that resolves every address and has an empty environment.
abbrev pub env : Env
env = record {
  resolve_udp = λ _. true;
  resolve_tcp = λ _. true;
  getenv = λ _. [];
  request_uri = λ _. none;
}

abbrev pub lobby : Route
lobby = record {
  server_address = codes "lobby.example.net";
  aliases = codes "hub.example.net" ∷ [];
  backend = codes "10.0.0.5:25565";
  status_backend = [];
  status_override = none;
  source = codes "static";
}

abbrev pub config : Config
config = record defaults { routes = lobby ∷ [] }

sections-valid : validate_sections env config ≡ []
unfolding validate_sections mc_router.Go.Text.trim_space
    mc_router.Config.Sections.validate_client_policy mc_router.ClientPolicy.new
    mc_router.ClientPolicy.parse_prefixes mc_router.Config.Sections.validate_client_rate_limit
    mc_router.Config.Validate.validate_trusted_proxies mc_router.ProxyProtocol.parse_cidrs
    mc_router.Config.Sections.validate_scaler_webhook
    mc_router.Config.Sections.validate_config_reload mc_router.Config.Sections.validate_availability
    mc_router.Config.Validate.validate_metrics
sections-valid = refl

services-valid : validate_services env config ≡ []
unfolding validate_services mc_router.Config.Sections.validate_udp_relay
    mc_router.Config.Sections.validate_bedrock mc_router.Config.Voice.validate_voice_chat
    mc_router.Config.Validate.validate_listeners
    mc_router.Config.Sections.validate_kubernetes_discovery mc_router.Prelude.bytes_eq
    mc_router.Config.Fields.validate_annotation_prefix mc_router.Go.Text.trim_space
    mc_router.Go.Text.contains_byte normalize mc_router.Go.Text.trim_suffix
    mc_router.Go.Text.to_lower mc_router.Go.Text.before mc_router.Go.Utf8.utf8_valid
    mc_router.Go.Netip.parse_ip mc_router.Go.Text.trim_prefix mc_router.Go.Ipv4.parse_ipv4
    mc_router.Go.Text.split mc_router.Config.Validate.validate_fallback
services-valid = refl

unknown_host-valid : validate_unknown_host config.unknown_host_policy config.default_route ≡ []
unfolding validate_unknown_host mc_router.Prelude.bytes_eq
unknown_host-valid = refl

default_route-valid : validate_default_route config.default_route ≡ []
unfolding validate_default_route
default_route-valid = refl

routes-valid : validate_routes config.routes [] ≡ []
unfolding validate_routes mc_router.Config.Routes.check_identities identities normalize
    mc_router.Go.Text.trim_suffix mc_router.Go.Text.to_lower mc_router.Go.Text.trim_space
    mc_router.Go.Text.before mc_router.Go.Utf8.utf8_valid mc_router.Go.Netip.parse_ip
    mc_router.Go.Text.trim_prefix mc_router.Go.Ipv4.parse_ipv4 mc_router.Go.Text.split
    mc_router.Prelude.lookup mc_router.Prelude.insert mc_router.Prelude.bytes_eq
    mc_router.Config.Routes.check_targets mc_router.Config.Fields.validate_backend
    mc_router.Go.HostPort.split_host_port mc_router.Go.Text.cut_last mc_router.Go.Text.contains_byte
    mc_router.Config.Fields.port_ok mc_router.Go.Conv.atoi
    mc_router.Config.Sections.validate_status_override
routes-valid = refl

pub config-valid : (validate env config).0 ≡ []
unfolding validate
config-valid =
    rw (sections-valid, services-valid, unknown_host-valid, default_route-valid, routes-valid) refl

new_iff_example : ((validate env config).0 ≡ []) ↔ ((r : Router) × (new env config ≡ ok r))
new_iff_example = new_iff env config

abbrev pub table : Router
table = record {
  routes =
      (
        codes "lobby.example.net",
        record {
          route = stored lobby (codes "lobby.example.net");
          match_kind = match_kind_canonical;
        },
      )
      ∷ (
        codes "hub.example.net",
        record { route = stored lobby (codes "lobby.example.net"); match_kind = match_kind_alias },
      )
      ∷ [];
  default_backend = [];
  unknown_host_policy = codes "deny";
}

table-entries : add_routes config.routes [] ≡ ok table.routes
unfolding add_routes mc_router.Router.add_route normalize mc_router.Go.Text.trim_suffix
    mc_router.Go.Text.to_lower mc_router.Go.Text.trim_space mc_router.Go.Text.before
    mc_router.Go.Utf8.utf8_valid mc_router.Go.Netip.parse_ip mc_router.Go.Text.trim_prefix
    mc_router.Go.Ipv4.parse_ipv4 mc_router.Go.Text.split mc_router.Router.add_aliases
    mc_router.Prelude.insert mc_router.Prelude.bytes_eq
table-entries = refl

pub built : new env config ≡ ok table
unfolding new
built = rw (new, config-valid, table-entries) refl

abbrev asked : Bytes
asked = codes "LOBBY.example.net."

asked-lobby : normalize asked ≡ normalize lobby.server_address
unfolding normalize mc_router.Go.Text.before mc_router.Go.Text.trim_space mc_router.Go.Text.to_lower
    mc_router.Go.Text.trim_suffix
asked-lobby = refl

select-server_address_example :
    (k : Bytes) × (normalize asked ≡ some k)
    × (select table asked
        ≡ ok (record {
          backend = lobby.backend;
          status_backend = lobby.status_backend;
          matched_by = codes "route";
          match_kind = codes "canonical";
          route_source = codes "static";
          canonical_server_address = k;
          status_override = lobby.status_override;
        }))
select-server_address_example =
    select-server_address env config table lobby asked built (head refl) asked-lobby

abbrev hub : Bytes
hub = codes "hub.example.net"

pub hub-normal : normalize hub ≡ some hub
unfolding normalize mc_router.Go.Text.trim_suffix mc_router.Go.Text.to_lower
    mc_router.Go.Text.trim_space mc_router.Go.Text.before mc_router.Go.Utf8.utf8_valid
    mc_router.Go.Netip.parse_ip mc_router.Go.Text.trim_prefix mc_router.Go.Ipv4.parse_ipv4
    mc_router.Go.Text.split
hub-normal = refl

select-alias_example :
    (k : Bytes) × (normalize lobby.server_address ≡ some k)
    × (select table hub
        ≡ ok (record {
          backend = lobby.backend;
          status_backend = lobby.status_backend;
          matched_by = codes "route";
          match_kind = codes "alias";
          route_source = codes "static";
          canonical_server_address = k;
          status_override = lobby.status_override;
        }))
select-alias_example =
    select-alias env config table lobby hub hub built (head refl) (head refl) refl
      (λ h. cc (hub-normal))

abbrev survival : Bedrock.Route
survival = record {
  name = codes "survival";
  hosts = codes "be.example.net" ∷ [];
  backend = codes "10.0.0.7:19132";
}

abbrev bedrock_table : Bedrock.Router
bedrock_table = record {
  default_backend = codes "10.0.0.6:19132";
  hosts =
      (
        codes "be.example.net",
        record { route_name = codes "survival"; backend = codes "10.0.0.7:19132"; matched = true },
      )
      ∷ [];
}

bedrock_built : Bedrock.new_router (codes "10.0.0.6:19132") (survival ∷ []) ≡ some bedrock_table
unfolding Bedrock.new_router Bedrock.add_routes Bedrock.add_hosts Bedrock.normalize_host
    mc_router.Go.Text.trim_space Bedrock.host_part mc_router.Go.HostPort.split_host_port
    mc_router.Go.Text.cut_last Bedrock.count_byte normalize mc_router.Go.Text.trim_suffix
    mc_router.Go.Text.to_lower mc_router.Go.Text.before mc_router.Go.Utf8.utf8_valid
    mc_router.Go.Netip.parse_ip mc_router.Go.Text.trim_prefix mc_router.Go.Ipv4.parse_ipv4
    mc_router.Go.Text.split mc_router.Prelude.lookup mc_router.Prelude.insert
bedrock_built = refl

abbrev with_port : Bytes
with_port = codes "BE.example.net:19132"

with_port-host : Bedrock.normalize_host with_port ≡ Bedrock.normalize_host (codes "be.example.net")
unfolding Bedrock.normalize_host mc_router.Go.Text.trim_space Bedrock.host_part Bedrock.count_byte
    Bedrock.cut_port mc_router.Go.HostPort.split_host_port mc_router.Go.Text.cut
    mc_router.Go.Text.contains_byte mc_router.Go.Text.cut_last normalize mc_router.Go.Text.before
    mc_router.Go.Text.to_lower
with_port-host = refl

select-configured_host_example :
    Bedrock.select bedrock_table with_port
    ≡ record { route_name = codes "survival"; backend = codes "10.0.0.7:19132"; matched = true }
select-configured_host_example =
    select-configured_host (codes "10.0.0.6:19132") (survival ∷ []) bedrock_table survival
      (codes "be.example.net") with_port bedrock_built (head refl) (head refl) with_port-host
