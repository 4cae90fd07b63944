-- ===== src/Config.antt =====
-- internal/config/config.go: the configuration and its defaults. Durations are in nanoseconds.
pub mod Fields
pub mod Sections
pub mod Voice
pub mod Routes
pub mod Validate
use mc_router.Prelude.{ℕ, ◌*◌, Bool, true, false, Option, none, some, List, [], ◌∷◌, Bytes, codes}
use mc_router.Prelude.Int.{ℤ, pos, negsuc}

abbrev pub unknown_host_deny : Bytes
unknown_host_deny = codes "deny"

abbrev pub unknown_host_default : Bytes
unknown_host_default = codes "default"

abbrev pub route_mode_allow : Bytes
route_mode_allow = codes "allow"

abbrev pub kubernetes_discovery_mode_annotations : Bytes
kubernetes_discovery_mode_annotations = codes "service-annotations"

abbrev pub bedrock_mode_udp_forward : Bytes
bedrock_mode_udp_forward = codes "udp-forward"

abbrev pub bedrock_mode_host_proxy : Bytes
bedrock_mode_host_proxy = codes "host-proxy"

abbrev pub default_kubernetes_annotation_prefix : Bytes
default_kubernetes_annotation_prefix = codes "mc-router.alexandergg.com"

abbrev pub millisecond : ℕ
millisecond = 1_000_000

abbrev pub second : ℕ
second = 1_000_000_000

abbrev pub minute : ℕ
minute = 60 * second

abbrev pub max_udp_relay_idle_timeout : ℤ
max_udp_relay_idle_timeout = pos (24 * 60 * minute)

abbrev pub max_udp_relay_sessions : ℤ
max_udp_relay_sessions = pos 65536

abbrev pub max_udp_relay_packet_size : ℤ
max_udp_relay_packet_size = pos 65535

abbrev pub max_voice_chat_registrations : ℤ
max_voice_chat_registrations = pos 65536

abbrev pub max_client_rate_limit_entries : ℤ
max_client_rate_limit_entries = pos 65536

abbrev pub max_client_rate_limit_idle_timeout : ℤ
max_client_rate_limit_idle_timeout = pos (24 * 60 * minute)

abbrev pub min_config_reload_debounce : ℤ
min_config_reload_debounce = pos (100 * millisecond)

abbrev pub max_config_reload_debounce : ℤ
max_config_reload_debounce = pos minute

-- A float64: a finite value is mantissa times a power of two.
pub data Float64 : Type 0 where
  nan plus_inf minus_inf : Float64
  finite : ℤ → ℤ → Float64

pub record ClientPolicy : Type 0 where
  pub allow : List Bytes
  pub deny : List Bytes

pub record ClientRateLimit : Type 0 where
  pub enabled : Bool
  pub connections_per_second : Float64
  pub burst : ℤ
  pub idle_timeout : ℤ
  pub max_entries : ℤ

pub record ProxyProtocol : Type 0 where
  pub trusted_proxies : List Bytes

pub record ScalerWebhook : Type 0 where
  pub enabled : Bool
  pub url : Bytes
  pub timeout : ℤ
  pub headers : List (Bytes × Bytes)

pub record ConfigReload : Type 0 where
  pub watch : Bool
  pub debounce : ℤ

pub record AvailabilityBackend : Type 0 where
  pub id : Bytes
  pub address : Bytes
  pub server_address : Bytes

pub record Availability : Type 0 where
  pub enabled : Bool
  pub interval : ℤ
  pub timeout : ℤ
  pub control_url : Bytes
  pub token_env : Bytes
  pub backends : List AvailabilityBackend

pub record FallbackLogin : Type 0 where
  pub enabled : Bool
  pub respond_on_route_denied : Option Bool
  pub message : Bytes

pub record FallbackStatus : Type 0 where
  pub enabled : Bool
  pub respond_on_route_denied : Option Bool
  pub respond_on_backend_failure : Bool
  pub motd : Bytes
  pub protocol_name : Bytes
  pub protocol_version : ℤ
  pub max_players : ℤ
  pub online_players : ℤ

pub record Fallback : Type 0 where
  pub enabled : Bool
  pub login : FallbackLogin
  pub status : FallbackStatus

pub record Metrics : Type 0 where
  pub enabled : Bool
  pub listen : Bytes
  pub path : Bytes

pub record UdpRelay : Type 0 where
  pub enabled : Bool
  pub listen : Bytes
  pub backend : Bytes
  pub idle_timeout : ℤ
  pub backend_dial_timeout : ℤ
  pub max_sessions : ℤ
  pub max_packet_size : ℤ

pub record BedrockRoute : Type 0 where
  pub name : Bytes
  pub hosts : List Bytes
  pub backend : Bytes

pub record Bedrock : Type 0 where
  pub enabled : Bool
  pub mode : Bytes
  pub listen : Bytes
  pub default_backend : Bytes
  pub session_timeout : ℤ
  pub routes : List BedrockRoute

pub record VoiceRegistration : Type 0 where
  pub listen : Bytes
  pub registration_ttl : ℤ
  pub request_timeout : ℤ
  pub max_registrations : ℤ

pub record VoiceSession : Type 0 where
  pub idle_timeout : ℤ
  pub backend_dial_timeout : ℤ
  pub max_sessions : ℤ
  pub max_packet_size : ℤ

pub record VoiceBackend : Type 0 where
  pub udp : Bytes
  pub token_env : Bytes
  pub token : Bytes

pub record VoiceChat : Type 0 where
  pub enabled : Bool
  pub listen : Bytes
  pub registration : VoiceRegistration
  pub session : VoiceSession
  pub backends : List (Bytes × VoiceBackend)

pub record KubernetesDiscovery : Type 0 where
  pub enabled : Bool
  pub namespace : Bytes
  pub mode : Bytes
  pub annotation_prefix : Bytes

pub record DefaultRoute : Type 0 where
  pub backend : Bytes
  pub mode : Bytes

pub record StatusOverride : Type 0 where
  pub motd : Bytes
  pub protocol_name : Bytes
  pub protocol_version : ℤ
  pub max_players : ℤ
  pub online_players : ℤ

pub record Route : Type 0 where
  pub server_address : Bytes
  pub aliases : List Bytes
  pub backend : Bytes
  pub status_backend : Bytes
  pub status_override : Option StatusOverride
  pub source : Bytes

pub record Config : Type 0 where
  pub listen : Bytes
  pub handshake_timeout : ℤ
  pub backend_dial_timeout : ℤ
  pub client_policy : ClientPolicy
  pub client_rate_limit : ClientRateLimit
  pub proxy_protocol : ProxyProtocol
  pub scaler_webhook : ScalerWebhook
  pub config_reload : ConfigReload
  pub availability : Availability
  pub metrics : Metrics
  pub udp_relay : UdpRelay
  pub bedrock : Bedrock
  pub voice_chat : VoiceChat
  pub fallback : Fallback
  pub discovery : KubernetesDiscovery
  pub default_route : DefaultRoute
  pub routes : List Route
  pub unknown_host_policy : Bytes

abbrev empty_text : Bytes
empty_text = []

-- The configuration before a file is read into it.
abbrev pub defaults : Config
defaults = record {
  listen = codes ":25565";
  handshake_timeout = pos (5 * second);
  backend_dial_timeout = pos (5 * second);
  client_policy = record { allow = []; deny = [] };
  client_rate_limit = record {
    enabled = false;
    connections_per_second = finite (pos 1) (pos 0);
    burst = pos 3;
    idle_timeout = pos (10 * minute);
    max_entries = pos 4096;
  };
  proxy_protocol = record { trusted_proxies = [] };
  scaler_webhook = record {
    enabled = false;
    url = empty_text;
    timeout = pos (2 * second);
    headers = [];
  };
  config_reload = record { watch = false; debounce = pos second };
  availability = record {
    enabled = false;
    interval = pos (10 * second);
    timeout = pos (3 * second);
    control_url = empty_text;
    token_env = empty_text;
    backends = [];
  };
  metrics = record { enabled = false; listen = codes ":9090"; path = codes "/metrics" };
  udp_relay = record {
    enabled = false;
    listen = codes ":24454";
    backend = codes "127.0.0.1:24454";
    idle_timeout = pos (30 * second);
    backend_dial_timeout = pos (5 * second);
    max_sessions = pos 4096;
    max_packet_size = max_udp_relay_packet_size;
  };
  bedrock = record {
    enabled = false;
    mode = bedrock_mode_udp_forward;
    listen = empty_text;
    default_backend = empty_text;
    session_timeout = pos (30 * second);
    routes = [];
  };
  voice_chat = record {
    enabled = false;
    listen = codes ":24454";
    registration = record {
      listen = codes "127.0.0.1:9091";
      registration_ttl = pos (30 * second);
      request_timeout = pos (5 * second);
      max_registrations = pos 4096;
    };
    session = record {
      idle_timeout = pos (30 * second);
      backend_dial_timeout = pos (5 * second);
      max_sessions = pos 4096;
      max_packet_size = max_udp_relay_packet_size;
    };
    backends = [];
  };
  fallback = record {
    enabled = false;
    login = record {
      enabled = false;
      respond_on_route_denied = some true;
      message = codes "Server unavailable. Please try again later.";
    };
    status = record {
      enabled = false;
      respond_on_route_denied = some true;
      respond_on_backend_failure = false;
      motd = codes "Server unavailable";
      protocol_name = codes "mc-gateway";
      protocol_version = pos 767;
      max_players = pos 0;
      online_players = pos 0;
    };
  };
  discovery = record {
    enabled = false;
    namespace = empty_text;
    mode = kubernetes_discovery_mode_annotations;
    annotation_prefix = default_kubernetes_annotation_prefix;
  };
  default_route = record { backend = empty_text; mode = route_mode_allow };
  routes = [];
  unknown_host_policy = unknown_host_deny;
}
