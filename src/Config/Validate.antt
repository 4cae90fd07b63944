-- ===== src/Config/Validate.antt =====
-- Validate of config.go: the errors of every section, and the configuration with the tokens that the
-- check of the voice chat stores in it.
use mc_router.Prelude.{
  Bool, not, ◌&&◌, none, some, List, [], ◌∷◌, ◌++◌, Bytes, if◌then◌else◌, ◌==◌, bytes_Eq, nat_eq,
}
use mc_router.Go.Text.{is_blank, is_empty, byte_at}
use mc_router.ProxyProtocol.{parse_cidrs}
use mc_router.Config.{
  Config, Metrics, Fallback, FallbackStatus, DefaultRoute, unknown_host_deny, unknown_host_default,
  route_mode_allow,
}
use mc_router.Config.Fields.{Env, Errors, report, not_positive, is_negative, validate_backend}
use mc_router.Config.Sections.{
  validate_client_policy, validate_client_rate_limit, validate_config_reload, validate_udp_relay,
  validate_bedrock, validate_kubernetes_discovery, validate_scaler_webhook, validate_availability,
}
use mc_router.Config.Voice.{validate_voice_chat}
use mc_router.Config.Routes.{validate_routes}

unfoldable pub validate_trusted_proxies : List Bytes → Errors
validate_trusted_proxies values = elim (parse_cidrs values) [
  | none ↦ "proxyProtocol.trustedProxies" ∷ []
  | some prefixes ↦ []
]

abbrev starts_with_slash : Bytes → Bool
starts_with_slash path = not (is_empty path) && nat_eq (byte_at 0 path) b'/'

unfoldable pub validate_metrics : Metrics → Errors
validate_metrics m =
    if not m.enabled
    then []
    else report (is_blank m.listen) "metrics.listen"
      ++ (report (is_blank m.path) "metrics.path"
          ++ report (not (starts_with_slash m.path)) "metrics.path")

-- No two of the UDP listeners share an address.
unfoldable pub validate_listeners : Config → Errors
validate_listeners c =
    report
      (c.udp_relay.enabled && c.voice_chat.enabled && c.udp_relay.listen == c.voice_chat.listen)
      "udpRelay and voiceChat"
    ++ (report (c.bedrock.enabled && c.udp_relay.enabled && c.bedrock.listen == c.udp_relay.listen)
          "bedrock and udpRelay"
        ++ report
            (c.bedrock.enabled && c.voice_chat.enabled && c.bedrock.listen == c.voice_chat.listen)
            "bedrock and voiceChat")

unfoldable pub validate_fallback_status : FallbackStatus → Errors
validate_fallback_status s =
    report (is_blank s.motd) "fallback.status.motd"
    ++ (report (is_blank s.protocol_name) "fallback.status.protocolName"
        ++ (report (is_negative s.protocol_version) "fallback.status.protocolVersion"
            ++ (report (is_negative s.max_players) "fallback.status.maxPlayers"
                ++ report (is_negative s.online_players) "fallback.status.onlinePlayers")))

unfoldable pub validate_fallback : Fallback → Errors
validate_fallback f =
    (if f.enabled && f.status.enabled then validate_fallback_status f.status else [])
    ++ report (f.enabled && f.login.enabled && is_blank f.login.message) "fallback.login.message"

unfoldable pub validate_unknown_host : Bytes → DefaultRoute → Errors
validate_unknown_host policy d =
    if policy == unknown_host_deny
    then []
    else if policy == unknown_host_default
    then report (is_blank d.backend) "defaultRoute.backend"
    else "unknownHostPolicy" ∷ []

unfoldable pub validate_default_route : DefaultRoute → Errors
validate_default_route d =
    if is_empty d.backend
    then []
    else report (not (validate_backend d.backend)) "defaultRoute.backend"
      ++ (report (is_empty d.mode) "defaultRoute.mode"
          ++ report (not (d.mode == route_mode_allow)) "defaultRoute.mode")

-- What Validate checks in front of the routes, in its order.
unfoldable pub validate_sections : Env → Config → Errors
validate_sections env c =
    report (is_blank c.listen) "listen"
    ++ (report (not_positive c.handshake_timeout) "handshakeTimeout"
        ++ (report (not_positive c.backend_dial_timeout) "backendDialTimeout"
            ++ (validate_client_policy c.client_policy
                ++ (validate_client_rate_limit c.client_rate_limit
                    ++ (validate_trusted_proxies c.proxy_protocol.trusted_proxies
                        ++ (validate_scaler_webhook env c.scaler_webhook
                            ++ (validate_config_reload c.config_reload
                                ++ (validate_availability env c.availability
                                    ++ validate_metrics c.metrics))))))))

unfoldable pub validate_services : Env → Config → Errors
validate_services env c =
    validate_udp_relay env c.udp_relay
    ++ (validate_bedrock env c.bedrock
        ++ ((validate_voice_chat env c.voice_chat).0
            ++ (validate_listeners c
                ++ (validate_kubernetes_discovery c.discovery ++ validate_fallback c.fallback))))

unfoldable pub validate : Env → Config → Errors × Config
validate env c = (
  validate_sections env c
      ++ (validate_services env c
          ++ (validate_unknown_host c.unknown_host_policy c.default_route
              ++ (validate_default_route c.default_route ++ validate_routes c.routes []))),
  record c { voice_chat = (validate_voice_chat env c.voice_chat).1 },
)
