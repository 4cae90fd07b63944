-- ===== src/Config/Sections.antt =====
-- The checks on the sections of config.go that stand alone: each returns the errors it found.
use mc_router.Prelude.{
  ◌*◌, Bool, true, not, ◌&&◌, ◌||◌, Option, none, some, List, [], ◌∷◌, ◌++◌, Bytes, if◌then◌else◌,
  any, ◌==◌, bytes_Eq, lookup, insert,
}
use mc_router.Prelude.Int.{pos, ltb_ℤ}
use mc_router.Go.Text.{trim_space, is_blank, is_empty}
use mc_router.HostAddr.{normalize}
use mc_router.BedrockRoute.{normalize_host}
use mc_router.ClientPolicy as Policy
use mc_router.Config.{
  ClientPolicy, ClientRateLimit, ConfigReload, StatusOverride, UdpRelay, Bedrock, BedrockRoute,
  KubernetesDiscovery, ScalerWebhook, Availability, AvailabilityBackend, Float64, finite, second,
  max_client_rate_limit_idle_timeout, max_client_rate_limit_entries, min_config_reload_debounce,
  max_config_reload_debounce, max_udp_relay_idle_timeout, max_udp_relay_sessions,
  max_udp_relay_packet_size, bedrock_mode_udp_forward, bedrock_mode_host_proxy,
  kubernetes_discovery_mode_annotations,
}
use mc_router.Config.Fields.{
  Env, Errors, report, not_positive, is_negative, is_dns_label, validate_backend, udp_backend_ok,
  validate_annotation_prefix, http_url, contains_any,
}

unfoldable pub validate_client_policy : ClientPolicy → Errors
validate_client_policy p = elim (Policy.new p.allow p.deny) [
  | none ↦ "clientPolicy" ∷ []
  | some policy ↦ []
]

abbrev pub bad_rate : Float64 → Bool
bad_rate (finite m e) = not_positive m
bad_rate _ = true

unfoldable pub validate_client_rate_limit : ClientRateLimit → Errors
validate_client_rate_limit l =
    if not l.enabled
    then []
    else report (bad_rate l.connections_per_second) "connectionsPerSecond"
      ++ (report (ltb_ℤ l.burst (pos 1)) "burst"
          ++ (report
                (not_positive l.idle_timeout
                  || ltb_ℤ max_client_rate_limit_idle_timeout l.idle_timeout)
                "idleTimeout"
              ++ report
                  (ltb_ℤ l.max_entries (pos 1) || ltb_ℤ max_client_rate_limit_entries l.max_entries)
                  "maxEntries"))

unfoldable pub validate_config_reload : ConfigReload → Errors
validate_config_reload r =
    if not r.watch
    then []
    else report
        (ltb_ℤ r.debounce min_config_reload_debounce || ltb_ℤ max_config_reload_debounce r.debounce)
        "configReload.debounce"

unfoldable pub validate_status_override : Option StatusOverride → Errors
validate_status_override none = []
validate_status_override (some o) =
    report (is_blank o.motd) "motd"
    ++ (report (is_blank o.protocol_name) "protocolName"
        ++ (report (is_negative o.protocol_version) "protocolVersion"
            ++ (report (is_negative o.max_players) "maxPlayers"
                ++ report (is_negative o.online_players) "onlinePlayers")))

-- A listen address that is given and resolves.
abbrev pub bad_udp_listen : Env → Bytes → Bool
bad_udp_listen env listen = is_blank listen || not (env.resolve_udp listen)

unfoldable pub validate_udp_relay : Env → UdpRelay → Errors
validate_udp_relay env r =
    if not r.enabled
    then []
    else report (bad_udp_listen env r.listen) "udpRelay.listen"
      ++ (report (not (udp_backend_ok r.backend)) "udpRelay.backend"
          ++ (report (not_positive r.idle_timeout) "udpRelay.idleTimeout"
              ++ (report (ltb_ℤ max_udp_relay_idle_timeout r.idle_timeout) "udpRelay.idleTimeout"
                  ++ (report (not_positive r.backend_dial_timeout) "udpRelay.backendDialTimeout"
                      ++ (report (not_positive r.max_sessions) "udpRelay.maxSessions"
                          ++ (report (ltb_ℤ max_udp_relay_sessions r.max_sessions)
                                "udpRelay.maxSessions"
                              ++ (report (not_positive r.max_packet_size) "udpRelay.maxPacketSize"
                                  ++ report (ltb_ℤ max_udp_relay_packet_size r.max_packet_size)
                                      "udpRelay.maxPacketSize")))))))

-- The hosts of one route: the errors, and the hosts seen so far.
unfoldable pub bedrock_hosts :
    List Bytes → List (Bytes × Bytes) → Bytes → Errors × List (Bytes × Bytes)
bedrock_hosts [] seen name = ([], seen)
bedrock_hosts (host ∷ hosts) seen name = elim (normalize_host host) [
  | none ↦ ("hosts" ∷ (bedrock_hosts hosts seen name).0, (bedrock_hosts hosts seen name).1)
  | some h ↦ elim (lookup h seen) [
    | some other ↦ ("hosts" ∷ (bedrock_hosts hosts seen name).0, (bedrock_hosts hosts seen name).1)
    | none ↦ bedrock_hosts hosts (insert h name seen) name
  ]
]

unfoldable pub bedrock_name : BedrockRoute → List (Bytes × Bytes) → Errors
bedrock_name r names =
    if is_blank r.name
    then "name" ∷ []
    else report (not (trim_space r.name == r.name)) "name"
      ++ elim (lookup (trim_space r.name) names) [ none ↦ [] | some other ↦ "name" ∷ [] ]

-- The loop over the routes, with the names and the hosts seen so far.
unfoldable pub bedrock_routes :
    List BedrockRoute → List (Bytes × Bytes) → List (Bytes × Bytes) → Errors
bedrock_routes [] names hosts = []
bedrock_routes (r ∷ rs) names hosts =
    bedrock_name r names
    ++ ((bedrock_hosts r.hosts hosts (trim_space r.name)).0
        ++ (report (not (udp_backend_ok r.backend)) "backend"
            ++ bedrock_routes rs
                (if is_blank r.name then names else insert (trim_space r.name) r.name names)
                (bedrock_hosts r.hosts hosts (trim_space r.name)).1))

unfoldable pub validate_bedrock : Env → Bedrock → Errors
validate_bedrock env b =
    if not b.enabled
    then []
    else report (bad_udp_listen env b.listen) "bedrock.listen"
      ++ (report
            (not (
              is_empty b.mode
              || b.mode == bedrock_mode_udp_forward
              || b.mode == bedrock_mode_host_proxy))
            "bedrock.mode"
          ++ (report (not (udp_backend_ok b.default_backend)) "bedrock.defaultBackend"
              ++ (bedrock_routes b.routes [] []
                  ++ (report (not_positive b.session_timeout) "bedrock.sessionTimeout"
                      ++ report (ltb_ℤ max_udp_relay_idle_timeout b.session_timeout)
                          "bedrock.sessionTimeout"))))

unfoldable pub validate_kubernetes_discovery : KubernetesDiscovery → Errors
validate_kubernetes_discovery k =
    if not k.enabled && is_empty k.namespace && is_empty k.mode && is_empty k.annotation_prefix
    then []
    else report (not (k.mode == kubernetes_discovery_mode_annotations)) "discovery.kubernetes.mode"
      ++ (report (not (validate_annotation_prefix k.annotation_prefix))
            "discovery.kubernetes.annotationPrefix"
          ++ (if is_blank k.namespace
              then []
              else report (not (trim_space k.namespace == k.namespace))
                  "discovery.kubernetes.namespace"
                ++ report (not (is_dns_label (trim_space k.namespace)))
                    "discovery.kubernetes.namespace"))

-- This check stops at its first error.
unfoldable pub validate_scaler_webhook : Env → ScalerWebhook → Errors
validate_scaler_webhook env w =
    if not w.enabled
    then []
    else if not (http_url env w.url)
    then "scalerWebhook.url" ∷ []
    else if not_positive w.timeout
    then "scalerWebhook.timeout" ∷ []
    else if ltb_ℤ (pos (30 * second)) w.timeout
    then "scalerWebhook.timeout" ∷ []
    else report (any (λ h. is_blank h.0 || contains_any (13 ∷ 10 ∷ []) h.0) w.headers)
        "scalerWebhook.headers"

-- The loop over the monitored backends, with the identifiers seen; it stops at its first error.
unfoldable pub availability_backends : List AvailabilityBackend → List (Bytes × Bytes) → Errors
availability_backends [] seen = []
availability_backends (b ∷ bs) seen =
    let rest = availability_backends bs (insert b.id b.id seen) in
    if not (is_dns_label b.id) then "availability.backends" ∷ [] else elim (lookup b.id seen) [
      | some other ↦ "availability.backends" ∷ []
      | none ↦
          if not (validate_backend b.address)
          then "availability.backends" ∷ []
          else elim (normalize b.server_address) [
            | none ↦ "availability.backends" ∷ []
            | some a ↦ rest
          ]
    ]

unfoldable pub validate_availability : Env → Availability → Errors
validate_availability env a =
    if not a.enabled
    then []
    else if ltb_ℤ a.interval (pos second)
    then "availability.interval" ∷ []
    else if not_positive a.timeout || ltb_ℤ a.interval a.timeout
    then "availability.timeout" ∷ []
    else if not (http_url env a.control_url)
    then "availability.controlURL" ∷ []
    else if is_blank a.token_env
    then "availability.tokenEnv" ∷ []
    else if is_empty a.backends
    then "availability.backends" ∷ []
    else availability_backends a.backends []
