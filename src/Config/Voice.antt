-- ===== src/Config/Voice.antt =====
-- validateVoiceChat of config.go. The map of backends is a list in the order of its iteration; the
-- check stores each backend's token in it.
use mc_router.Prelude.{
  not, ◌||◌, Option, none, some, List, [], ◌∷◌, ◌++◌, Bytes, if◌then◌else◌, bytes_Eq, lookup,
  insert,
}
use mc_router.Prelude.Int.{ltb_ℤ}
use mc_router.Go.Text.{is_blank, is_empty}
use mc_router.Config.{
  VoiceChat, VoiceRegistration, VoiceSession, VoiceBackend, max_udp_relay_idle_timeout,
  max_udp_relay_sessions, max_udp_relay_packet_size, max_voice_chat_registrations,
}
use mc_router.Config.Fields.{Env, Errors, report, not_positive, contains_any, udp_backend_ok}

unfoldable pub validate_registration : Env → VoiceRegistration → Errors
validate_registration env r =
    report (is_blank r.listen || not (env.resolve_tcp r.listen)) "voiceChat.registration.listen"
    ++ (report (not_positive r.registration_ttl) "voiceChat.registration.registrationTTL"
        ++ (report (ltb_ℤ max_udp_relay_idle_timeout r.registration_ttl)
              "voiceChat.registration.registrationTTL"
            ++ (report (not_positive r.request_timeout) "voiceChat.registration.requestTimeout"
                ++ (report (not_positive r.max_registrations)
                      "voiceChat.registration.maxRegistrations"
                    ++ report (ltb_ℤ max_voice_chat_registrations r.max_registrations)
                        "voiceChat.registration.maxRegistrations"))))

unfoldable pub validate_session : VoiceSession → Errors
validate_session s =
    report (not_positive s.idle_timeout) "voiceChat.session.idleTimeout"
    ++ (report (ltb_ℤ max_udp_relay_idle_timeout s.idle_timeout) "voiceChat.session.idleTimeout"
        ++ (report (not_positive s.backend_dial_timeout) "voiceChat.session.backendDialTimeout"
            ++ (report (not_positive s.max_sessions) "voiceChat.session.maxSessions"
                ++ (report (ltb_ℤ max_udp_relay_sessions s.max_sessions)
                      "voiceChat.session.maxSessions"
                    ++ (report (not_positive s.max_packet_size) "voiceChat.session.maxPacketSize"
                        ++ report (ltb_ℤ max_udp_relay_packet_size s.max_packet_size)
                            "voiceChat.session.maxPacketSize")))))

-- What is checked of a backend before its token is read.
unfoldable pub backend_errors : Bytes → VoiceBackend → Errors
backend_errors id b =
    report (is_blank id) "voiceChat.backends"
    ++ (report (contains_any (32 ∷ 9 ∷ 13 ∷ 10 ∷ 47 ∷ []) id) "voiceChat.backends"
        ++ report (not (udp_backend_ok b.udp)) "voiceChat.backends.udp")

-- The token that a backend may take, given the tokens that others have.
unfoldable pub usable_token : Env → VoiceBackend → List (Bytes × Bytes) → Option Bytes
usable_token env b seen_tokens =
    if is_blank b.token_env
    then none
    else if is_blank (env.getenv b.token_env)
    then none
    else elim (lookup (env.getenv b.token_env) seen_tokens) [
      | some other ↦ none
      | none ↦ some (env.getenv b.token_env)
    ]

-- The loop over the backends: the errors and the backends with their tokens.
unfoldable pub validate_backends :
    Env → List (Bytes × VoiceBackend) → List (Bytes × Bytes) → Errors × List (Bytes × VoiceBackend)
validate_backends env [] seen_tokens = ([], [])
validate_backends env ((id, b) ∷ rest) seen_tokens = elim (usable_token env b seen_tokens) [
  | none ↦ (
    backend_errors id b
        ++ ("voiceChat.backends.tokenEnv" ∷ (validate_backends env rest seen_tokens).0),
    (id, b) ∷ (validate_backends env rest seen_tokens).1,
  )
  | some token ↦ (
    backend_errors id b ++ (validate_backends env rest (insert token id seen_tokens)).0,
    (id, record b { token = token }) ∷ (validate_backends env rest (insert token id seen_tokens)).1,
  )
]

unfoldable pub validate_voice_chat : Env → VoiceChat → Errors × VoiceChat
validate_voice_chat env v = if not v.enabled then ([], v) else (
  report (is_blank v.listen || not (env.resolve_udp v.listen)) "voiceChat.listen"
      ++ (validate_registration env v.registration
          ++ (validate_session v.session
              ++ (report (is_empty v.backends) "voiceChat.backends"
                  ++ (validate_backends env v.backends []).0))),
  record v { backends = (validate_backends env v.backends []).1 },
)
