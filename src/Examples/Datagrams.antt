-- ===== src/Examples/Datagrams.antt =====
-- A UDP relay with two clients.
use mc_router.Prelude.{
  ℕ, ◌+◌, ◌≤◌, ◌≡◌, ◌≢◌, ◌⊎◌, inl, inr, refl, arith, some, none, Bool, true, false, not, Bytes,
  List, [], ◌∷◌, codes, length, select, leb,
}
use mc_router.Go.Netip.{v4}
use mc_router.UdpRelay.Resolver.{UdpAddr, Limits, Resolver, static_resolver}
use mc_router.UdpRelay.Sessions.{Session, Relay, publish_session, touch}
use mc_router.UdpRelay.Relay.{serve, forwarded, expire_sessions, new_session}
use mc_router.UdpRelay.Steps.{
  IsWellFormed, Reach, here, next, publishes, started, Reach-IsWellFormed,
}
use mc_router.UdpRelay.Expiry.{expire_sessions-select}
use mc_router.UdpRelay.Forwarding.{IsSessionOf, serve-IsSessionOf}

abbrev limits : Limits
limits = record { idle_timeout = 30; max_sessions = 2; max_packet_size = 1500 }

abbrev backend : UdpAddr
backend = record { ip = some (v4 (10 ∷ 0 ∷ 0 ∷ 8 ∷ [])); port = 24454 }

abbrev resolver : Resolver
resolver = static_resolver backend

abbrev alice : Bytes
alice = codes "203.0.113.7:4000"

abbrev bob : Bytes
bob = codes "203.0.113.8:4000"

abbrev alice_session : Session
alice_session = new_session 10 alice backend 0

abbrev bob_session : Session
bob_session = new_session 35 bob backend 1

abbrev one_client : Relay
one_client = (publish_session limits alice_session started).1

abbrev two_clients : Relay
two_clients = (publish_session limits bob_session one_client).1

two_clients-Reach : Reach limits started two_clients
two_clients-Reach =
    next (next here (publishes started alice_session)) (publishes one_client bob_session)

Reach-IsWellFormed_example : IsWellFormed limits two_clients
Reach-IsWellFormed_example = Reach-IsWellFormed limits two_clients two_clients-Reach

expire_sessions-select_example : expire_sessions limits 40 two_clients ≡ record two_clients {
  sessions = select (λ x. not (leb (x.1.last_activity + 30) 40)) two_clients.sessions;
}
expire_sessions-select_example =
    expire_sessions-select limits 40 two_clients
      (Reach-IsWellFormed limits two_clients two_clients-Reach)

abbrev payload : Bytes
payload = 1 ∷ 2 ∷ []

abbrev quiet : Relay
quiet = record { closed = false; sessions = (alice, alice_session) ∷ []; next_id = 1 }

serves :
    (serve limits resolver 12 alice payload true true quiet).0 ≡ forwarded alice_session payload
unfolding serve mc_router.UdpRelay.Relay.forward_to_backend mc_router.UdpRelay.Relay.deliver
    mc_router.UdpRelay.Relay.session_for_client mc_router.UdpRelay.Sessions.find_session
    mc_router.Prelude.lookup mc_router.Prelude.bytes_eq
serves = refl

serve-IsSessionOf_example :
    (payload ≡ payload)
    × (length payload ≤ 1500)
    × IsSessionOf limits resolver alice quiet alice_session
serve-IsSessionOf_example =
    serve-IsSessionOf limits resolver 12 alice payload payload true true quiet alice_session serves
