-- ===== src/Examples/Clients.antt =====
-- Client policies, PROXY headers and the rate limiter.
use mc_router.Prelude.{
  ℕ, ◌+◌, ◌-◌, ◌*◌, ◌≤◌, min, ◌≡◌, ◌≢◌, ◌⊎◌, refl, arith, some, none, Option, Bool, true, false,
  Bytes, List, [], ◌∷◌, codes, ltb, lookup, ◌++◌,
}
use mc_router.Go.Netip.{Addr, v4, Prefix, unmap, addr_Eq}
use mc_router.ClientPolicy.{Policy}
use mc_router.ProxyProtocol as Proxy
use mc_router.ProxyProtocol.Laws.{IsHeader, read-IsHeader}
use mc_router.RateLimit.{Float, Config, Entries, allow}
use mc_router.RateLimit.Laws.{IsBounded, allow-IsBounded, allow-other}

abbrev office : Prefix
office = record { addr = v4 (10 ∷ 1 ∷ 0 ∷ 0 ∷ []); bits = some 16 }

abbrev client : Addr
client = v4 (10 ∷ 1 ∷ 2 ∷ 3 ∷ [])

abbrev policy : Policy
policy = record { allow = office ∷ []; deny = [] }

abbrev line : Bytes
line = codes "PROXY TCP4 10.1.2.3 10.0.0.1 5000 25565" ++ 13 ∷ 10 ∷ []

line-read : Proxy.read (line ++ 16 ∷ 0 ∷ []) ≡ Proxy.ok (client, 16 ∷ 0 ∷ [])
unfolding Proxy.read Proxy.read_v1 Proxy.read_line Proxy.parse_fields mc_router.Go.Text.split
    mc_router.Prelude.bytes_eq mc_router.Go.Netip.parse_addr mc_router.Go.Ipv4.parse_ipv4 unmap
line-read = refl

read-IsHeader_example : IsHeader (line ++ 16 ∷ 0 ∷ []) client (16 ∷ 0 ∷ [])
read-IsHeader_example = read-IsHeader (line ++ 16 ∷ 0 ∷ []) client (16 ∷ 0 ∷ []) line-read

-- A number for a float, and a millisecond for a second.
abbrev pub numbers : Float
numbers = record {
  Carrier = ℕ;
  of_nat = λ n. n;
  seconds = λ n. n;
  add = λ a b. a + b;
  sub = λ a b. a - b;
  mul = λ a b. a * b;
  minimum = min;
  less = ltb;
}

abbrev limits : Config numbers
limits = record {
  enabled = true;
  connections_per_second = 1;
  burst = 3;
  idle_timeout = 60;
  max_entries = 2;
}

abbrev other : Addr
other = v4 (10 ∷ 9 ∷ 9 ∷ 9 ∷ [])

abbrev entries : Entries numbers
entries = (other, record { tokens = 0; last_refill = 100; last_seen = 100 }) ∷ []

entries-IsBounded : IsBounded numbers limits entries
entries-IsBounded = record { fits = omega arith; valid = (refl, tt) }

allow-IsBounded_example : IsBounded numbers limits (allow numbers limits client 120 entries).1
allow-IsBounded_example =
    allow-IsBounded numbers limits client 120 entries (omega arith) entries-IsBounded

other-not_client : other ≢ unmap client
unfolding unmap
other-not_client h = cc

allow-other_example :
    (lookup other (allow numbers limits client 120 entries).1 ≡ none)
    ⊎ (lookup other (allow numbers limits client 120 entries).1 ≡ lookup other entries)
allow-other_example = allow-other numbers limits client other 120 entries other-not_client
