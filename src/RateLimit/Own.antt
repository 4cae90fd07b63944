-- ===== src/RateLimit/Own.antt =====
-- What an attempt of a client at limiter.go depends on: its own bucket, as the table has it.
use mc_router.Prelude.{ℕ, ◌+◌, ◌-◌, ◌≤◌, ◌<◌, ◌≡◌, Bool, true, false, Option, none, some}
use mc_router.RateLimit.{Float, Config, Entry}

module _ (F : Float) where
  -- The bucket that a client has: its entry in the table, unless nothing has been seen of the client
  -- for the idle timeout.
  pub data Owns (c : Config F) (now : ℕ) : Option (Entry F) → Option (Entry F) → Type 0 where
    unknown : Owns c now none none
    idle : (e : Entry F) → e.last_seen + c.idle_timeout ≤ now → Owns c now (some e) none
    live : (e : Entry F) → now < e.last_seen + c.idle_timeout → Owns c now (some e) (some e)

  -- The tokens before the attempt: a whole burst for a client without a bucket; otherwise those of the
  -- bucket and those of the time since its refill, a burst at most.
  pub data Available (c : Config F) (now : ℕ) : Option (Entry F) → F.Carrier → Type 0 where
    fresh : Available c now none (F.of_nat c.burst)
    same : (e : Entry F) → now ≤ e.last_refill → Available c now (some e) e.tokens
    refilled :
        (e : Entry F)
        → e.last_refill < now
        → Available c now (some e) (
            F.minimum
              (F.of_nat c.burst)
              (F.add e.tokens (F.mul (F.seconds (now - e.last_refill)) c.connections_per_second)))

  -- A whole token is taken where there is one.
  pub data Spends (tokens : F.Carrier) : Bool → F.Carrier → Type 0 where
    spent : F.less tokens (F.of_nat 1) ≡ false → Spends tokens true (F.sub tokens (F.of_nat 1))
    refused : F.less tokens (F.of_nat 1) ≡ true → Spends tokens false tokens

  -- A decision, and the client's entry behind it, for the entry before it.
  pub record IsServed (c : Config F) (now : ℕ) (before : Option (Entry F)) (allowed : Bool)
      (after : Option (Entry F)) : Type 0 where
    pub own : Option (Entry F)
    pub owns : Owns c now before own
    pub tokens : F.Carrier
    pub available : Available c now own tokens
    pub entry : Entry F
    pub kept : after ≡ some entry
    pub spends : Spends tokens allowed entry.tokens
    pub seen : entry.last_seen ≡ now
