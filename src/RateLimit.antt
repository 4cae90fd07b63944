-- ===== src/RateLimit.antt =====
-- internal/ratelimit/limiter.go: a bounded table of token buckets, one for each client address.
-- Times are in nanoseconds. The arithmetic of float64 is the machine's: it is the parameter `Float`.
pub mod Laws
pub mod Own
use mc_router.Prelude.{
  ℕ, ◌+◌, ◌-◌, Bool, true, false, not, ◌&&◌, ◌||◌, Option, none, some, List, [], ◌∷◌, if◌then◌else◌,
  ltb, leb, length, lookup, insert, erase,
}
use mc_router.Go.Netip.{Addr, invalid, is_valid, unmap, addr_Eq}

pub record Float : Type 1 where
  pub Carrier : Type 0
  pub of_nat : ℕ → Carrier
  pub seconds : ℕ → Carrier
  pub add : Carrier → Carrier → Carrier
  pub sub : Carrier → Carrier → Carrier
  pub mul : Carrier → Carrier → Carrier
  pub minimum : Carrier → Carrier → Carrier
  pub less : Carrier → Carrier → Bool

module _ (F : Float) where
  pub record Config : Type 0 where
    pub enabled : Bool
    pub connections_per_second : F.Carrier
    pub burst : ℕ
    pub idle_timeout : ℕ
    pub max_entries : ℕ

  pub record Entry : Type 0 where
    pub tokens : F.Carrier
    pub last_refill : ℕ
    pub last_seen : ℕ

  abbrev pub Entries : Type 0
  Entries = List (Addr × Entry)

  -- The loop over the entries, which deletes from the table.
  unfoldable pub delete_expired : Config → ℕ → Entries → Entries → Entries
  delete_expired c now [] table = table
  delete_expired c now ((addr, current) ∷ rest) table =
      elim (leb (current.last_seen + c.idle_timeout) now) [
        | true ↦ delete_expired c now rest (erase addr table)
        | false ↦ delete_expired c now rest table
      ]

  -- The loop that looks for the entry seen least recently.
  unfoldable pub oldest_addr : Entries → Addr → ℕ → Addr
  oldest_addr [] addr seen = addr
  oldest_addr ((a, current) ∷ rest) addr seen =
      elim (is_valid addr && not (ltb current.last_seen seen)) [
        | true ↦ oldest_addr rest addr seen
        | false ↦ oldest_addr rest a current.last_seen
      ]

  unfoldable pub delete_oldest : Entries → Entries
  delete_oldest table =
      if is_valid (oldest_addr table invalid 0)
      then erase (oldest_addr table invalid 0) table
      else table

  -- The bucket of a client before this attempt: its own, or a full one.
  unfoldable pub current_entry : Config → ℕ → Option Entry → Entry
  current_entry c now (some e) = e
  current_entry c now none = record {
    tokens = F.of_nat c.burst;
    last_refill = now;
    last_seen = now;
  }

  unfoldable pub refill : Config → ℕ → Entry → Entry
  refill c now e =
      if ltb e.last_refill now
      then record {
        tokens =
            F.minimum (F.of_nat c.burst)
              (F.add e.tokens (F.mul (F.seconds (now - e.last_refill)) c.connections_per_second));
        last_refill = now;
        last_seen = now;
      }
      else record { tokens = e.tokens; last_refill = e.last_refill; last_seen = now }

  -- Whether there is a token, and the bucket after the attempt.
  unfoldable pub take_token : Entry → Bool × Entry
  take_token e = if F.less e.tokens (F.of_nat 1) then (false, e) else (
    true,
    record {
      tokens = F.sub e.tokens (F.of_nat 1);
      last_refill = e.last_refill;
      last_seen = e.last_seen;
    },
  )

  -- Room for a new client.
  unfoldable pub make_room : Config → Addr → Entries → Entries
  make_room c addr table = elim (lookup addr table) [
    | some e ↦ table
    | none ↦ if leb c.max_entries (length table) then delete_oldest table else table
  ]

  abbrev pub attempt : Config → ℕ → Option Entry → Bool × Entry
  attempt c now found = take_token (refill c now (current_entry c now found))

  unfoldable pub allow_at : Config → Addr → ℕ → Entries → Bool × Entries
  allow_at c addr now entries =
      let table = delete_expired c now entries entries in
      let result = attempt c now (lookup addr table) in
      (result.0, insert addr result.1 (make_room c addr table))

  unfoldable pub allow : Config → Addr → ℕ → Entries → Bool × Entries
  allow c addr now entries =
      if not c.enabled || not (is_valid addr)
      then (not c.enabled, entries)
      else allow_at c (unmap addr) now entries
