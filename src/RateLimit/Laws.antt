-- ===== src/RateLimit/Laws.antt =====
-- The table of limiter.go: its bound, and what an attempt does to the bucket of another client.
use mc_router.Prelude.{
  ℕ, ◌≤◌, ◌<◌, ◌≡◌, ◌≢◌, ◌⊎◌, inl, inr, refl, arith, true, not, ◌||◌, none, [], ◌∷◌, length, lookup,
  insert, erase, lookup-erase, lookup-insert, length-erase, length-insert, length-insert_known,
  length-erase_known, All, Bool-cases, Option-cases,
}
use mc_router.Go.Netip.{Addr, invalid, v4, v6, is_valid, unmap, addr_Eq}
use mc_router.RateLimit.{
  Float, Config, Entry, Entries, delete_expired, oldest_addr, delete_oldest, make_room, attempt,
  allow_at, allow,
}

is_valid-unmap : (a : Addr) → is_valid a ≡ true → is_valid (unmap a) ≡ true
unfolding unmap
is_valid-unmap invalid h = h
is_valid-unmap (v4 b) h = h
is_valid-unmap (v6 b z) h = ground arith

module _ (F : Float) where
  length-delete_expired :
      (c : Config F) (now : ℕ) (rest table : Entries F)
      → length (delete_expired F c now rest table) ≤ length table
  unfolding delete_expired
  length-delete_expired c now [] table = omega arith
  length-delete_expired c now ((a, e) ∷ rest) table = ground (
    arith,
    length-delete_expired c now rest table,
    length-erase a table,
    length-delete_expired c now rest (erase a table),
  )

  lookup-delete_expired :
      (c : Config F) (now : ℕ) (rest table : Entries F) (k : Addr)
      → (lookup k (delete_expired F c now rest table) ≡ none)
        ⊎ (lookup k (delete_expired F c now rest table) ≡ lookup k table)
  unfolding delete_expired
  lookup-delete_expired c now [] table k = inr refl
  lookup-delete_expired c now ((a, e) ∷ rest) table k = ground (
    arith,
    lookup-delete_expired c now rest table k,
    lookup-erase a k table,
    lookup-delete_expired c now rest (erase a table) k,
  )

  oldest_addr-known :
      (rest : Entries F) (a : Addr) (s : ℕ)
      → (oldest_addr F rest a s ≡ a) ⊎ (lookup (oldest_addr F rest a s) rest ≢ none)
  unfolding oldest_addr lookup
  oldest_addr-known [] a s = inl refl
  oldest_addr-known ((b, e) ∷ rest) a s =
      ground (
        arith,
        oldest_addr-known rest a s,
        oldest_addr-known rest b e.last_seen,
        addr_Eq.beq_iff b b,
      )

  oldest_addr-valid :
      (rest : Entries F) (a : Addr) (s : ℕ)
      → is_valid a ≡ true
      → All (λ x. is_valid x.0 ≡ true) rest
      → is_valid (oldest_addr F rest a s) ≡ true
  unfolding oldest_addr
  oldest_addr-valid [] a s h all = h
  oldest_addr-valid ((b, e) ∷ rest) a s h (valid, all) =
      ground
        (arith, oldest_addr-valid rest a s h all, oldest_addr-valid rest b e.last_seen valid all)

  -- Every key is an address.
  abbrev pub Valid : Entries F → Type 0
  Valid table = All (λ x. is_valid x.0 ≡ true) table

  Valid-erase : (k : Addr) (table : Entries F) → Valid table → Valid (erase k table)
  unfolding erase
  Valid-erase k [] v = v
  Valid-erase k ((a, e) ∷ table) (v, vs) = ground (arith, Valid-erase k table vs)

  Valid-insert :
      (k : Addr) (e : Entry F) (table : Entries F)
      → is_valid k ≡ true
      → Valid table
      → Valid (insert k e table)
  unfolding insert
  Valid-insert k e [] h v = (h, v)
  Valid-insert k e ((a, e') ∷ table) h (v, vs) = ground (arith, Valid-insert k e table h vs)

  Valid-delete_expired :
      (c : Config F) (now : ℕ) (rest table : Entries F)
      → Valid table
      → Valid (delete_expired F c now rest table)
  unfolding delete_expired
  Valid-delete_expired c now [] table v = v
  Valid-delete_expired c now ((a, e) ∷ rest) table v = ground (
    arith,
    Valid-delete_expired c now rest table v,
    Valid-delete_expired c now rest (erase a table) (Valid-erase a table v),
  )

  lookup-cons :
      (k a : Addr) (e : Entry F) (table : Entries F)
      → (k ≡ a) ⊎ (lookup k table ≢ none)
      → lookup k ((a, e) ∷ table) ≢ none
  unfolding lookup
  lookup-cons k a e table (inl same) h = ground (arith, addr_Eq.beq_iff a k, same)
  lookup-cons k a e table (inr there) h = ground (arith, there)

  oldest_addr-cons :
      (a : Addr) (e : Entry F) (table : Entries F)
      → oldest_addr F ((a, e) ∷ table) invalid 0 ≡ oldest_addr F table a e.last_seen
  unfolding oldest_addr
  oldest_addr-cons a e table = refl

  -- Deleting the oldest entry makes room.
  length-delete_oldest :
      (table : Entries F)
      → Valid table
      → 1 ≤ length table
      → length (delete_oldest F table) < length table
  unfolding delete_oldest
  length-delete_oldest [] v h = omega arith
  length-delete_oldest ((a, e) ∷ table) (v, vs) h =
      let k = oldest_addr F table a e.last_seen in
      rw (delete_oldest, oldest_addr-cons a e table, oldest_addr-valid table a e.last_seen v vs)
        (length-erase_known k ((a, e) ∷ table)
          (lookup-cons k a e table (oldest_addr-known table a e.last_seen)))

  Valid-delete_oldest : (table : Entries F) → Valid table → Valid (delete_oldest F table)
  unfolding delete_oldest
  Valid-delete_oldest table v =
      ground (arith, Valid-erase (oldest_addr F table invalid 0) table v, v)

  Valid-make_room :
      (c : Config F) (addr : Addr) (table : Entries F)
      → Valid table
      → Valid (make_room F c addr table)
  unfolding make_room
  Valid-make_room c addr table v = ground (arith, Valid-delete_oldest table v, v)

  -- The table fits, and its keys are addresses.
  pub record IsBounded (c : Config F) (table : Entries F) : Type 0 where
    pub fits : length table ≤ c.max_entries
    pub valid : Valid table

  length-insert-make_room :
      (c : Config F) (addr : Addr) (e : Entry F) (table : Entries F)
      → 1 ≤ c.max_entries
      → length table ≤ c.max_entries
      → Valid table
      → length (insert addr e (make_room F c addr table)) ≤ c.max_entries
  unfolding make_room
  length-insert-make_room c addr e table some_room fits valid =
      elim (Option-cases (lookup addr table)) [
        | inl l ↦ ground (
          arith,
          l,
          length-insert addr e table,
          length-insert addr e (delete_oldest F table),
          length-delete_oldest table valid,
        )
        | inr (e', l) ↦ ground (arith, l, length-insert_known addr e table)
      ]

  allow_at-IsBounded :
      (c : Config F) (addr : Addr) (now : ℕ) (entries : Entries F)
      → is_valid addr ≡ true
      → 1 ≤ c.max_entries
      → IsBounded c entries
      → IsBounded c (allow_at F c addr now entries).1
  unfolding allow_at
  allow_at-IsBounded c addr now entries v some_room h =
      let table = delete_expired F c now entries entries in
      let kept = Valid-delete_expired c now entries entries h.valid in
      let fewer = length-delete_expired c now entries entries in
      let fits = h.fits in
      record {
        fits = length-insert-make_room c addr _ table some_room (omega arith) kept;
        valid = Valid-insert addr _ _ v (Valid-make_room c addr table kept);
      }

  -- With room for one client at least, an attempt keeps the table within its bound.
  pub allow-IsBounded :
      (c : Config F) (addr : Addr) (now : ℕ) (entries : Entries F)
      → 1 ≤ c.max_entries
      → IsBounded c entries
      → IsBounded c (allow F c addr now entries).1
  unfolding allow
  allow-IsBounded c addr now entries some_room h =
      elim (Bool-cases (not c.enabled || not (is_valid addr))) [
        | inl off ↦ rw (allow, off) h
        | inr on ↦
            rw (allow, on)
              (allow_at-IsBounded c (unmap addr) now entries
                (is_valid-unmap addr ground (arith, on)) some_room h)
      ]

  lookup-delete_oldest :
      (table : Entries F) (k : Addr)
      → (lookup k (delete_oldest F table) ≡ none)
        ⊎ (lookup k (delete_oldest F table) ≡ lookup k table)
  unfolding delete_oldest
  lookup-delete_oldest table k =
      ground (arith, lookup-erase (oldest_addr F table invalid 0) k table)

  lookup-make_room :
      (c : Config F) (addr : Addr) (table : Entries F) (k : Addr)
      → (lookup k (make_room F c addr table) ≡ none)
        ⊎ (lookup k (make_room F c addr table) ≡ lookup k table)
  unfolding make_room
  lookup-make_room c addr table k = ground (arith, lookup-delete_oldest table k)

  allow_at-other :
      (c : Config F) (addr k : Addr) (now : ℕ) (entries : Entries F)
      → k ≢ addr
      → (lookup k (allow_at F c addr now entries).1 ≡ none)
        ⊎ (lookup k (allow_at F c addr now entries).1 ≡ lookup k entries)
  unfolding allow_at
  allow_at-other c addr k now entries h =
      let table = delete_expired F c now entries entries in
      ground (
        arith,
        lookup-insert addr k (attempt F c now (lookup addr table)).1 (make_room F c addr table),
        lookup-make_room c addr table k,
        lookup-delete_expired c now entries entries k,
        addr_Eq.beq_iff addr k,
      )

  -- An attempt of one client leaves the bucket of any other as it is, or removes it.
  pub allow-other :
      (c : Config F) (addr k : Addr) (now : ℕ) (entries : Entries F)
      → k ≢ unmap addr
      → (lookup k (allow F c addr now entries).1 ≡ none)
        ⊎ (lookup k (allow F c addr now entries).1 ≡ lookup k entries)
  unfolding allow
  allow-other c addr k now entries h = ground (arith, allow_at-other c (unmap addr) k now entries h)
