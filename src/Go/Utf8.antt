-- ===== src/Go/Utf8.antt =====
-- utf8.Valid: a run over the bytes that counts the continuation bytes still due.
use mc_router.Prelude.{
  ℕ, zero, suc, Bool, true, false, Option, none, some, [], ◌∷◌, Bytes, ltb, nat_eq, if◌then◌else◌,
}
use mc_router.Go.Text.{between}

-- How many continuation bytes follow a lead byte, and the range of the first of them.
unfoldable pub lead : ℕ → Option (ℕ × ℕ × ℕ)
lead x =
    if ltb x 0x80
    then some (0, 0x80, 0xbf)
    else if between 0xc2 0xdf x
    then some (1, 0x80, 0xbf)
    else if nat_eq x 0xe0
    then some (2, 0xa0, 0xbf)
    else if nat_eq x 0xed
    then some (2, 0x80, 0x9f)
    else if between 0xe1 0xef x
    then some (2, 0x80, 0xbf)
    else if nat_eq x 0xf0
    then some (3, 0x90, 0xbf)
    else if between 0xf1 0xf3 x
    then some (3, 0x80, 0xbf)
    else if nat_eq x 0xf4
    then some (3, 0x80, 0x8f)
    else none

unfoldable pub valid_from : ℕ → ℕ → ℕ → Bytes → Bool
unfolding lead
valid_from zero lo hi [] = true
valid_from (suc n) lo hi [] = false
valid_from zero lo hi (x ∷ xs) = elim (lead x) [
  | none ↦ false
  | some (n, lo', hi') ↦ valid_from n lo' hi' xs
]
valid_from (suc n) lo hi (x ∷ xs) = if between lo hi x then valid_from n 0x80 0xbf xs else false

unfoldable pub utf8_valid : Bytes → Bool
unfolding valid_from
utf8_valid s = valid_from 0 0 0 s
