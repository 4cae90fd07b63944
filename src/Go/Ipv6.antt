-- ===== src/Go/Ipv6.antt =====
-- The colon half of netip.ParseAddr (parseIPv6), without the zone.
use mc_router.Prelude.{
  ℕ, zero, suc, ◌+◌, ◌-◌, ◌*◌, ◌/◌, ◌%◌, Bool, true, false, not, ◌&&◌, ◌||◌, Option, none, some, [],
  ◌∷◌, ◌++◌, Bytes, ltb, nat_eq, length, take, drop, if◌then◌else◌,
}
use mc_router.Go.Text.{between, is_empty}
use mc_router.Go.Ipv4.{parse_ipv4}

unfoldable pub hex_digit : ℕ → Option ℕ
hex_digit c =
    if between b'0' b'9' c
    then some (c - b'0')
    else if between b'a' b'f' c
    then some (c - b'a' + 10)
    else if between b'A' b'F' c
    then some (c - b'A' + 10)
    else none

-- At most four hexadecimal digits: their count, their value and what follows them.
unfoldable pub hex_run : ℕ → ℕ → Bytes → Option (ℕ × ℕ × Bytes)
unfolding hex_digit
hex_run off acc [] = some (off, acc, [])
hex_run off acc (c ∷ cs) = elim (hex_digit c) [
  | none ↦ some (off, acc, c ∷ cs)
  | some d ↦ elim (ltb 3 off) [ true ↦ none | false ↦ hex_run (off + 1) (acc * 16 + d) cs ]
]

-- The loop fails, stops, or goes on, with the bytes written, the ellipsis and the rest.
pub data Step : Type 0 where
  fail : Step
  stop more : Bytes → Option ℕ → Bytes → Step

abbrev pub has {ℓ} : {A : Type ℓ} → Option A → Bool
has none = false
has (some a) = true

-- The end of the text may be an embedded IPv4 address.
unfoldable pub embedded : Bytes → Option ℕ → Bytes → Step
embedded out el s =
    if (not (has el) && not (nat_eq (length out) 12)) || ltb 16 (length out + 4)
    then fail
    else elim (parse_ipv4 s) [ none ↦ fail | some fields ↦ stop (out ++ fields) el [] ]

-- What follows a group that is written.
unfoldable pub after_group : Bytes → Option ℕ → Bytes → Step
after_group out el [] = stop out el []
after_group out el (c ∷ []) = fail
after_group out el (c ∷ d ∷ r) =
    if not (nat_eq c b':')
    then fail
    else if nat_eq d b':'
    then (if has el
        then fail
        else if is_empty r
        then stop out (some (length out)) []
        else more out (some (length out)) r)
    else more out el (d ∷ r)

unfoldable pub v6_group : Bytes → Option ℕ → Bytes → Step
unfolding hex_run embedded after_group
v6_group out el s = elim (hex_run 0 0 s) [
  | none ↦ fail
  | some (zero, acc, rest) ↦ fail
  | some (suc off, acc, []) ↦ after_group (out ++ acc / 256 ∷ acc % 256 ∷ []) el []
  | some (suc off, acc, c ∷ rest) ↦
      if nat_eq c b'.'
      then embedded out el s
      else after_group (out ++ acc / 256 ∷ acc % 256 ∷ []) el (c ∷ rest)
]

-- At most eight groups; the argument counts those still allowed.
unfoldable pub v6_loop : ℕ → Bytes → Option ℕ → Bytes → Step
unfolding v6_group
v6_loop zero out el s = stop out el s
v6_loop (suc n) out el s = elim (v6_group out el s) [
  | fail ↦ fail
  | stop out' el' s' ↦ stop out' el' s'
  | more out' el' s' ↦ v6_loop n out' el' s'
]

abbrev pub zeros : ℕ → Bytes
zeros zero = []
zeros (suc n) = 0 ∷ zeros n

-- The bytes must be sixteen, or the ellipsis stands for one group or more.
unfoldable pub v6_finish : Step → Option Bytes
v6_finish fail = none
v6_finish (more out el s) = none
v6_finish (stop out el (x ∷ s)) = none
v6_finish (stop out none []) = if ltb (length out) 16 then none else some out
v6_finish (stop out (some e) []) =
    if ltb (length out) 16 then some (take e out ++ zeros (16 - length out) ++ drop e out) else none

abbrev double_colon : ℕ → ℕ → Bool
double_colon a b = nat_eq a b':' && nat_eq b b':'

-- The sixteen bytes of an address.
unfoldable pub parse_ipv6 : Bytes → Option Bytes
unfolding v6_loop v6_finish
parse_ipv6 (a ∷ b ∷ r) =
    if double_colon a b
    then (if is_empty r then some (zeros 16) else v6_finish (v6_loop 8 [] (some 0) r))
    else v6_finish (v6_loop 8 [] none (a ∷ b ∷ r))
parse_ipv6 s = v6_finish (v6_loop 8 [] none s)
