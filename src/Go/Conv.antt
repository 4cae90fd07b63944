-- ===== src/Go/Conv.antt =====
-- strconv.Atoi on 64-bit integers, and strconv.Itoa on natural numbers.
use mc_router.Prelude.{
  ℕ, zero, suc, ◌+◌, ◌-◌, ◌*◌, ◌/◌, ◌%◌, true, false, Option, none, some, [], ◌∷◌, ◌++◌, Bytes, ltb,
  nat_eq, if◌then◌else◌,
}
use mc_router.Prelude.Int.{ℤ, pos, negsuc}
use mc_router.Go.Text.{between}

unfoldable pub digits_value : ℕ → Bytes → Option ℕ
digits_value acc [] = some acc
digits_value acc (c ∷ cs) = elim (between b'0' b'9' c) [
  | true ↦ digits_value (acc * 10 + (c - b'0')) cs
  | false ↦ none
]

-- One digit at least.
unfoldable pub unsigned : Bytes → Option ℕ
unfolding digits_value
unsigned [] = none
unsigned (c ∷ cs) = digits_value 0 (c ∷ cs)

-- The ranges of int64 on the two sides of zero.
unfoldable pub signed_pos : Option ℕ → Option ℤ
signed_pos none = none
signed_pos (some n) = if ltb n 0x8000_0000_0000_0000 then some (pos n) else none

unfoldable pub signed_neg : Option ℕ → Option ℤ
signed_neg none = none
signed_neg (some zero) = some (pos 0)
signed_neg (some (suc n)) = if ltb n 0x8000_0000_0000_0000 then some (negsuc n) else none

unfoldable pub atoi : Bytes → Option ℤ
unfolding unsigned signed_pos signed_neg
atoi [] = none
atoi (c ∷ cs) =
    if nat_eq c b'-'
    then signed_neg (unsigned cs)
    else if nat_eq c b'+'
    then signed_pos (unsigned cs)
    else signed_pos (unsigned (c ∷ cs))

-- The fuel bounds the number of digits.
unfoldable pub itoa_from : ℕ → ℕ → Bytes
itoa_from zero n = []
itoa_from (suc fuel) n = elim (ltb n 10) [
  | true ↦ (n + b'0') ∷ []
  | false ↦ itoa_from fuel (n / 10) ++ (n % 10 + b'0') ∷ []
]

unfoldable pub itoa : ℕ → Bytes
unfolding itoa_from
itoa n = itoa_from (suc n) n
