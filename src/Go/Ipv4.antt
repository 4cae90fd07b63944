-- ===== src/Go/Ipv4.antt =====
-- The dotted-decimal half of netip.ParseAddr (parseIPv4Fields).
use mc_router.Prelude.{
  ℕ, ◌+◌, ◌-◌, ◌*◌, ◌&&◌, ◌||◌, Option, none, some, [], ◌∷◌, ◌++◌, Bytes, ltb, nat_eq, length,
  if◌then◌else◌,
}
use mc_router.Go.Text.{between}

-- One byte: the fields read, the value and the digit count of the current field.
unfoldable pub v4_step : Bytes → ℕ → ℕ → ℕ → Option (Bytes × ℕ × ℕ)
v4_step acc val dig c =
    if between b'0' b'9' c
    then (if nat_eq dig 1 && nat_eq val 0 || ltb 255 (val * 10 + (c - b'0'))
        then none
        else some (acc, val * 10 + (c - b'0'), dig + 1))
    else if nat_eq c b'.'
    then (if nat_eq dig 0 || nat_eq (length acc) 3 then none else some (acc ++ val ∷ [], 0, 0))
    else none

unfoldable pub v4_fields : Bytes → ℕ → ℕ → Bytes → Option Bytes
unfolding v4_step
v4_fields acc val dig [] =
    if nat_eq dig 0 then none else if nat_eq (length acc) 3 then some (acc ++ val ∷ []) else none
v4_fields acc val dig (c ∷ cs) = elim (v4_step acc val dig c) [
  | none ↦ none
  | some (acc', val', dig') ↦ v4_fields acc' val' dig' cs
]

-- The four bytes of an address.
unfoldable pub parse_ipv4 : Bytes → Option Bytes
unfolding v4_fields
parse_ipv4 s = v4_fields [] 0 0 s
