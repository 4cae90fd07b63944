-- ===== src/Go/Hex.antt =====
-- encoding/hex: lower case out, both cases in.
use mc_router.Prelude.{
  ℕ, ◌+◌, ◌-◌, ◌*◌, ◌/◌, ◌%◌, ◌<◌, ◌≡◌, refl, ap, arith, Option, none, some, [], ◌∷◌, Bytes, All,
  if◌then◌else◌, ltb, length,
}
use mc_router.Go.Text.{between}

unfoldable pub hex_digit : ℕ → ℕ
hex_digit n = if ltb n 10 then b'0' + n else b'a' + (n - 10)

unfoldable pub encode : Bytes → Bytes
encode [] = []
encode (b ∷ bs) = hex_digit (b / 16) ∷ hex_digit (b % 16) ∷ encode bs

unfoldable pub from_hex : ℕ → Option ℕ
from_hex c =
    if between b'0' b'9' c
    then some (c - b'0')
    else if between b'a' b'f' c
    then some (c - b'a' + 10)
    else if between b'A' b'F' c
    then some (c - b'A' + 10)
    else none

unfoldable pub decode : Bytes → Option Bytes
decode [] = some []
decode (c ∷ []) = none
decode (c ∷ d ∷ s) = elim (from_hex c) [
  | none ↦ none
  | some hi ↦ elim (from_hex d) [
    | none ↦ none
    | some lo ↦ elim (decode s) [ none ↦ none | some bs ↦ some ((hi * 16 + lo) ∷ bs) ]
  ]
]

from_hex-hex_digit : (n : ℕ) → n < 16 → from_hex (hex_digit n) ≡ some n
unfolding from_hex hex_digit
from_hex-hex_digit n h = ground arith

-- A byte list is read back from its hexadecimal text.
pub decode-encode : (bs : Bytes) → All (λ b. b < 256) bs → decode (encode bs) ≡ some bs
unfolding decode encode
decode-encode [] v = refl
decode-encode (b ∷ bs) (h, v) =
    let hi = from_hex-hex_digit (b / 16) (omega arith) in
    let lo = from_hex-hex_digit (b % 16) (omega arith) in
    let rest = decode-encode bs v in
    let sum : b / 16 * 16 + b % 16 ≡ b = omega arith in
    rw (decode, encode, hi, lo, rest) (ap (λ x. some (x ∷ bs)) sum)

pub length-encode : (bs : Bytes) → length (encode bs) ≡ length bs + length bs
unfolding encode
length-encode [] = refl
length-encode (b ∷ bs) = omega (arith, length-encode bs)
