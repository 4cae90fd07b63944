-- ===== src/Go/Text.antt =====
-- strings.TrimSpace, ToLower, Split and the like, over the bytes of a string.
use mc_router.Prelude.{
  ℕ, zero, suc, ◌+◌, Bool, true, false, ◌&&◌, ◌||◌, Option, none, some, List, [], ◌∷◌, reverse,
  Bytes, leb, nat_eq, if◌then◌else◌,
}

abbrev pub between : ℕ → ℕ → ℕ → Bool
between lo hi c = leb lo c && leb c hi

-- The byte at an index; 256, which is no byte, behind the end.
abbrev pub byte_at : ℕ → Bytes → ℕ
byte_at n [] = 256
byte_at zero (x ∷ xs) = x
byte_at (suc n) (x ∷ xs) = byte_at n xs

-- unicode.IsSpace on runes of one, two and three bytes.
unfoldable pub space1 : ℕ → Bool
space1 a = between 9 13 a || nat_eq a 32

unfoldable pub space2 : ℕ → ℕ → Bool
space2 a b = nat_eq a 0xc2 && (nat_eq b 0x85 || nat_eq b 0xa0)

unfoldable pub space3 : ℕ → ℕ → ℕ → Bool
space3 a b c =
    nat_eq a 0xe1 && nat_eq b 0x9a && nat_eq c 0x80
    || nat_eq a 0xe2
      && nat_eq b 0x80
      && (between 0x80 0x8a c || nat_eq c 0xa8 || nat_eq c 0xa9 || nat_eq c 0xaf)
    || nat_eq a 0xe2 && nat_eq b 0x81 && nat_eq c 0x9f
    || nat_eq a 0xe3 && nat_eq b 0x80 && nat_eq c 0x80

-- The width of a white-space rune at the front, and at the end of a reversed text; 0 for no space.
unfoldable pub space_width : Bytes → ℕ
unfolding space1 space2 space3
space_width s =
    if space1 (byte_at 0 s)
    then 1
    else if space2 (byte_at 0 s) (byte_at 1 s)
    then 2
    else if space3 (byte_at 0 s) (byte_at 1 s) (byte_at 2 s)
    then 3
    else 0

unfoldable pub last_space_width : Bytes → ℕ
unfolding space1 space2 space3
last_space_width s =
    if space1 (byte_at 0 s)
    then 1
    else if space2 (byte_at 1 s) (byte_at 0 s)
    then 2
    else if space3 (byte_at 2 s) (byte_at 1 s) (byte_at 0 s)
    then 3
    else 0

-- Drops runes while `width` is positive; the counter is what is left of the current rune.
unfoldable pub trim_from : (Bytes → ℕ) → ℕ → Bytes → Bytes
trim_from width k [] = []
trim_from width (suc k) (x ∷ xs) = trim_from width k xs
trim_from width zero (x ∷ xs) = elim (width (x ∷ xs)) [
  | zero ↦ x ∷ xs
  | suc k ↦ trim_from width k xs
]

-- strings.TrimSpace
unfoldable pub trim_space : Bytes → Bytes
unfolding trim_from space_width last_space_width
trim_space s = reverse (trim_from last_space_width 0 (reverse (trim_from space_width 0 s)))

abbrev pub is_empty {ℓ} : {A : Type ℓ} → List A → Bool
is_empty [] = true
is_empty (x ∷ xs) = false

abbrev pub is_blank : Bytes → Bool
is_blank s = is_empty (trim_space s)

unfoldable pub lower_byte : ℕ → ℕ
lower_byte c = if between b'A' b'Z' c then c + 32 else c

-- The lower case of the first rune where that is one byte, and how many more bytes the rune has.
-- U+0130 and U+212A are the runes above ASCII with an ASCII lower case.
unfoldable pub lower_head : ℕ → Bytes → ℕ × ℕ
unfolding lower_byte
lower_head x xs =
    if nat_eq x 0xc4 && nat_eq (byte_at 0 xs) 0xb0
    then (b'i', 1)
    else if nat_eq x 0xe2 && nat_eq (byte_at 0 xs) 0x84 && nat_eq (byte_at 1 xs) 0xaa
    then (b'k', 2)
    else (lower_byte x, 0)

unfoldable pub lower_from : ℕ → Bytes → Bytes
unfolding lower_head
lower_from k [] = []
lower_from (suc k) (x ∷ xs) = lower_from k xs
lower_from zero (x ∷ xs) = (lower_head x xs).0 ∷ lower_from (lower_head x xs).1 xs

-- strings.ToLower as far as the gateway can see it: other runes above ASCII have a lower case above
-- ASCII, and their bytes are left as they are.
unfoldable pub to_lower : Bytes → Bytes
unfolding lower_from
to_lower s = lower_from 0 s

-- strings.TrimSuffix and strings.TrimPrefix with one byte.
unfoldable pub trim_suffix : ℕ → Bytes → Bytes
trim_suffix c [] = []
trim_suffix c (x ∷ []) = if nat_eq x c then [] else x ∷ []
trim_suffix c (x ∷ y ∷ r) = x ∷ trim_suffix c (y ∷ r)

unfoldable pub trim_prefix : ℕ → Bytes → Bytes
trim_prefix c [] = []
trim_prefix c (x ∷ xs) = if nat_eq x c then xs else x ∷ xs

-- The text in front of the first `c`, or the whole text.
unfoldable pub before : ℕ → Bytes → Bytes
before c [] = []
before c (x ∷ xs) = let rest = before c xs in if nat_eq x c then [] else x ∷ rest

-- strings.Cut at one byte: what stands in front of the first `c` and behind it.
unfoldable pub cut : ℕ → Bytes → Option (Bytes × Bytes)
cut c [] = none
cut c (x ∷ xs) =
    let rest : Option (Bytes × Bytes) = elim (cut c xs) [
      | none ↦ none
      | some (a, b) ↦ some (x ∷ a, b)
    ] in
    if nat_eq x c then some ([], xs) else rest

-- The same at the last `c`.
unfoldable pub cut_last : ℕ → Bytes → Option (Bytes × Bytes)
cut_last c [] = none
cut_last c (x ∷ xs) = elim (cut_last c xs) [
  | some (a, b) ↦ some (x ∷ a, b)
  | none ↦ if nat_eq x c then some ([], xs) else none
]

unfoldable pub contains_byte : ℕ → Bytes → Bool
contains_byte c [] = false
contains_byte c (x ∷ xs) = nat_eq x c || contains_byte c xs

abbrev pub cons_first : ℕ → List Bytes → List Bytes
cons_first x [] = (x ∷ []) ∷ []
cons_first x (p ∷ ps) = (x ∷ p) ∷ ps

-- strings.Split at one byte.
unfoldable pub split : ℕ → Bytes → List Bytes
split c [] = [] ∷ []
split c (x ∷ xs) = let rest = split c xs in if nat_eq x c then [] ∷ rest else cons_first x rest

-- strings.HasPrefix, with what follows the prefix.
unfoldable pub strip_prefix : Bytes → Bytes → Option Bytes
strip_prefix [] s = some s
strip_prefix (p ∷ ps) [] = none
strip_prefix (p ∷ ps) (x ∷ xs) = if nat_eq p x then strip_prefix ps xs else none

-- `<` on Go strings.
unfoldable pub bytes_lt : Bytes → Bytes → Bool
bytes_lt a [] = false
bytes_lt [] (y ∷ ys) = true
bytes_lt (x ∷ xs) (y ∷ ys) = if nat_eq x y then bytes_lt xs ys else leb (x + 1) y
