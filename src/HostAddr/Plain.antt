-- ===== src/HostAddr/Plain.antt =====
-- Texts of lower-case letters, digits, dashes, dots and colons: trimming leaves them alone.
use mc_router.Prelude.{
  ℕ, ◌<◌, Bool, true, false, not, ◌||◌, ◌≡◌, refl, ap, arith, some, [], ◌∷◌, reverse, Bytes, nat_eq,
  all, All, All-reverse_aux,
}
use mathlib.Core.List.{reverse-reverse}
use mc_router.Go.Text.{
  between, byte_at, space1, space2, space3, space_width, last_space_width, trim_from, trim_space,
  lower_head, lower_from, to_lower, trim_suffix, trim_prefix, before,
}
use mc_router.Go.IpText.{ends_in_dot}
use mc_router.Go.Utf8.{lead, valid_from, utf8_valid}

abbrev pub plain_char : ℕ → Bool
plain_char c =
    between b'a' b'z' c || between b'0' b'9' c || nat_eq c b'-' || nat_eq c b'.' || nat_eq c b':'

abbrev pub IsPlain : Bytes → Type 0
IsPlain s = All (λ c. plain_char c ≡ true) s

pub all-IsPlain : (s : Bytes) → all plain_char s ≡ true → IsPlain s
all-IsPlain [] h = tt
all-IsPlain (c ∷ s) h = (ground arith, all-IsPlain s (ground arith))

pub before-plain : (s : Bytes) → IsPlain s → before 0 s ≡ s
unfolding before
before-plain [] h = refl
before-plain (c ∷ s) h = ground (arith, before-plain s h.1)

plain_not_space : (c : ℕ) → plain_char c ≡ true → space1 c ≡ false
unfolding space1
plain_not_space c h = ground arith

space_width-plain : (c : ℕ) (s : Bytes) → plain_char c ≡ true → space_width (c ∷ s) ≡ 0
unfolding space_width
space_width-plain c s h = ground arith

plain-lt-128 : (c : ℕ) → plain_char c ≡ true → c < 128
plain-lt-128 c h = ground arith

ascii_not_space2 : (a c : ℕ) → c < 128 → space2 a c ≡ false
unfolding space2
ascii_not_space2 a c h = ground arith

ascii_not_space3 : (a b c : ℕ) → c < 128 → space3 a b c ≡ false
unfolding space3
ascii_not_space3 a b c h = ground arith

last_space_width-plain : (c : ℕ) (s : Bytes) → plain_char c ≡ true → last_space_width (c ∷ s) ≡ 0
last_space_width-plain c s h =
    let small = plain-lt-128 c h in
    unfold last_space_width in
    rw (plain_not_space c h, ascii_not_space2 (byte_at 0 s) c small)
      (rw (ascii_not_space3 (byte_at 1 s) (byte_at 0 s) c small))

trim_from-plain :
    (width : Bytes → ℕ)
    → ((c : ℕ) (s : Bytes) → plain_char c ≡ true → width (c ∷ s) ≡ 0)
    → (s : Bytes) → IsPlain s
    → trim_from width 0 s ≡ s
unfolding trim_from
trim_from-plain width still [] h = refl
trim_from-plain width still (c ∷ s) (p, h) = rw (still c s p, trim_from)

IsPlain-reverse : (s : Bytes) → IsPlain s → IsPlain (reverse s)
IsPlain-reverse s h = All-reverse_aux (λ c. plain_char c ≡ true) s [] h tt

pub trim_space-plain : (s : Bytes) → IsPlain s → trim_space s ≡ s
trim_space-plain s h =
    unfold trim_space in
    rw (trim_from-plain space_width space_width-plain s h) (
      rw (trim_from-plain last_space_width last_space_width-plain (reverse s) (IsPlain-reverse s h))
        (reverse-reverse s))

lower_head-plain : (c : ℕ) (s : Bytes) → plain_char c ≡ true → lower_head c s ≡ (c, 0)
unfolding lower_head
lower_head-plain c s h = ground arith

lower_from-plain : (s : Bytes) → IsPlain s → lower_from 0 s ≡ s
unfolding lower_from
lower_from-plain [] h = refl
lower_from-plain (c ∷ s) (p, h) =
    rw (lower_head-plain c s p) (ap (λ t. c ∷ t) (lower_from-plain s h))

pub to_lower-plain : (s : Bytes) → IsPlain s → to_lower s ≡ s
to_lower-plain s h = unfold to_lower in lower_from-plain s h

lead-plain : (c : ℕ) → plain_char c ≡ true → lead c ≡ some (0, 0x80, 0xbf)
unfolding lead
lead-plain c h = ground arith

valid_from-plain : (s : Bytes) (lo hi : ℕ) → IsPlain s → valid_from 0 lo hi s ≡ true
unfolding valid_from
valid_from-plain [] lo hi h = refl
valid_from-plain (c ∷ s) lo hi (p, h) =
    rw (lead-plain c p, valid_from) (valid_from-plain s 0x80 0xbf h)

pub utf8_valid-plain : (s : Bytes) → IsPlain s → utf8_valid s ≡ true
utf8_valid-plain s h = unfold utf8_valid in valid_from-plain s 0 0 h

pub trim_suffix_other :
    (c : ℕ) (s : Bytes) → all (λ x. not (nat_eq x c)) s ≡ true → trim_suffix c s ≡ s
unfolding trim_suffix
trim_suffix_other c [] h = refl
trim_suffix_other c (x ∷ []) h = ground arith
trim_suffix_other c (x ∷ y ∷ r) h = ap (λ t. x ∷ t) (trim_suffix_other c (y ∷ r) (ground arith))

pub trim_prefix_other :
    (c : ℕ) (s : Bytes) → all (λ x. not (nat_eq x c)) s ≡ true → trim_prefix c s ≡ s
unfolding trim_prefix
trim_prefix_other c [] h = refl
trim_prefix_other c (x ∷ s) h = ground arith

-- No plain character is a bracket.
pub plain-no_bracket :
    (s : Bytes) (b : ℕ)
    → (nat_eq b b'[' || nat_eq b b']') ≡ true
    → IsPlain s
    → all (λ x. not (nat_eq x b)) s ≡ true
plain-no_bracket [] b k h = refl
plain-no_bracket (c ∷ s) b k (p, h) = ground (arith, plain-no_bracket s b k h)

pub trim_dot_other : (s : Bytes) → ends_in_dot s ≡ false → trim_suffix b'.' s ≡ s
unfolding trim_suffix
trim_dot_other [] h = refl
trim_dot_other (x ∷ []) h = ground arith
trim_dot_other (x ∷ y ∷ r) h = ap (λ t. x ∷ t) (trim_dot_other (y ∷ r) h)
