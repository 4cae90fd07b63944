-- ===== src/Go/IpText.antt =====
-- What an IP address literal looks like: its characters, and that no dot ends it.
use mc_router.Prelude.{
  ℕ, zero, suc, ◌+◌, ◌-◌, ◌*◌, ◌/◌, ◌%◌, Bool, true, false, ◌||◌, ◌≡◌, ◌≢◌, refl, arith, Option,
  none, some, [], ◌∷◌, ◌++◌, Bytes, nat_eq, all, Option-cases, Bool-cases, inl, inr,
}
use mc_router.Go.Text.{between, cut}
use mc_router.Go.Ipv4.{v4_fields, parse_ipv4}
use mc_router.Go.Ipv6.{
  hex_digit, hex_run, Step, fail, stop, more, embedded, after_group, v6_group, v6_loop, v6_finish,
  parse_ipv6,
}
use mc_router.Go.Netip.{invalid, v4, v6, parse_addr, parse_zoned, with_zone, parse_ip, first_mark}

abbrev pub ip_char : ℕ → Bool
ip_char c =
    between b'0' b'9' c
    || between b'a' b'f' c
    || between b'A' b'F' c
    || nat_eq c b'.'
    || nat_eq c b':'

abbrev pub ends_in_dot : Bytes → Bool
ends_in_dot [] = false
ends_in_dot (c ∷ []) = nat_eq c b'.'
ends_in_dot (c ∷ d ∷ r) = ends_in_dot (d ∷ r)

-- A text that is read as an address, and one that is not.
abbrev Reads : Bytes → Type 0
Reads s = (all ip_char s ≡ true) × (ends_in_dot s ≡ false)

v4_fields-chars :
    (acc : Bytes) (val dig : ℕ) (s : Bytes) (b : Bytes)
    → v4_fields acc val dig s ≡ some b
    → all ip_char s ≡ true
unfolding v4_fields
v4_fields-chars acc val dig [] b e = refl
v4_fields-chars acc val dig (c ∷ cs) b e = ground (
  arith,
  v4_fields-chars acc (val * 10 + (c - b'0')) (dig + 1) cs b,
  v4_fields-chars (acc ++ val ∷ []) 0 0 cs b,
)

v4_fields-dot :
    (acc : Bytes) (val dig : ℕ) (s : Bytes) (b : Bytes)
    → v4_fields acc val dig s ≡ some b
    → ends_in_dot s ≡ false
unfolding v4_fields
v4_fields-dot acc val dig [] b e = refl
v4_fields-dot acc val dig (c ∷ []) b e = ground arith
v4_fields-dot acc val dig (c ∷ d ∷ r) b e = ground (
  arith,
  v4_fields-dot acc (val * 10 + (c - b'0')) (dig + 1) (d ∷ r) b,
  v4_fields-dot (acc ++ val ∷ []) 0 0 (d ∷ r) b,
)

parse_ipv4-Reads : (s b : Bytes) → parse_ipv4 s ≡ some b → Reads s
unfolding parse_ipv4
parse_ipv4-Reads s b e = (v4_fields-chars [] 0 0 s b e, v4_fields-dot [] 0 0 s b e)

hex_digit-char : (c d : ℕ) → hex_digit c ≡ some d → (ip_char c ≡ true) × (nat_eq c b'.' ≡ false)
unfolding hex_digit
hex_digit-char c d e = ground arith

Reads-cons :
    (c : ℕ) (s : Bytes) → ip_char c ≡ true → nat_eq c b'.' ≡ false → Reads s → Reads (c ∷ s)
Reads-cons c [] h k r = ground arith
Reads-cons c (d ∷ s) h k r = ground arith

-- Digits in front of a text change neither question.
hex_run-Reads :
    (off acc : ℕ) (s : Bytes) (n v : ℕ) (rest : Bytes)
    → hex_run off acc s ≡ some (n, v, rest)
    → Reads rest
    → Reads s
unfolding hex_run
hex_run-Reads off acc [] n v rest e r = (refl, refl)
hex_run-Reads off acc (c ∷ cs) n v rest e r = elim (Option-cases (hex_digit c)) [
  | inl h ↦ ground (arith, h)
  | inr (d, h) ↦
      let (char, plain) = hex_digit-char c d h in
      ground
        (arith, h, Reads-cons c cs char plain, hex_run-Reads (off + 1) (acc * 16 + d) cs n v rest)
]

-- The text that a step leaves, and the text that it was given.
abbrev Leaves : Bytes → Step → Type 0
Leaves s fail = Unit
Leaves s (stop out el rest) = Reads rest → Reads s
Leaves s (more out el rest) = Reads rest → Reads s

embedded-Leaves : (out : Bytes) (el : Option ℕ) (s : Bytes) → Leaves s (embedded out el s)
unfolding embedded
embedded-Leaves out el s = elim (Option-cases (parse_ipv4 s)) [
  | inl h ↦ ground (arith, h)
  | inr (b, h) ↦ ground (arith, h, parse_ipv4-Reads s b h)
]

after_group-Leaves : (out : Bytes) (el : Option ℕ) (s : Bytes) → Leaves s (after_group out el s)
unfolding after_group
after_group-Leaves out el [] = λ r. r
after_group-Leaves out el (c ∷ []) = tt
after_group-Leaves out el (c ∷ d ∷ []) = ground arith
after_group-Leaves out el (c ∷ d ∷ x ∷ r) = ground arith

Leaves-mono : (s t : Bytes) (p : Step) → Leaves t p → (Reads t → Reads s) → Leaves s p
Leaves-mono s t fail h k = tt
Leaves-mono s t (stop out el rest) h k = λ r. k (h r)
Leaves-mono s t (more out el rest) h k = λ r. k (h r)

v6_group-Leaves : (out : Bytes) (el : Option ℕ) (s : Bytes) → Leaves s (v6_group out el s)
unfolding v6_group
v6_group-Leaves out el s = elim (Option-cases (hex_run 0 0 s)) [
  | inl h ↦ rw (h, v6_group) tt
  | inr ((zero, v, rest), h) ↦ rw (h, v6_group) tt
  | inr ((suc n, v, []), h) ↦
      rw (h, v6_group)
        (Leaves-mono s [] (after_group (out ++ v / 256 ∷ v % 256 ∷ []) el [])
          (after_group-Leaves (out ++ v / 256 ∷ v % 256 ∷ []) el [])
          (hex_run-Reads 0 0 s (suc n) v [] h))
  | inr ((suc n, v, c ∷ rest), h) ↦ elim (Bool-cases (nat_eq c b'.')) [
    | inl dot ↦ rw (h, v6_group) (rw dot (embedded-Leaves out el s))
    | inr other ↦
        rw (h, v6_group)
          (rw other (
            Leaves-mono s (c ∷ rest) (after_group (out ++ v / 256 ∷ v % 256 ∷ []) el (c ∷ rest))
              (after_group-Leaves (out ++ v / 256 ∷ v % 256 ∷ []) el (c ∷ rest))
              (hex_run-Reads 0 0 s (suc n) v (c ∷ rest) h)))
  ]
]

v6_loop-Leaves_step :
    (n : ℕ) (out : Bytes) (el : Option ℕ) (s : Bytes) (p : Step)
    → v6_group out el s ≡ p
    → ((out' : Bytes) (el' : Option ℕ) (s' : Bytes) → Leaves s' (v6_loop n out' el' s'))
    → Leaves s p
    → Leaves s (v6_loop (suc n) out el s)
unfolding v6_loop
v6_loop-Leaves_step n out el s fail e ih h = rw (e, v6_loop) tt
v6_loop-Leaves_step n out el s (stop out' el' s') e ih h = rw (e, v6_loop) h
v6_loop-Leaves_step n out el s (more out' el' s') e ih h =
    rw (e, v6_loop) (Leaves-mono s s' (v6_loop n out' el' s') (ih out' el' s') h)

v6_loop-Leaves : (n : ℕ) (out : Bytes) (el : Option ℕ) (s : Bytes) → Leaves s (v6_loop n out el s)
v6_loop-Leaves zero out el s = unfold v6_loop in λ r. r
v6_loop-Leaves (suc n) out el s =
    v6_loop-Leaves_step n out el s (v6_group out el s) refl (v6_loop-Leaves n)
      (v6_group-Leaves out el s)

v6_finish-Leaves : (p : Step) (s b : Bytes) → v6_finish p ≡ some b → Leaves s p → Reads s
unfolding v6_finish
v6_finish-Leaves fail s b e h = cc
v6_finish-Leaves (more out el t) s b e h = cc
v6_finish-Leaves (stop out none []) s b e h = h (refl, refl)
v6_finish-Leaves (stop out (some k) []) s b e h = h (refl, refl)
v6_finish-Leaves (stop out none (x ∷ t)) s b e h = cc
v6_finish-Leaves (stop out (some k) (x ∷ t)) s b e h = cc

loop-Reads : (el : Option ℕ) (s b : Bytes) → v6_finish (v6_loop 8 [] el s) ≡ some b → Reads s
loop-Reads el s b e = v6_finish-Leaves (v6_loop 8 [] el s) s b e (v6_loop-Leaves 8 [] el s)

colons-Reads : (s : Bytes) → Reads s → Reads (b':' ∷ b':' ∷ s)
colons-Reads s r = Reads-cons b':' (b':' ∷ s) refl refl (Reads-cons b':' s refl refl r)

parse_ipv6-Reads : (s b : Bytes) → parse_ipv6 s ≡ some b → Reads s
unfolding parse_ipv6
parse_ipv6-Reads [] b e = loop-Reads none [] b e
parse_ipv6-Reads (x ∷ []) b e = loop-Reads none (x ∷ []) b e
parse_ipv6-Reads (x ∷ y ∷ []) b e =
    ground (arith, loop-Reads none (x ∷ y ∷ []) b, colons-Reads [] (refl, refl))
parse_ipv6-Reads (x ∷ y ∷ z ∷ r) b e =
    ground (
      arith,
      loop-Reads none (x ∷ y ∷ z ∷ r) b,
      loop-Reads (some 0) (z ∷ r) b,
      colons-Reads (z ∷ r),
    )

parse_zoned-Reads : (s b : Bytes) → parse_zoned s ≡ some (v6 b []) → Reads s
unfolding parse_zoned with_zone
parse_zoned-Reads s b e = elim (Option-cases (cut b'%' s)) [
  | inl h ↦ ground (arith, h, parse_ipv6-Reads s b)
  | inr ((a, []), h) ↦ ground (arith, h)
  | inr ((a, z ∷ zs), h) ↦ elim (Option-cases (parse_ipv6 a)) [
    | inl k ↦ ground (arith, h, k)
    | inr (b', k) ↦ ground (arith, h, k)
  ]
]

zone_free : (s : Bytes) → parse_zoned s ≢ some invalid
unfolding parse_zoned with_zone
zone_free s e = ground arith

not_v4 : (s b : Bytes) → parse_zoned s ≢ some (v4 b)
unfolding parse_zoned with_zone
not_v4 s b e = ground arith

-- A text that net.ParseIP takes has only digits, dots and colons, and no dot ends it.
pub parse_ip-Reads :
    (s : Bytes) → parse_ip s ≡ true → (all ip_char s ≡ true) × (ends_in_dot s ≡ false)
unfolding parse_ip parse_addr
parse_ip-Reads s e = elim (Bool-cases (nat_eq (first_mark s) b'.')) [
  | inl dot ↦ elim (Option-cases (parse_ipv4 s)) [
    | inl h ↦ ground (arith, dot, h)
    | inr (b, h) ↦ parse_ipv4-Reads s b h
  ]
  | inr other ↦ elim (Bool-cases (nat_eq (first_mark s) b':')) [
    | inl colon ↦ elim (Option-cases (parse_zoned s)) [
      | inl h ↦ ground (arith, other, colon, h)
      | inr (invalid, h) ↦ absurd (zone_free s h)
      | inr (v4 b, h) ↦ absurd (not_v4 s b h)
      | inr (v6 b [], h) ↦ parse_zoned-Reads s b h
      | inr (v6 b (z ∷ zs), h) ↦ ground (arith, other, colon, h)
    ]
    | inr neither ↦ ground (arith, other, neither)
  ]
]
