-- ===== src/Mcproto/VarIntLaws.antt =====
-- VarInts: bounds, what is consumed, and reading back what was written.
use mc_router.Prelude.{
  ℕ, zero, suc, ◌+◌, ◌*◌, ◌/◌, ◌%◌, ◌^◌, ◌≤◌, ◌<◌, ◌≡◌, refl, ap, ◌∙◌, arith, inl, inr, [], ◌∷◌,
  ◌++◌, Bytes, ltb, length, length-append, Bool-cases, ltb→lt,
}
use Prim.Native.Nat.{bit_or}
use native.Mathlib.Nat.{div-add-mod, mul-one, zero-add}
use mathlib.Core.Path.{ap₂}
use mathlib.Core.List.{append_assoc}
use mc_router.Prelude.Bits.{bit_and-0x7f, bit_and-0x80, bit_or_above}
use mc_router.Mcproto.VarInt.{
  done, add_group, read_loop, read_varint, write_loop, write_varint, max_varint_bytes,
}

or_disjoint : (k value q x : ℕ) → value < 2 ^ k → x ≡ q * 2 ^ k → bit_or value x ≡ value + q * 2 ^ k
or_disjoint k value q x h e = rw e (bit_or_above k value q h)

-- In rounds before the last the group stays below the sign bit; the last keeps four of its bits.
add_group_low :
    (i value b : ℕ)
    → i < 4
    → value < 2 ^ (7 * i)
    → add_group value i b ≡ value + b % 128 * 2 ^ (7 * i)
unfolding add_group
add_group_low zero value b h k = or_disjoint 0 value (b % 128) _ k (omega (arith, bit_and-0x7f b))
add_group_low (suc zero) value b h k =
    or_disjoint 7 value (b % 128) _ k (omega (arith, bit_and-0x7f b))
add_group_low (suc (suc zero)) value b h k =
    or_disjoint 14 value (b % 128) _ k (omega (arith, bit_and-0x7f b))
add_group_low (suc (suc (suc zero))) value b h k =
    or_disjoint 21 value (b % 128) _ k (omega (arith, bit_and-0x7f b))
add_group_low (suc (suc (suc (suc i)))) value b h k = absurd (omega arith)

add_group_last : (value b : ℕ) → value < 2 ^ 28 → add_group value 4 b ≡ value + b % 16 * 2 ^ 28
unfolding add_group
add_group_last value b k = or_disjoint 28 value (b % 16) _ k (omega (arith, bit_and-0x7f b))

pow_next : (i : ℕ) → i < 4 → 2 ^ (7 * (i + 1)) ≡ 128 * 2 ^ (7 * i)
pow_next zero h = refl
pow_next (suc zero) h = refl
pow_next (suc (suc zero)) h = refl
pow_next (suc (suc (suc zero))) h = refl
pow_next (suc (suc (suc (suc i)))) h = absurd (omega arith)

add_group_low-lt :
    (i value b : ℕ) → i < 4 → value < 2 ^ (7 * i) → add_group value i b < 2 ^ (7 * (i + 1))
add_group_low-lt zero value b h k = omega (arith, add_group_low 0 value b h k)
add_group_low-lt (suc zero) value b h k = omega (arith, add_group_low 1 value b h k)
add_group_low-lt (suc (suc zero)) value b h k = omega (arith, add_group_low 2 value b h k)
add_group_low-lt (suc (suc (suc zero))) value b h k = omega (arith, add_group_low 3 value b h k)
add_group_low-lt (suc (suc (suc (suc i)))) value b h k = absurd (omega arith)

pow_small : (i : ℕ) → i ≤ 4 → 2 ^ (7 * i) ≤ 2 ^ 28
pow_small zero h = omega arith
pow_small (suc zero) h = omega arith
pow_small (suc (suc zero)) h = omega arith
pow_small (suc (suc (suc zero))) h = omega arith
pow_small (suc (suc (suc (suc zero)))) h = omega arith
pow_small (suc (suc (suc (suc (suc i))))) h = absurd (omega arith)

add_group-lt : (i value b : ℕ) → i ≤ 4 → value < 2 ^ (7 * i) → add_group value i b < 2 ^ 32
add_group-lt zero value b h k = omega (arith, add_group_low-lt 0 value b (omega arith) k)
add_group-lt (suc zero) value b h k = omega (arith, add_group_low-lt 1 value b (omega arith) k)
add_group-lt (suc (suc zero)) value b h k =
    omega (arith, add_group_low-lt 2 value b (omega arith) k)
add_group-lt (suc (suc (suc zero))) value b h k =
    omega (arith, add_group_low-lt 3 value b (omega arith) k)
add_group-lt (suc (suc (suc (suc zero)))) value b h k = omega (arith, add_group_last value b k)
add_group-lt (suc (suc (suc (suc (suc i))))) value b h k = absurd (omega arith)

-- What a successful read says of its input.
abbrev Took : Bytes → Bytes → Bytes → Bytes → ℕ → Type 0
Took before raw rest s n =
    (raw ++ rest ≡ before ++ s) × (length before < length raw) × (length raw ≤ length before + n)

read_loop-Took :
    (n i value : ℕ) (raw s : Bytes) (v : ℕ) (raw' rest : Bytes)
    → read_loop n i value raw s ≡ done v raw' rest
    → Took raw raw' rest s n
unfolding read_loop
read_loop-Took zero i value raw s v raw' rest e = cc
read_loop-Took (suc n) i value raw [] v raw' rest e = cc
read_loop-Took (suc n) i value raw (b ∷ s) v raw' rest e = ground (
  arith,
  append_assoc raw (b ∷ []) s,
  length-append raw (b ∷ []),
  read_loop-Took n (i + 1) (add_group value i b) (raw ++ b ∷ []) s v raw' rest,
)

read_loop-lt :
    (n i value : ℕ) (raw s : Bytes) (v : ℕ) (raw' rest : Bytes)
    → i + n ≡ 5
    → value < 2 ^ (7 * i)
    → read_loop n i value raw s ≡ done v raw' rest
    → v < 2 ^ 32
unfolding read_loop
read_loop-lt zero i value raw s v raw' rest h k e = cc
read_loop-lt (suc n) i value raw [] v raw' rest h k e = cc
read_loop-lt (suc zero) i value raw (b ∷ s) v raw' rest h k e =
    ground (arith, add_group-lt i value b (omega arith) k)
read_loop-lt (suc (suc n)) i value raw (b ∷ s) v raw' rest h k e = ground (
  arith,
  add_group-lt i value b (omega arith) k,
  add_group_low-lt i value b (omega arith) k,
  read_loop-lt (suc n) (i + 1) (add_group value i b) (raw ++ b ∷ []) s v raw' rest,
)

-- A VarInt that is read is a 32-bit value; its bytes are the front of the input, one to five.
pub read_varint_bounds :
    (s : Bytes) (v : ℕ) (raw rest : Bytes)
    → read_varint s ≡ done v raw rest
    → (v < 2 ^ 32) × (raw ++ rest ≡ s) × (1 ≤ length raw) × (length raw ≤ max_varint_bytes)
unfolding read_varint
read_varint_bounds s v raw rest e =
    let took = read_loop-Took 5 0 0 [] s v raw rest e in
    (read_loop-lt 5 0 0 [] s v raw rest refl (omega arith) e, took.0, took.1, took.2)

write_last : (w n : ℕ) → w < 128 → write_loop (suc n) w ≡ w ∷ []
unfolding write_loop
write_last w n h = ground (arith, bit_and-0x7f w)

write_more : (w n : ℕ) → 128 ≤ w → write_loop (suc n) w ≡ (w % 128 + 128) ∷ write_loop n (w / 128)
unfolding write_loop
write_more w n h = ground (arith, bit_and-0x7f w, bit_or_above 7 (w % 128) 1 (omega arith))

read_last :
    (n i value w : ℕ) (raw rest : Bytes)
    → w < 128
    → read_loop (suc n) i value raw (w ∷ rest) ≡ done (add_group value i w) (raw ++ w ∷ []) rest
unfolding read_loop
read_last n i value w raw rest h = ground (arith, bit_and-0x80 w)

read_more :
    (n i value g : ℕ) (raw rest : Bytes)
    → g < 128
    → read_loop (suc n) i value raw ((g + 128) ∷ rest)
      ≡ read_loop n (i + 1) (add_group value i (g + 128)) (raw ++ (g + 128) ∷ []) rest
unfolding read_loop
read_more n i value g raw rest h = ground (arith, bit_and-0x80 (g + 128))

add_group-fits :
    (i value w : ℕ)
    → i ≤ 4
    → value < 2 ^ (7 * i)
    → w < 128
    → value + w * 2 ^ (7 * i) < 2 ^ 32
    → add_group value i w ≡ value + w * 2 ^ (7 * i)
add_group-fits zero value w h k l fits = omega (arith, add_group_low 0 value w (omega arith) k)
add_group-fits (suc zero) value w h k l fits =
    omega (arith, add_group_low 1 value w (omega arith) k)
add_group-fits (suc (suc zero)) value w h k l fits =
    omega (arith, add_group_low 2 value w (omega arith) k)
add_group-fits (suc (suc (suc zero))) value w h k l fits =
    omega (arith, add_group_low 3 value w (omega arith) k)
add_group-fits (suc (suc (suc (suc zero)))) value w h k l fits =
    omega (arith, add_group_last value w k)
add_group-fits (suc (suc (suc (suc (suc i))))) value w h k l fits = absurd (omega arith)

last_group_small : (i value w : ℕ) → i ≡ 4 → value + w * 2 ^ (7 * i) < 2 ^ 32 → w < 16
last_group_small i value w e fits =
    let fits' : value + w * 2 ^ 28 < 2 ^ 32 = rw e at fits in omega arith

-- The value after a group that is not the last, and what is left of the number.
regroup :
    (i value w : ℕ)
    → i < 4
    → value + w % 128 * 2 ^ (7 * i) + w / 128 * 2 ^ (7 * (i + 1)) ≡ value + w * 2 ^ (7 * i)
regroup i value w h = omega (
  arith,
  ap (λ (t : ℕ). w / 128 * t) (pow_next i h),
  ap (λ (t : ℕ). t * 2 ^ (7 * i)) (div-add-mod w 128),
)

add_group_more :
    (i value w : ℕ)
    → i < 4
    → value < 2 ^ (7 * i)
    → add_group value i (w % 128 + 128) ≡ value + w % 128 * 2 ^ (7 * i)
add_group_more i value w h k =
    add_group_low i value (w % 128 + 128) h k ∙ ap (λ t. value + t * 2 ^ (7 * i)) (omega arith)

next_lt :
    (i value w : ℕ)
    → i < 4
    → value < 2 ^ (7 * i)
    → value + w % 128 * 2 ^ (7 * i) < 2 ^ (7 * (i + 1))
next_lt i value w h k = rw (add_group_low i value w h k) at (add_group_low-lt i value w h k)

read_loop-write_loop :
    (n i value w : ℕ) (raw rest : Bytes)
    → i + suc n ≡ 5
    → value < 2 ^ (7 * i)
    → value + w * 2 ^ (7 * i) < 2 ^ 32
    → read_loop (suc n) i value raw (write_loop (suc n) w ++ rest)
      ≡ done (value + w * 2 ^ (7 * i)) (raw ++ write_loop (suc n) w) rest
read_loop-write_loop zero i value w raw rest h k fits =
    let small = last_group_small i value w (omega arith) fits in
    rw (write_last w 0 (omega arith)) (
      read_last 0 i value w raw rest (omega arith)
      ∙ ap (λ t. done t (raw ++ w ∷ []) rest)
          (add_group-fits i value w (omega arith) k (omega arith) fits))
read_loop-write_loop (suc n) i value w raw rest h k fits = elim (Bool-cases (ltb w 128)) [
  | inl small ↦ rw (write_last w (suc n) (ltb→lt w 128 small)) (
      read_last (suc n) i value w raw rest (ltb→lt w 128 small)
      ∙ ap (λ t. done t (raw ++ w ∷ []) rest)
          (add_group-fits i value w (omega arith) k (ltb→lt w 128 small) fits))
  | inr large ↦ rw (write_more w (suc n) (ground arith)) (
      read_more (suc n) i value (w % 128) raw (write_loop (suc n) (w / 128) ++ rest) (omega arith)
      ∙ rw (add_group_more i value w (omega arith) k) (
          read_loop-write_loop n (i + 1) (value + w % 128 * 2 ^ (7 * i)) (w / 128)
            (raw ++ (w % 128 + 128) ∷ []) rest (omega arith) (next_lt i value w (omega arith) k)
            (omega (arith, regroup i value w (omega arith)))
          ∙ ap₂ (λ t u. done t u rest) (regroup i value w (omega arith))
              (append_assoc raw ((w % 128 + 128) ∷ []) (write_loop (suc n) (w / 128)))))
]

-- Reading back what was written gives the value, the bytes written and what follows them.
pub read_varint-write_varint :
    (w : ℕ) (rest : Bytes)
    → w < 2 ^ 32
    → read_varint (write_varint w ++ rest) ≡ done w (write_varint w) rest
unfolding read_varint write_varint
read_varint-write_varint w rest h =
    rw (mul-one w, zero-add w) at
      (read_loop-write_loop 4 0 0 w [] rest refl (omega arith) (omega arith))
