-- ===== src/ProxyProtocol.antt =====
-- internal/proxyprotocol/proxyprotocol.go: PROXY protocol headers, version 1 and version 2.
mod Bind
pub mod Line
pub mod Block
pub mod Laws
use mc_router.Prelude.{
  ℕ, zero, suc, ◌+◌, ◌-◌, ◌*◌, Bool, true, false, not, ◌&&◌, ◌||◌, Option, none, some, List, [],
  ◌∷◌, ◌++◌, Bytes, any, if◌then◌else◌, ltb, leb, nat_eq, length, take, drop, reverse, ◌==◌,
  bytes_Eq, codes,
}
use mc_router.Go.Text.{trim_space, split, byte_at}
use mc_router.Go.Netip.{
  Addr, v4, v6, Prefix, is_valid, is4, is6, bit_len, contains, parse_addr, parse_prefix,
  prefix_from, unmap,
}

abbrev pub max_v1 : ℕ
max_v1 = 108

abbrev pub max_v2 : ℕ
max_v2 = 512

-- \r\n\r\n\0\r\nQUIT\n
abbrev pub v2_sig : Bytes
v2_sig = 13 ∷ 10 ∷ 13 ∷ 10 ∷ 0 ∷ 13 ∷ 10 ∷ b'Q' ∷ b'U' ∷ b'I' ∷ b'T' ∷ 10 ∷ []

-- A single address keeps the length that it had before it was unmapped.
unfoldable pub parse_cidr : Bytes → Option Prefix
parse_cidr value = elim (parse_addr (trim_space value)) [
  | some a ↦ some (prefix_from (unmap a) (bit_len a))
  | none ↦ parse_prefix (trim_space value)
]

unfoldable pub parse_cidrs : List Bytes → Option (List Prefix)
parse_cidrs [] = some []
parse_cidrs (v ∷ vs) = elim (parse_cidr v) [
  | none ↦ none
  | some p ↦ elim (parse_cidrs vs) [ none ↦ none | some ps ↦ some (p ∷ ps) ]
]

unfoldable pub trusted : List Prefix → Addr → Bool
trusted [] a = false
trusted (p ∷ ps) a = if contains p a then true else trusted ps a

pub data Error : Type 0 where
  eof oversized_v1 invalid_v1 invalid_v1_source : Error
  invalid_v2 oversized_v2 short_v2 unsupported_family : Error

pub data Result {ℓ} (A : Type ℓ) : Type ℓ where
  ok : A → Result A
  err : Error → Result A

abbrev pub guard : Bool → Error → Result (Unit {0})
guard true problem = ok tt
guard false problem = err problem

infixl 5 ◌>>=◌ ◌>>◌
abbrev pub ◌>>=◌ {ℓ κ} : {A : Type ℓ} {B : Type κ} → Result A → (A → Result B) → Result B
ok value >>= next = next value
err problem >>= next = err problem

abbrev pub ◌>>◌ {ℓ} : {B : Type ℓ} → Result (Unit {0}) → Result B → Result B
first >> next = first >>= λ _. next

-- The header line is kept in reverse, its last byte first.
abbrev pub ends_line : Bytes → Bool
ends_line (a ∷ b ∷ r) = nat_eq b 13 && nat_eq a 10
ends_line _ = false

-- The loop of readV1 with the bytes that may still be read: the line without its end, and the rest.
unfoldable pub read_line : ℕ → Bytes → Bytes → Result (Bytes × Bytes)
read_line zero line s = err oversized_v1
read_line (suc n) line [] = err eof
read_line (suc n) line (c ∷ s) =
    let rest = read_line n (c ∷ line) s in
    if ends_line (c ∷ line) then ok (reverse (drop 2 (c ∷ line)), s) else rest

-- The six fields of a version 1 line.
unfoldable pub parse_fields : List Bytes → Result Addr
parse_fields (name ∷ family ∷ source ∷ dest ∷ sport ∷ dport ∷ []) =
    if not (name == codes "PROXY") || not (family == codes "TCP4" || family == codes "TCP6")
    then err invalid_v1
    else elim (parse_addr source) [
      | none ↦ err invalid_v1_source
      | some a ↦
          if family == codes "TCP4" && not (is4 a) || family == codes "TCP6" && not (is6 a)
          then err invalid_v1_source
          else ok (unmap a)
    ]
parse_fields _ = err invalid_v1

unfoldable pub read_v1 : ℕ → Bytes → Result (Addr × Bytes)
read_v1 first s = do
  (line, rest) ← read_line (max_v1 - 1) (first ∷ []) s
  a ← parse_fields (split b' ' line)
  ok (a, rest)

-- io.ReadFull
unfoldable pub read_full : ℕ → Bytes → Result (Bytes × Bytes)
read_full n s = if leb n (length s) then ok (take n s, drop n s) else err eof

-- The address block by the family byte.
unfoldable pub v2_source : ℕ → Bytes → Result Addr
v2_source family payload =
    if nat_eq family 0x11
    then (if ltb (length payload) 12 then err short_v2 else ok (v4 (take 4 payload)))
    else if nat_eq family 0x21
    then (if ltb (length payload) 36 then err short_v2 else ok (v6 (take 16 payload) []))
    else err unsupported_family

unfoldable pub read_v2 : ℕ → Bytes → Result (Addr × Bytes)
read_v2 first s = do
  (tail, r) ← read_full 15 s
  guard ((first ∷ take 11 tail) == v2_sig && nat_eq (byte_at 11 tail) 0x21) invalid_v2
  guard (not (ltb max_v2 (byte_at 13 tail * 256 + byte_at 14 tail))) oversized_v2
  (payload, rest) ← read_full (byte_at 13 tail * 256 + byte_at 14 tail) r
  a ← v2_source (byte_at 12 tail) payload
  ok (a, rest)

-- One header, and what follows it on the connection.
unfoldable pub read : Bytes → Result (Addr × Bytes)
read [] = err eof
read (first ∷ s) = if nat_eq first b'P' then read_v1 first s else read_v2 first s
