-- ===== src/Go/Netip.antt =====
-- net/netip addresses and prefixes, and net.ParseIP.
use mc_router.Prelude.{
  ℕ, ◌+◌, ◌-◌, ◌*◌, ◌/◌, ◌^◌, Bool, true, false, not, ◌&&◌, ◌||◌, ◌≡◌, ◌↔◌, arith, Option, none,
  some, [], ◌∷◌, ◌++◌, Bytes, Eq, bytes_eq, bytes_eq_iff, ltb, leb, nat_eq, take, drop,
  if◌then◌else◌,
}
use mc_router.Prelude.Int.{ℤ, pos, negsuc}
use mc_router.Go.Text.{byte_at, between, cut, cut_last, is_empty}
use mc_router.Go.Ipv4.{parse_ipv4}
use mc_router.Go.Ipv6.{parse_ipv6, zeros}
use mc_router.Go.Conv.{atoi}

-- netip.Addr: the zero value, four bytes, or sixteen bytes and a zone.
pub data Addr : Type 0 where
  invalid : Addr
  v4 : Bytes → Addr
  v6 : Bytes → Bytes → Addr

abbrev pub is_valid : Addr → Bool
is_valid invalid = false
is_valid _ = true

abbrev pub is4 : Addr → Bool
is4 (v4 b) = true
is4 _ = false

abbrev pub is6 : Addr → Bool
is6 (v6 b z) = true
is6 _ = false

abbrev pub bit_len : Addr → ℕ
bit_len invalid = 0
bit_len (v4 b) = 32
bit_len (v6 b z) = 128

abbrev pub mapped_prefix : Bytes
mapped_prefix = zeros 10 ++ 0xff ∷ 0xff ∷ []

-- Addr.Unmap: an IPv4-mapped IPv6 address becomes the IPv4 address.
unfoldable pub unmap : Addr → Addr
unmap (v6 b z) = if bytes_eq (take 12 b) mapped_prefix then v4 (drop 12 b) else v6 b z
unmap invalid = invalid
unmap (v4 b) = v4 b

unfoldable pub with_zone : Option Bytes → Bytes → Option Addr
with_zone none z = none
with_zone (some b) z = some (v6 b z)

-- An empty zone behind a percent sign is an error.
unfoldable pub parse_zoned : Bytes → Option Addr
unfolding with_zone
parse_zoned s = elim (cut b'%' s) [
  | none ↦ with_zone (parse_ipv6 s) []
  | some (a, []) ↦ none
  | some (a, z ∷ zs) ↦ with_zone (parse_ipv6 a) (z ∷ zs)
]

-- The first of `.`, `:` and `%` decides how the text is read.
unfoldable pub first_mark : Bytes → ℕ
first_mark [] = 0
first_mark (c ∷ cs) = if nat_eq c b'.' || nat_eq c b':' || nat_eq c b'%' then c else first_mark cs

unfoldable pub parse_addr : Bytes → Option Addr
unfolding parse_zoned first_mark
parse_addr s =
    if nat_eq (first_mark s) b'.'
    then elim (parse_ipv4 s) [ none ↦ none | some b ↦ some (v4 b) ]
    else if nat_eq (first_mark s) b':'
    then parse_zoned s
    else none

-- net.ParseIP(s) != nil: an address with no zone.
unfoldable pub parse_ip : Bytes → Bool
unfolding parse_addr
parse_ip s = elim (parse_addr s) [
  | none ↦ false
  | some invalid ↦ false
  | some (v4 b) ↦ true
  | some (v6 b z) ↦ is_empty z
]

-- The big-endian value of a byte string.
unfoldable pub be_value : ℕ → Bytes → ℕ
be_value acc [] = acc
be_value acc (x ∷ xs) = be_value (acc * 256 + x) xs

unfoldable pub addr_value : Addr → ℕ
unfolding be_value
addr_value invalid = 0
addr_value (v4 b) = be_value 0 b
addr_value (v6 b z) = be_value 0 b

-- netip.Prefix; an invalid one has no length. `Masked` is left to `contains`, which reads only the
-- bits that a mask keeps.
pub record Prefix : Type 0 where
  pub addr : Addr
  pub bits : Option ℕ

abbrev pub without_zone : Addr → Addr
without_zone (v6 b z) = v6 b []
without_zone (v4 b) = v4 b
without_zone invalid = invalid

unfoldable pub prefix_from : Addr → ℕ → Prefix
prefix_from a n = record {
  addr = without_zone a;
  bits = if is_valid a && leb n (bit_len a) then some n else none;
}

abbrev pub has_zone : Addr → Bool
has_zone (v6 b (z ∷ zs)) = true
has_zone _ = false

-- Prefix.Contains: the same family, no zone, and the same leading bits.
unfoldable pub contains : Prefix → Addr → Bool
unfolding addr_value
contains p a = elim p.bits [
  | none ↦ false
  | some n ↦
      not (has_zone a)
      && is_valid a
      && nat_eq (bit_len p.addr) (bit_len a)
      && nat_eq (addr_value p.addr / 2 ^ (bit_len a - n)) (addr_value a / 2 ^ (bit_len a - n))
]

-- The digits of a prefix length: no sign, and no leading zero but in `0` itself.
unfoldable pub plain_bits : Bytes → Bool
plain_bits [] = true
plain_bits (c ∷ []) = true
plain_bits (c ∷ d ∷ r) = between b'1' b'9' c

unfoldable pub prefix_of : Addr → Option ℤ → Option Prefix
unfolding prefix_from
prefix_of a none = none
prefix_of a (some (negsuc n)) = none
prefix_of a (some (pos n)) =
    if has_zone a || ltb (bit_len a) n then none else some (prefix_from a n)

unfoldable pub parse_prefix : Bytes → Option Prefix
unfolding parse_addr plain_bits prefix_of
parse_prefix s = elim (cut_last b'/' s) [
  | none ↦ none
  | some (a, digits) ↦ elim (parse_addr a) [
    | none ↦ none
    | some addr ↦ if plain_bits digits then prefix_of addr (atoi digits) else none
  ]
]

-- net.IP.IsUnspecified, IsMulticast and the comparison with IPv4bcast; an IPv4-mapped address counts
-- as the IPv4 address.
unfoldable pub is_unspecified : Addr → Bool
unfolding unmap
is_unspecified a = nat_eq (addr_value (unmap a)) 0 && is_valid a

unfoldable pub is_multicast : Addr → Bool
unfolding unmap
is_multicast a = elim (unmap a) [
  | invalid ↦ false
  | v4 b ↦ between 224 239 (byte_at 0 b)
  | v6 b z ↦ nat_eq (byte_at 0 b) 0xff
]

unfoldable pub is_broadcast : Addr → Bool
unfolding unmap
is_broadcast a = is4 (unmap a) && nat_eq (addr_value (unmap a)) 0xffff_ffff

-- Addresses as map keys.
unfoldable pub addr_eq : Addr → Addr → Bool
addr_eq invalid invalid = true
addr_eq (v4 a) (v4 b) = bytes_eq a b
addr_eq (v6 a y) (v6 b z) = bytes_eq a b && bytes_eq y z
addr_eq _ _ = false

pub addr_eq_iff : (a b : Addr) → (addr_eq a b ≡ true) ↔ (a ≡ b)
unfolding addr_eq
addr_eq_iff invalid invalid = ground arith
addr_eq_iff (v4 a) (v4 b) = ground (arith, bytes_eq_iff a b)
addr_eq_iff (v6 a y) (v6 b z) = ground (arith, bytes_eq_iff a b, bytes_eq_iff y z)
addr_eq_iff _ _ = ground arith

instance abbrev pub addr_Eq : Eq Addr
addr_Eq = record { beq = addr_eq; beq_iff = addr_eq_iff }
