-- ===== src/HostAddr.antt =====
-- internal/hostaddr/hostaddr.go: the canonical form of a requested server address. Every error of
-- the source wraps ErrInvalid and none is told apart from another, so an error is `none`.
pub mod Plain
pub mod Laws
use mc_router.Prelude.{
  ℕ, zero, suc, Bool, true, false, not, ◌&&◌, ◌||◌, Option, none, some, [], ◌∷◌, Bytes, ltb, leb,
  nat_eq, length, all, if◌then◌else◌, reverse,
}
use mc_router.Go.Text.{
  between, byte_at, is_empty, trim_space, to_lower, trim_suffix, trim_prefix, before, split,
}
use mc_router.Go.Utf8.{utf8_valid}
use mc_router.Go.Netip.{parse_ip}

abbrev pub max_host_bytes : ℕ
max_host_bytes = 253

unfoldable pub host_char : ℕ → Bool
host_char c = between b'a' b'z' c || between b'0' b'9' c || nat_eq c b'-'

-- The last byte, 256 for an empty text.
abbrev pub last_byte : Bytes → ℕ
last_byte [] = 256
last_byte (c ∷ []) = c
last_byte (c ∷ d ∷ r) = last_byte (d ∷ r)

-- One round of the loop over the labels.
unfoldable pub label_ok : Bytes → Bool
unfolding host_char
label_ok label =
    not (is_empty label)
    && leb (length label) 63
    && not (nat_eq (byte_at 0 label) b'-' || nat_eq (last_byte label) b'-')
    && all host_char label

-- The text in front of the first NUL, trimmed, in lower case and without a final dot.
unfoldable pub canonical : Bytes → Bytes
canonical address = trim_suffix b'.' (to_lower (trim_space (before 0 address)))

-- An IPv6 address may stand in brackets.
unfoldable pub ip_candidate : Bytes → Bytes
ip_candidate s = trim_prefix b'[' (trim_suffix b']' s)

-- The checks on the trimmed text, in the order of the source.
unfoldable pub check_host : Bytes → Option Bytes
unfolding label_ok ip_candidate
check_host s =
    if is_empty s
    then none
    else if ltb max_host_bytes (length s)
    then none
    else if not (utf8_valid s)
    then none
    else if parse_ip (ip_candidate s)
    then some (ip_candidate s)
    else if all label_ok (split b'.' s)
    then some s
    else none

unfoldable pub normalize : Bytes → Option Bytes
unfolding canonical check_host
normalize address = check_host (canonical address)
