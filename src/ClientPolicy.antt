-- ===== src/ClientPolicy.antt =====
-- internal/clientpolicy/policy.go: which client addresses may connect.
pub mod Laws
use mc_router.Prelude.{
  ℕ, Bool, true, false, not, ◌&&◌, Option, none, some, List, [], ◌∷◌, Bytes, any, if◌then◌else◌,
}
use mc_router.Go.Text.{trim_space, is_empty}
use mc_router.Go.Netip.{
  Addr, Prefix, is_valid, bit_len, contains, parse_addr, parse_prefix, prefix_from,
}

pub record Policy : Type 0 where
  pub allow : List Prefix
  pub deny : List Prefix

unfoldable pub contains_any : List Prefix → Addr → Bool
contains_any [] a = false
contains_any (p ∷ ps) a = if contains p a then true else contains_any ps a

-- An allow list, when there is one, decides alone.
unfoldable pub allows : Policy → Addr → Bool
allows p a =
    if not (is_valid a)
    then false
    else if not (is_empty p.allow)
    then contains_any p.allow a
    else not (contains_any p.deny a)

-- A prefix, or a single address as the prefix of its whole length.
unfoldable pub parse_entry : Bytes → Option Prefix
parse_entry value = elim (is_empty (trim_space value)) [
  | true ↦ none
  | false ↦ elim (parse_prefix (trim_space value)) [
    | some p ↦ some p
    | none ↦ elim (parse_addr (trim_space value)) [
      | none ↦ none
      | some a ↦ some (prefix_from a (bit_len a))
    ]
  ]
]

-- Stops at the first entry that cannot be parsed.
unfoldable pub parse_prefixes : List Bytes → Option (List Prefix)
parse_prefixes [] = some []
parse_prefixes (v ∷ vs) = elim (parse_entry v) [
  | none ↦ none
  | some p ↦ elim (parse_prefixes vs) [ none ↦ none | some ps ↦ some (p ∷ ps) ]
]

unfoldable pub new : List Bytes → List Bytes → Option Policy
new allow deny = elim (parse_prefixes allow) [
  | none ↦ none
  | some a ↦ elim (parse_prefixes deny) [
    | none ↦ none
    | some d ↦ some (record { allow = a; deny = d })
  ]
]
