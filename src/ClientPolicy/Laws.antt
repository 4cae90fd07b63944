-- ===== src/ClientPolicy/Laws.antt =====
-- Which addresses the policy of policy.go lets in.
use mc_router.Prelude.{◌≡◌, ◌≢◌, true, List, [], some, Bytes}
use mathlib.Core.List.{Memᴰ}
use mc_router.Go.Netip.{Addr, Prefix, contains}
use mc_router.ClientPolicy.{parse_entry}

-- Some text of the list names a prefix that contains the address.
pub record IsNamed (texts : List Bytes) (a : Addr) : Type 0 where
  pub text : Bytes
  pub listed : Memᴰ text texts
  pub prefix : Prefix
  pub named : parse_entry text ≡ some prefix
  pub matches : contains prefix a ≡ true

-- Whether an address is let in by the texts of the allow list and the deny list: an allow list that is
-- not empty decides alone.
pub data Admits (allow deny : List Bytes) (a : Addr) : Type 0 where
  by_allow : allow ≢ [] → IsNamed allow a → Admits allow deny a
  by_deny : allow ≡ [] → ¬ IsNamed deny a → Admits allow deny a
