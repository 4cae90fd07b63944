-- ===== src/HostAddr/Laws.antt =====
-- The form of what hostaddr.Normalize returns.
use mc_router.Prelude.{
  ℕ, zero, suc, ◌≤◌, Bool, true, false, not, ◌||◌, ◌≡◌, ◌↔◌, refl, arith, some, List, [], ◌∷◌, ◌++◌,
  Bytes, length, all, any,
}
use mc_router.Go.Text.{
  between, is_empty, trim_space, lower_head, lower_from, to_lower, trim_suffix, trim_prefix, before,
  split, cons_first,
}
use mc_router.Go.Netip.{parse_ip}
use mc_router.Go.IpText.{ip_char, ends_in_dot, parse_ip-Reads}
use mc_router.HostAddr.{
  max_host_bytes, host_char, label_ok, canonical, ip_candidate, check_host, normalize,
}
use mc_router.HostAddr.Plain.{
  plain_char, all-IsPlain, before-plain, trim_space-plain, to_lower-plain, utf8_valid-plain,
  trim_suffix_other, trim_prefix_other, plain-no_bracket, trim_dot_other,
}

abbrev not_upper : ℕ → Bool
not_upper c = not (between b'A' b'Z' c)

lower_head-not_upper : (c : ℕ) (s : Bytes) → not_upper (lower_head c s).0 ≡ true
unfolding lower_head
lower_head-not_upper c s = ground arith

lower_from-not_upper : (k : ℕ) (s : Bytes) → all not_upper (lower_from k s) ≡ true
unfolding lower_from
lower_from-not_upper k [] = refl
lower_from-not_upper (suc k) (c ∷ s) = lower_from-not_upper k s
lower_from-not_upper zero (c ∷ s) =
    ground (arith, lower_head-not_upper c s, lower_from-not_upper (lower_head c s).1 s)

module _ (p : ℕ → Bool) (c : ℕ) where
  all-trim_suffix : (s : Bytes) → all p s ≡ true → all p (trim_suffix c s) ≡ true
  unfolding trim_suffix
  all-trim_suffix [] h = refl
  all-trim_suffix (x ∷ []) h = ground arith
  all-trim_suffix (x ∷ y ∷ r) h = ground (arith, all-trim_suffix (y ∷ r))

  all-trim_prefix : (s : Bytes) → all p s ≡ true → all p (trim_prefix c s) ≡ true
  unfolding trim_prefix
  all-trim_prefix [] h = refl
  all-trim_prefix (x ∷ s) h = ground arith

  length-trim_suffix-le : (s : Bytes) → length (trim_suffix c s) ≤ length s
  unfolding trim_suffix
  length-trim_suffix-le [] = omega arith
  length-trim_suffix-le (x ∷ []) = ground arith
  length-trim_suffix-le (x ∷ y ∷ r) = ground (arith, length-trim_suffix-le (y ∷ r))

  length-trim_prefix-le : (s : Bytes) → length (trim_prefix c s) ≤ length s
  unfolding trim_prefix
  length-trim_prefix-le [] = omega arith
  length-trim_prefix-le (x ∷ s) = ground arith

canonical-not_upper : (a : Bytes) → all not_upper (canonical a) ≡ true
unfolding canonical to_lower
canonical-not_upper a =
    all-trim_suffix not_upper b'.' _ (lower_from-not_upper 0 (trim_space (before 0 a)))

ip_text-plain :
    (s : Bytes) → all ip_char s ≡ true → all not_upper s ≡ true → all plain_char s ≡ true
ip_text-plain [] h k = refl
ip_text-plain (c ∷ s) h k = ground (arith, ip_text-plain s)

-- The characters of a text are those of its labels and the dots between them.
cons_first-host :
    (x : ℕ) (ps : List Bytes)
    → all (all host_char) (cons_first x ps) ≡ true
    → (host_char x ≡ true) × (all (all host_char) ps ≡ true)
cons_first-host x [] h = ground arith
cons_first-host x (p ∷ ps) h = ground arith

split-plain : (s : Bytes) → all (all host_char) (split b'.' s) ≡ true → all plain_char s ≡ true
unfolding split host_char
split-plain [] h = refl
split-plain (x ∷ s) h = ground (arith, split-plain s, cons_first-host x (split b'.' s))

label_ok-host : (ps : List Bytes) → all label_ok ps ≡ true → all (all host_char) ps ≡ true
unfolding label_ok
label_ok-host [] h = refl
label_ok-host (p ∷ ps) h = ground (arith, label_ok-host ps)

-- A final dot leaves an empty label behind the first.
abbrev later_empty : List Bytes → Bool
later_empty [] = false
later_empty (p ∷ ps) = any is_empty ps

later_empty-any : (ps : List Bytes) → later_empty ps ≡ true → any is_empty ps ≡ true
later_empty-any [] h = h
later_empty-any (p ∷ ps) h = ground arith

later_empty-cons_first : (x : ℕ) (ps : List Bytes) → later_empty (cons_first x ps) ≡ later_empty ps
later_empty-cons_first x [] = refl
later_empty-cons_first x (p ∷ ps) = refl

split_final_dot : (s : Bytes) → ends_in_dot s ≡ true → later_empty (split b'.' s) ≡ true
unfolding split
split_final_dot [] h = cc
split_final_dot (x ∷ []) h = ground arith
split_final_dot (x ∷ y ∷ r) h = ground (
  arith,
  split_final_dot (y ∷ r) h,
  later_empty-any (split b'.' (y ∷ r)),
  later_empty-cons_first x (split b'.' (y ∷ r)),
)

labels-not_empty : (ps : List Bytes) → all label_ok ps ≡ true → any is_empty ps ≡ false
unfolding label_ok
labels-not_empty [] h = refl
labels-not_empty (p ∷ ps) h = ground (arith, labels-not_empty ps)

labels-no_final_dot : (s : Bytes) → all label_ok (split b'.' s) ≡ true → ends_in_dot s ≡ false
labels-no_final_dot s h =
    ground
      (arith, split_final_dot s, later_empty-any (split b'.' s), labels-not_empty (split b'.' s) h)

-- A canonical address: an IP address in lower case, or DNS labels joined by dots.
pub record IsCanonical (h : Bytes) : Type 0 where
  pub plain : all plain_char h ≡ true
  pub no_final_dot : ends_in_dot h ≡ false
  pub not_empty : is_empty h ≡ false
  pub short : length h ≤ max_host_bytes
  pub address : (parse_ip h || all label_ok (split b'.' h)) ≡ true

parse_ip-not_empty : (s : Bytes) → parse_ip s ≡ true → is_empty s ≡ false
unfolding parse_ip
parse_ip-not_empty [] h = cc
parse_ip-not_empty (c ∷ s) h = refl

candidate-IsCanonical :
    (s : Bytes)
    → all not_upper s ≡ true
    → length s ≤ max_host_bytes
    → parse_ip (ip_candidate s) ≡ true
    → IsCanonical (ip_candidate s)
candidate-IsCanonical s low short ip = record {
  plain = ip_text-plain (ip_candidate s) (parse_ip-Reads (ip_candidate s) ip).0 lower;
  no_final_dot = (parse_ip-Reads (ip_candidate s) ip).1;
  not_empty = parse_ip-not_empty (ip_candidate s) ip;
  short = within;
  address = rw ip;
}
  where
    lower : all not_upper (ip_candidate s) ≡ true
    lower =
        unfold ip_candidate in
        all-trim_prefix not_upper b'[' _ (all-trim_suffix not_upper b']' s low)

    within : length (ip_candidate s) ≤ max_host_bytes
    within =
        unfold ip_candidate in
        omega (
          arith,
          length-trim_prefix-le not_upper b'[' (trim_suffix b']' s),
          length-trim_suffix-le not_upper b']' s,
        )

labels-IsCanonical :
    (s : Bytes)
    → is_empty s ≡ false
    → length s ≤ max_host_bytes
    → all label_ok (split b'.' s) ≡ true
    → IsCanonical s
labels-IsCanonical s full short ok = record {
  plain = split-plain s (label_ok-host (split b'.' s) ok);
  no_final_dot = labels-no_final_dot s ok;
  not_empty = full;
  short = short;
  address = rw ok (ground arith);
}

check_host-IsCanonical :
    (s h : Bytes) → all not_upper s ≡ true → check_host s ≡ some h → IsCanonical h
unfolding check_host
check_host-IsCanonical s h low e = ground (arith, candidate-IsCanonical s low, labels-IsCanonical s)

-- Whatever `Normalize` returns is canonical.
pub normalize-IsCanonical : (a h : Bytes) → normalize a ≡ some h → IsCanonical h
unfolding normalize
normalize-IsCanonical a h e = check_host-IsCanonical (canonical a) h (canonical-not_upper a) e

canonical-still : (h : Bytes) → IsCanonical h → canonical h ≡ h
canonical-still h v =
    let p = all-IsPlain h v.plain in
    unfold canonical in
    rw (before-plain h p)
      (rw (trim_space-plain h p) (rw (to_lower-plain h p) (trim_dot_other h v.no_final_dot)))

candidate-still : (h : Bytes) → IsCanonical h → ip_candidate h ≡ h
candidate-still h v =
    let p = all-IsPlain h v.plain in
    unfold ip_candidate in
    rw (trim_suffix_other b']' h (plain-no_bracket h b']' refl p))
      (trim_prefix_other b'[' h (plain-no_bracket h b'[' refl p))

check_host_of_IsCanonical : (h : Bytes) → IsCanonical h → check_host h ≡ some h
unfolding check_host
check_host_of_IsCanonical h v =
    ground (arith, candidate-still h v, utf8_valid-plain h (all-IsPlain h v.plain))

-- A canonical address is its own normal form.
pub normalize_of_IsCanonical : (h : Bytes) → IsCanonical h → normalize h ≡ some h
normalize_of_IsCanonical h v =
    unfold normalize in rw (canonical-still h v) (check_host_of_IsCanonical h v)

-- `Normalize` leaves an address alone exactly when the address is canonical.
pub normalize-fixed_iff : (h : Bytes) → (normalize h ≡ some h) ↔ IsCanonical h
normalize-fixed_iff h = (normalize-IsCanonical h h, normalize_of_IsCanonical h)

-- Normalising what `Normalize` returned returns it unchanged.
pub normalize_idempotent : (a h : Bytes) → normalize a ≡ some h → normalize h ≡ some h
normalize_idempotent a h e = normalize_of_IsCanonical h (normalize-IsCanonical a h e)

before_nul : (a t : Bytes) → before 0 (a ++ 0 ∷ t) ≡ before 0 a
unfolding before
before_nul [] t = refl
before_nul (x ∷ a) t = ground (arith, before_nul a t)

-- What stands behind a NUL byte, such as a mod loader's marker, never changes the result.
pub normalize-nul : (a t : Bytes) → normalize (a ++ 0 ∷ t) ≡ normalize a
unfolding normalize canonical
normalize-nul a t = rw (before_nul a t)
