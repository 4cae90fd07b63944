-- ===== src/ProxyProtocol/Line.antt =====
-- readV1 of proxyprotocol.go: the line that a version 1 header is.
use mc_router.Prelude.{
  reverse, ◌≢◌, ℕ, zero, suc, ◌+◌, ◌-◌, ◌≤◌, subst, ◌≡◌, inl, inr, refl, sym, ap, ◌∙◌, arith, Bool,
  true, false, not, ◌&&◌, [], ◌∷◌, ◌++◌, Bytes, Bool-cases, length, drop, length-append, bytes_Eq,
}
use mathlib.Core.List.{append_assoc, reverse-cons, reverse-append, reverse-reverse, reverse_aux-eq}
use mc_router.Go.Text.{split}
use mc_router.Go.Netip.{Addr}
use mc_router.ProxyProtocol.{ok, ends_line, read_line, parse_fields, read_v1, max_v1}
use mc_router.ProxyProtocol.Bind.{bind_ok}

-- The text has no end of a line in it.
abbrev pub IsOneLine : Bytes → Type 0
IsOneLine line = (front back : Bytes) → line ≢ front ++ (13 ∷ 10 ∷ back)

-- A version 1 header: one line of at most 108 bytes with its end, that names a source.
pub record IsLine (s : Bytes) (a : Addr) (rest : Bytes) : Type 0 where
  pub line : Bytes
  pub joined : s ≡ line ++ (13 ∷ 10 ∷ rest)
  pub one_line : IsOneLine line
  pub bounded : length line + 2 ≤ 108
  pub source : parse_fields (split b' ' line) ≡ ok a

-- No front of the line, which is in reverse, ends it.
abbrev unfinished : Bytes → Bool
unfinished [] = true
unfinished (c ∷ line) = not (ends_line (c ∷ line)) && unfinished line

unfinished-end : (xs ys : Bytes) → unfinished (xs ++ (10 ∷ 13 ∷ ys)) ≡ false
unfinished-end [] ys = refl
unfinished-end (x ∷ xs) ys = ground (arith, unfinished-end xs ys)

unfinished-IsOneLine : (t : Bytes) → unfinished t ≡ true → IsOneLine (reverse t)
unfinished-IsOneLine t h front back e =
    let turned : t ≡ reverse back ++ (10 ∷ 13 ∷ reverse front) =
      sym (reverse-reverse t)
      ∙ ap reverse e
      ∙ reverse-append front (13 ∷ 10 ∷ back)
      ∙ ap (λ x. x ++ reverse front) (reverse_aux-eq back (10 ∷ 13 ∷ []))
      ∙ append_assoc (reverse back) (10 ∷ 13 ∷ []) (reverse front) in
    let bad = unfinished-end (reverse back) (reverse front) in
    let bad_line : unfinished t ≡ false = ap unfinished turned ∙ bad in cc

-- The bytes that the loop reads, and the whole line in reverse.
record IsReadLine (n : ℕ) (line s l rest : Bytes) : Type 0 where
  text : Bytes
  header : Bytes
  joined : s ≡ header ++ rest
  whole : 10 ∷ 13 ∷ text ≡ reverse header ++ line
  read_text : l ≡ reverse text
  open_text : unfinished text ≡ true
  bounded : length header ≤ n

ends_line-parts :
    (c : ℕ) (line : Bytes) → ends_line (c ∷ line) ≡ true → (t : Bytes) × (10 ∷ 13 ∷ t ≡ c ∷ line)
ends_line-parts c [] h = cc
ends_line-parts c (d ∷ t) h =
    let first : c ≡ 10 = ground (arith, h) in
    let second : d ≡ 13 = ground (arith, h) in (t, rw (first, second) refl)

read_line-IsReadLine :
    (n : ℕ) (line s l rest : Bytes)
    → unfinished line ≡ true
    → read_line n line s ≡ ok (l, rest)
    → IsReadLine n line s l rest
unfolding read_line
read_line-IsReadLine zero line s l rest o h = cc
read_line-IsReadLine (suc n) line [] l rest o h = cc
read_line-IsReadLine (suc n) line (c ∷ s) l rest o h = elim (Bool-cases (ends_line (c ∷ line))) [
  | inl e ↦
      let (t, parts) = ends_line-parts c line e in
      let text_read : reverse (drop 2 (c ∷ line)) ≡ l = ground (arith, e, h) in
      let open_line : unfinished (13 ∷ t) ≡ true = ap (λ x. unfinished (drop 1 x)) parts ∙ o in
      record {
        text = t;
        header = c ∷ [];
        joined = ground (arith, e, h);
        whole = parts;
        read_text = sym text_read ∙ ap (λ x. reverse (drop 2 x)) (sym parts);
        open_text = ground (arith, open_line);
        bounded = omega arith;
      }
  | inr e ↦
      let more =
        read_line-IsReadLine n (c ∷ line) s l rest ground (arith, e, o) ground (arith, e, h) in
      let b = more.bounded in
      record {
        text = more.text;
        header = c ∷ more.header;
        joined = ap (λ x. c ∷ x) more.joined;
        whole =
            more.whole
            ∙ sym (append_assoc (reverse more.header) (c ∷ []) line)
            ∙ ap (λ x. x ++ line) (sym (reverse-cons c more.header));
        read_text = more.read_text;
        open_text = more.open_text;
        bounded = omega arith;
      }
]

-- A line that has been read with its first byte.
IsReadLine-joined :
    (n first : ℕ) (s l rest : Bytes)
    → IsReadLine n (first ∷ []) s l rest
    → (first ∷ s ≡ l ++ (13 ∷ 10 ∷ rest)) × (length l + 2 ≤ n + 1)
IsReadLine-joined n first s l rest h =
    let whole : first ∷ h.header ≡ reverse h.text ++ (13 ∷ 10 ∷ []) =
      sym (reverse-reverse (first ∷ h.header))
      ∙ ap reverse (reverse-cons first h.header ∙ sym h.whole)
      ∙ reverse_aux-eq h.text (13 ∷ 10 ∷ []) in
    let line : first ∷ h.header ≡ l ++ (13 ∷ 10 ∷ []) =
      whole ∙ ap (λ x. x ++ (13 ∷ 10 ∷ [])) (sym h.read_text) in
    let size = ap length line in
    let b = h.bounded in
    (
      ap (λ x. first ∷ x) h.joined ∙ ap (λ x. x ++ rest) line ∙ append_assoc l (13 ∷ 10 ∷ []) rest,
      omega (arith, length-append l (13 ∷ 10 ∷ []), size, b),
    )

-- What readV1 accepts is one line.
pub read_v1-IsLine :
    (first : ℕ) (s : Bytes) (a : Addr) (rest : Bytes)
    → read_v1 first s ≡ ok (a, rest)
    → IsLine (first ∷ s) a rest
unfolding read_v1
read_v1-IsLine first s a rest h =
    let ((line, r), p1, e1) = bind_ok (read_line (max_v1 - 1) (first ∷ []) s) _ (a, rest) h in
    let (source, p2, e2) = bind_ok (parse_fields (split b' ' line)) _ (a, rest) e1 in
    let same : r ≡ rest = cc in
    let found : source ≡ a = cc in
    let ends : unfinished (first ∷ []) ≡ true = refl in
    let l =
      read_line-IsReadLine (max_v1 - 1) (first ∷ []) s line rest ends
        (p1 ∙ ap (λ x. ok (line, x)) same) in
    let (joined, short) = IsReadLine-joined (max_v1 - 1) first s line rest l in
    record {
      line = line;
      joined = joined;
      one_line = subst IsOneLine (sym l.read_text) (unfinished-IsOneLine l.text l.open_text);
      bounded = omega (arith, short);
      source = p2 ∙ ap (λ x. ok x) found;
    }
