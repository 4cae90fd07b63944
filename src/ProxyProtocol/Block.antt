-- ===== src/ProxyProtocol/Block.antt =====
-- readV2 of proxyprotocol.go: the block of bytes that a version 2 header is.
use mc_router.Prelude.{
  ℕ, zero, suc, ◌+◌, ◌*◌, ◌≤◌, ◌<◌, ◌≡◌, inl, inr, refl, sym, ap, ◌∙◌, arith, Bool, true, false,
  not, ◌&&◌, [], ◌∷◌, ◌++◌, Bytes, Bool-cases, length, take, drop, take-append-drop, length-take,
  nat_eq, ltb, leb, ◌==◌, bytes_Eq, bytes_eq_iff,
}
use mc_router.Go.Text.{byte_at}
use mc_router.Go.Netip.{Addr}
use mc_router.ProxyProtocol.{
  ok, Error, guard, read_full, v2_source, read_v2, max_v2, v2_sig, invalid_v2, oversized_v2,
}
use mc_router.ProxyProtocol.Bind.{bind_ok}

-- The bytes that start every version 2 header: the signature, then version 2 and the command PROXY.
abbrev pub signed : Bytes
signed = 13 ∷ 10 ∷ 13 ∷ 10 ∷ 0 ∷ 13 ∷ 10 ∷ 81 ∷ 85 ∷ 73 ∷ 84 ∷ 10 ∷ 0x21 ∷ []

-- A version 2 header: the payload is as long as two bytes say, and holds the source in front.
pub record IsBlock (s : Bytes) (a : Addr) (rest : Bytes) : Type 0 where
  pub family : ℕ
  pub high : ℕ
  pub low : ℕ
  pub payload : Bytes
  pub joined : s ≡ signed ++ (family ∷ high ∷ low ∷ payload ++ rest)
  pub sized : length payload ≡ high * 256 + low
  pub bounded : length payload ≤ 512
  pub source : v2_source family payload ≡ ok a

read_full-ok :
    (n : ℕ) (s p rest : Bytes) → read_full n s ≡ ok (p, rest) → (s ≡ p ++ rest) × (length p ≡ n)
unfolding read_full
read_full-ok n s p rest h = elim (Bool-cases (leb n (length s))) [
  | inl e ↦
      let first : take n s ≡ p = ground (arith, e, h) in
      let later : drop n s ≡ rest = ground (arith, e, h) in
      let size = length-take n s in
      let enough : n ≤ length s = ground (arith, e) in
      (rw⁻¹ (first, later) (sym (take-append-drop n s)), rw⁻¹ (first) (omega arith))
  | inr e ↦ ground (arith, e, h)
]

guard-true : (b : Bool) (e : Error) (u : Unit {0}) → guard b e ≡ ok u → b ≡ true
guard-true true e u h = refl
guard-true false e u h = cc

drop-byte_at : (n : ℕ) (t : Bytes) → n < length t → drop n t ≡ byte_at n t ∷ drop (suc n) t
drop-byte_at n [] h = absurd (omega arith)
drop-byte_at zero (c ∷ t) h = refl
drop-byte_at (suc n) (c ∷ t) h = drop-byte_at n t (omega arith)

drop-length : (n : ℕ) (t : Bytes) → length t ≤ n → drop n t ≡ []
drop-length zero [] h = refl
drop-length (suc n) [] h = refl
drop-length zero (c ∷ t) h = absurd (omega arith)
drop-length (suc n) (c ∷ t) h = drop-length n t (omega arith)

-- The 15 bytes behind the first one.
block-parts :
    (t : Bytes)
    → length t ≡ 15
    → t ≡ take 11 t ++ (byte_at 11 t ∷ byte_at 12 t ∷ byte_at 13 t ∷ byte_at 14 t ∷ [])
block-parts t h =
    sym (take-append-drop 11 t)
    ∙ ap (λ x. take 11 t ++ x)
        (drop-byte_at 11 t (omega (arith, h))
          ∙ ap (λ x. byte_at 11 t ∷ x)
              (drop-byte_at 12 t (omega (arith, h))
                ∙ ap (λ x. byte_at 12 t ∷ x)
                    (drop-byte_at 13 t (omega (arith, h))
                      ∙ ap (λ x. byte_at 13 t ∷ x)
                          (drop-byte_at 14 t (omega (arith, h))
                            ∙ ap (λ x. byte_at 14 t ∷ x) (drop-length 15 t (omega (arith, h)))))))

-- What readV2 accepts is one block.
pub read_v2-IsBlock :
    (first : ℕ) (s : Bytes) (a : Addr) (rest : Bytes)
    → read_v2 first s ≡ ok (a, rest)
    → IsBlock (first ∷ s) a rest
unfolding read_v2
read_v2-IsBlock first s a rest h =
    let ((t, r), p1, e1) = bind_ok (read_full 15 s) _ (a, rest) h in
    let front = (first ∷ take 11 t) == v2_sig in
    let version = nat_eq (byte_at 11 t) 0x21 in
    let (u2, p2, e2) = bind_ok (guard (front && version) invalid_v2) _ (a, rest) e1 in
    let size = byte_at 13 t * 256 + byte_at 14 t in
    let (u3, p3, e3) = bind_ok (guard (not (ltb max_v2 size)) oversized_v2) _ (a, rest) e2 in
    let ((payload, r'), p4, e4) = bind_ok (read_full size r) _ (a, rest) e3 in
    let (source, p5, e5) = bind_ok (v2_source (byte_at 12 t) payload) _ (a, rest) e4 in
    let same : r' ≡ rest = cc in
    let found : source ≡ a = cc in
    let (j1, b1) = read_full-ok 15 s t r p1 in
    let (j2, b2) = read_full-ok size r payload r' p4 in
    let both = guard-true (front && version) invalid_v2 u2 p2 in
    let front_ok : front ≡ true = ground (arith, both) in
    let version_ok : byte_at 11 t ≡ 0x21 = ground (arith, both) in
    let start = (bytes_eq_iff (first ∷ take 11 t) v2_sig).0 front_ok in
    let small : size ≤ max_v2 =
      ground (arith, guard-true (not (ltb max_v2 size)) oversized_v2 u3 p3) in
    let fields = byte_at 12 t ∷ byte_at 13 t ∷ byte_at 14 t ∷ [] in
    let whole : first ∷ t ≡ signed ++ fields =
      ap (λ x. first ∷ x) (block-parts t b1)
      ∙ ap (λ x. x ++ (byte_at 11 t ∷ fields)) start
      ∙ ap (λ x. v2_sig ++ (x ∷ fields)) version_ok in
    record {
      family = byte_at 12 t;
      high = byte_at 13 t;
      low = byte_at 14 t;
      payload = payload;
      joined =
          ap (λ x. first ∷ x) j1
          ∙ ap (λ x. x ++ r) whole
          ∙ ap (λ x. signed ++ (fields ++ x)) (j2 ∙ ap (λ x. payload ++ x) same);
      sized = b2;
      bounded = omega (arith, b2, small);
      source = p5 ∙ ap (λ x. ok x) found;
    }
