-- ===== src/Proxy/Writing.antt =====
-- writeAll of internal/proxy/server.go: a loop over writes that may each take a part of the bytes.
use mc_router.Prelude.{
  ℕ, zero, suc, ◌+◌, ◌≤◌, ◌≡◌, ◌≢◌, refl, sym, ap, subst, ◌∙◌, Bool, true, false, arith, [], ◌∷◌,
  ◌++◌, Bytes, length, take, drop, take-append-drop, length-drop,
}
use mathlib.Core.List.{append_assoc}

-- One call of conn.Write: the number of bytes that it took, with an error or without. A number above
-- the length of the data, which io.Writer forbids, counts as the length.
pub data Write : Type 0 where
  write_error : ℕ → Write
  wrote : ℕ → Write

pub data Written : Type 0 where
  complete broken short_write out_of_rounds : Written

-- The rounds left, what each call of Write does, the number of calls so far and the data left: the
-- bytes that were taken, and how the loop ended.
unfoldable pub write_loop : ℕ → (ℕ → Write) → ℕ → Bytes → Bytes × Written
write_loop n calls i [] = ([], complete)
write_loop zero calls i (x ∷ s) = ([], out_of_rounds)
write_loop (suc n) calls i (x ∷ s) = elim (calls i) [
  | write_error k ↦ (take k (x ∷ s), broken)
  | wrote k ↦ elim k [
    | zero ↦ ([], short_write)
    | suc m ↦ (
      (x ∷ take m s) ++ (write_loop n calls (i + 1) (drop m s)).0,
      (write_loop n calls (i + 1) (drop m s)).1,
    )
  ]
]

-- A round for each byte is enough, since each but the last takes one.
unfoldable pub write_all : (ℕ → Write) → Bytes → Bytes × Written
write_all calls s = write_loop (length s) calls 0 s

abbrev pub is_complete : Written → Bool
is_complete complete = true
is_complete _ = false

-- The bytes that were taken are the front of the data; all of it, where the loop completes.
pub record IsWritten (s : Bytes) (result : Bytes × Written) : Type 0 where
  pub rest : Bytes
  pub joined : result.0 ++ rest ≡ s
  pub whole : result.1 ≡ complete → rest ≡ []
  pub ends : result.1 ≢ out_of_rounds

write_loop-wrote :
    (n m i : ℕ) (calls : ℕ → Write) (x : ℕ) (s : Bytes)
    → IsWritten (drop m s) (write_loop n calls (i + 1) (drop m s))
    → IsWritten (x ∷ s) (
      (x ∷ take m s) ++ (write_loop n calls (i + 1) (drop m s)).0,
      (write_loop n calls (i + 1) (drop m s)).1,
    )
write_loop-wrote n m i calls x s h = record {
  rest = h.rest;
  joined =
      append_assoc (x ∷ take m s) (write_loop n calls (i + 1) (drop m s)).0 h.rest
      ∙ ap (λ t. (x ∷ take m s) ++ t) h.joined
      ∙ ap (λ t. x ∷ t) (take-append-drop m s);
  whole = h.whole;
  ends = h.ends;
}

stopped :
    (k : ℕ) (s : Bytes) (w : Written) → w ≢ complete → w ≢ out_of_rounds → IsWritten s (take k s, w)
stopped k s w incomplete rounds = record {
  rest = drop k s;
  joined = take-append-drop k s;
  whole = λ e. absurd (incomplete e);
  ends = rounds;
}

-- One round, where the rest of the loop does what it should.
write_loop-round :
    (n i : ℕ) (calls : ℕ → Write) (x : ℕ) (s : Bytes)
    → ((m : ℕ) → IsWritten (drop m s) (write_loop n calls (i + 1) (drop m s)))
    → (w : Write) → calls i ≡ w
    → IsWritten (x ∷ s) (write_loop (suc n) calls i (x ∷ s))
unfolding write_loop
write_loop-round n i calls x s ih (write_error k) e =
    let step : write_loop (suc n) calls i (x ∷ s) ≡ (take k (x ∷ s), broken) =
      rw (write_loop, e) refl in
    subst (IsWritten (x ∷ s)) (sym step) (stopped k (x ∷ s) broken (λ d. cc) (λ d. cc))
write_loop-round n i calls x s ih (wrote zero) e =
    let step : write_loop (suc n) calls i (x ∷ s) ≡ ([], short_write) = rw (write_loop, e) refl in
    subst (IsWritten (x ∷ s)) (sym step) (stopped 0 (x ∷ s) short_write (λ d. cc) (λ d. cc))
write_loop-round n i calls x s ih (wrote (suc m)) e =
    let step : write_loop (suc n) calls i (x ∷ s) ≡ (
      (x ∷ take m s) ++ (write_loop n calls (i + 1) (drop m s)).0,
      (write_loop n calls (i + 1) (drop m s)).1,
    ) =
      rw (write_loop, e) refl in
    subst (IsWritten (x ∷ s)) (sym step) (write_loop-wrote n m i calls x s (ih m))

write_loop-IsWritten :
    (n i : ℕ) (calls : ℕ → Write) (s : Bytes) → length s ≤ n → IsWritten s (write_loop n calls i s)
unfolding write_loop
write_loop-IsWritten n i calls [] h = record {
  rest = [];
  joined = refl;
  whole = λ e. refl;
  ends = λ e. cc;
}
write_loop-IsWritten zero i calls (x ∷ s) h = absurd (omega arith)
write_loop-IsWritten (suc n) i calls (x ∷ s) h =
    write_loop-round n i calls x s
      (λ m. write_loop-IsWritten n (i + 1) calls (drop m s) (omega (arith, length-drop m s, h)))
      (calls i) refl

-- However many bytes each call of Write takes, with an error or without, the loop ends without running
-- out of rounds, the bytes that were taken, those of a failed call included, are the front of the data,
-- and all of the data is taken where the loop completes.
pub write_all-IsWritten : (calls : ℕ → Write) (s : Bytes) → IsWritten s (write_all calls s)
unfolding write_all
write_all-IsWritten calls s = write_loop-IsWritten (length s) 0 calls s (omega arith)
