-- ===== src/VoiceChat/Uuid.antt =====
-- Player identifiers of udp.go as texts.
use mc_router.Prelude.{
  ℕ, zero, suc, ◌+◌, ◌/◌, ◌%◌, ◌<◌, ◌≡◌, ◌≢◌, refl, sym, ap, ◌∙◌, arith, some, [], ◌∷◌, ◌++◌, Bytes,
  All, length, take, drop, take-append-drop,
}
use mc_router.Go.Hex.{hex_digit, encode, decode-encode, length-encode}
use mc_router.VoiceChat.Packet.{uuid_string, without_dashes, parse_uuid}

without_dashes-append :
    (a b : Bytes) → without_dashes (a ++ b) ≡ without_dashes a ++ without_dashes b
without_dashes-append [] b = refl
without_dashes-append (c ∷ a) b = ground (arith, without_dashes-append a b)

hex_digit-not_dash : (n : ℕ) → hex_digit n ≢ b'-'
unfolding hex_digit
hex_digit-not_dash n h = ground arith

without_dashes-encode : (bs : Bytes) → without_dashes (encode bs) ≡ encode bs
unfolding encode
without_dashes-encode [] = refl
without_dashes-encode (b ∷ bs) =
    ground
      (arith, hex_digit-not_dash (b / 16), hex_digit-not_dash (b % 16), without_dashes-encode bs)

encode-append : (a b : Bytes) → encode (a ++ b) ≡ encode a ++ encode b
unfolding encode
encode-append [] b = refl
encode-append (c ∷ a) b = ap (λ t. hex_digit (c / 16) ∷ hex_digit (c % 16) ∷ t) (encode-append a b)

-- A group in front of the rest: the dash goes, the digits stay.
without_dashes-group :
    (g t rest : Bytes)
    → without_dashes t ≡ encode rest
    → without_dashes (encode g ++ (b'-' ∷ t)) ≡ encode (g ++ rest)
without_dashes-group g t rest h =
    without_dashes-append (encode g) (b'-' ∷ t)
    ∙ rw (without_dashes-encode g) (ap (λ x. encode g ++ x) h)
    ∙ sym (encode-append g rest)

drop-drop : (n m k : ℕ) (u : Bytes) → k ≡ m + n → drop n (drop m u) ≡ drop k u
drop-drop n zero k u h = ap (λ x. drop x u) (omega arith)
drop-drop zero (suc m) zero [] h = refl
drop-drop zero (suc m) (suc k) [] h = refl
drop-drop (suc n) (suc m) zero [] h = refl
drop-drop (suc n) (suc m) (suc k) [] h = refl
drop-drop n (suc m) zero (x ∷ u) h = absurd (omega arith)
drop-drop n (suc m) (suc k) (x ∷ u) h = drop-drop n m k u (omega arith)

-- Behind the dash of a group of n bytes that starts at m stands the group that starts at m + n.
without_dashes-next :
    (n m : ℕ) (u t : Bytes)
    → without_dashes t ≡ encode (drop (m + n) u)
    → without_dashes (encode (take n (drop m u)) ++ (b'-' ∷ t)) ≡ encode (drop m u)
without_dashes-next n m u t h =
    without_dashes-group (take n (drop m u)) t (drop n (drop m u))
      (h ∙ ap encode (sym (drop-drop n m (m + n) u refl)))
    ∙ ap encode (take-append-drop n (drop m u))

without_dashes-uuid_string : (u : Bytes) → without_dashes (uuid_string u) ≡ encode u
unfolding uuid_string
without_dashes-uuid_string u = without_dashes-next 4 0 u _ (
    without_dashes-next 2 4 u _ (
      without_dashes-next 2 6 u _
        (without_dashes-next 2 8 u _ (without_dashes-encode (drop 10 u)))))

-- The text of an identifier of sixteen bytes is read back as that identifier.
pub parse_uuid-uuid_string :
    (u : Bytes) → length u ≡ 16 → All (λ b. b < 256) u → parse_uuid (uuid_string u) ≡ some u
unfolding parse_uuid
parse_uuid-uuid_string u size bytes =
    let digits = length-encode u in
    let long : length (encode u) ≡ 32 = omega arith in
    rw (parse_uuid, without_dashes-uuid_string u, long) (decode-encode u bytes)
