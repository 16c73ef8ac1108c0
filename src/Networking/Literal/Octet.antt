-- ===== src/Networking/Literal/Octet.antt =====
-- `parseOctet` of Networking/src/IpAddress.cpp reads the decimal digits of a byte.
use vpn_client.Prelude.{
  ℕ, ◌+◌, ◌-◌, ◌*◌, ◌<◌, Bool, true, false, ◌||◌, ltb, ◌==◌, none, some, [], ◌∷◌, ◌≡◌, ◌⊎◌, refl,
  sym, ◌∙◌, ap, arith, All, Bytes, length, all_below, all_below_sound, equal, equal_iff,
}
use vpn_client.Core.Text.{to_decimal}
use vpn_client.Core.Text.Split.{Lacks}
use vpn_client.Core.Text.Hex.{IsDigit, digits_value-to_decimal}
use vpn_client.Networking.Literal.{parse_octet}

IsDigit-ne : (b : ℕ) (text : Bytes) → (b < b'0') ⊎ (b'9' < b) → All IsDigit text → Lacks b text
IsDigit-ne b [] h all = tt
IsDigit-ne b (c ∷ text) h all = (ground arith, IsDigit-ne b text h all.1)

pub Lacks-to_decimal : (b n : ℕ) → (b < b'0') ⊎ (b'9' < b) → Lacks b (to_decimal n)
Lacks-to_decimal b n h = IsDigit-ne b (to_decimal n) h (digits_value-to_decimal n).1

abbrev reads_back : ℕ → Bool
reads_back n = elim (parse_octet (to_decimal n)) [ none ↦ false | some m ↦ m == n ]

octet_table : all_below 256 reads_back ≡ true
unfolding all_below parse_octet to_decimal
octet_table = refl

pub parse_octet-to_decimal : (n : ℕ) → n < 256 → parse_octet (to_decimal n) ≡ some n
parse_octet-to_decimal n h = let t = all_below_sound 256 reads_back n octet_table h in ground arith

-- The texts of one, two and three digits that `parseOctet` accepts.
abbrev digit : ℕ → ℕ
digit d = b'0' + d

one_table : all_below 10 (λ d. equal (to_decimal d) (digit d ∷ [])) ≡ true
unfolding all_below equal to_decimal
one_table = refl

abbrev two_test : ℕ → ℕ → Bool
two_test d e = d == 0 || equal (to_decimal (d * 10 + e)) (digit d ∷ digit e ∷ [])

two_table : all_below 10 (λ d. all_below 10 (two_test d)) ≡ true
unfolding all_below equal to_decimal
two_table = refl

abbrev three_test : ℕ → ℕ → ℕ → Bool
three_test d e f =
    d == 0 || equal (to_decimal ((d * 10 + e) * 10 + f)) (digit d ∷ digit e ∷ digit f ∷ [])

three_table : all_below 10 (λ d. all_below 10 (λ e. all_below 10 (three_test d e))) ≡ true
unfolding all_below equal to_decimal
three_table = refl

one_facts : (c : ℕ) {n : ℕ} → parse_octet (c ∷ []) ≡ some n → (n < 10) × (c ≡ digit n)
unfolding parse_octet
one_facts c e = ground arith

record Two (c d n : ℕ) : Type 0 where
  high : c - b'0' < 10
  low : d - b'0' < 10
  c_is : c ≡ digit (c - b'0')
  d_is : d ≡ digit (d - b'0')
  n_is : n ≡ (c - b'0') * 10 + (d - b'0')
  leads : (c - b'0' == 0) ≡ false

digit_pair : (c d : ℕ) {n : ℕ} → parse_octet (c ∷ d ∷ []) ≡ some n → Two c d n
unfolding parse_octet
digit_pair c d e = record {
  high = ground arith;
  low = ground arith;
  c_is = ground arith;
  d_is = ground arith;
  n_is = ground arith;
  leads = ground arith;
}

record Three (c d f n : ℕ) : Type 0 where
  high : c - b'0' < 10
  mid : d - b'0' < 10
  low : f - b'0' < 10
  c_is : c ≡ digit (c - b'0')
  d_is : d ≡ digit (d - b'0')
  f_is : f ≡ digit (f - b'0')
  n_is : n ≡ ((c - b'0') * 10 + (d - b'0')) * 10 + (f - b'0')
  leads : (c - b'0' == 0) ≡ false
  fits : n < 256

digit_triple : (c d f : ℕ) {n : ℕ} → parse_octet (c ∷ d ∷ f ∷ []) ≡ some n → Three c d f n
unfolding parse_octet
digit_triple c d f e = record {
  high = ground arith;
  mid = ground arith;
  low = ground arith;
  c_is = ground arith;
  d_is = ground arith;
  f_is = ground arith;
  n_is = ground arith;
  leads = ground arith;
  fits = ground arith;
}

four_refused : (c d f g : ℕ) (text : Bytes) → parse_octet (c ∷ d ∷ f ∷ g ∷ text) ≡ none
unfolding parse_octet
four_refused c d f g text =
    let long : ltb 3 (length (c ∷ d ∷ f ∷ g ∷ text)) ≡ true = ground arith in rw (long, parse_octet)

-- `parseOctet` accepts a number below 256 in its own decimal digits and nothing else.
pub parse_octet_canonical :
    (text : Bytes) {n : ℕ} → parse_octet text ≡ some n → (text ≡ to_decimal n) × (n < 256)
parse_octet_canonical [] e = absurd (unfold parse_octet in cc)
parse_octet_canonical (c ∷ []) {n} e =
    let (small, c_is) = one_facts c e in
    let t = all_below_sound 10 (λ d. equal (to_decimal d) (digit d ∷ [])) n one_table small in
    (ap (λ x. x ∷ []) c_is ∙ sym ((equal_iff _ _).0 t), omega arith)
parse_octet_canonical (c ∷ d ∷ []) {n} e =
    let k = digit_pair c d e in
    let t =
      all_below_sound 10 (two_test (c - b'0')) (d - b'0')
        (all_below_sound 10 (λ d. all_below 10 (two_test d)) (c - b'0') two_table k.high) k.low in
    let written : equal (to_decimal ((c - b'0') * 10 + (d - b'0')))
          (digit (c - b'0') ∷ digit (d - b'0') ∷ [])
        ≡ true =
      ground (arith, k.leads) in
    (
      rw k.n_is (rw (← k.c_is, ← k.d_is) at (sym ((equal_iff _ _).0 written))),
      omega (arith, k.n_is, k.high, k.low),
    )
parse_octet_canonical (c ∷ d ∷ f ∷ []) {n} e =
    let k = digit_triple c d f e in
    let t =
      all_below_sound 10 (three_test (c - b'0') (d - b'0')) (f - b'0')
        (all_below_sound 10 (λ e. all_below 10 (three_test (c - b'0') e)) (d - b'0')
          (all_below_sound 10 (λ d. all_below 10 (λ e. all_below 10 (three_test d e))) (c - b'0')
            three_table k.high)
          k.mid)
        k.low in
    let written : equal (to_decimal (((c - b'0') * 10 + (d - b'0')) * 10 + (f - b'0')))
          (digit (c - b'0') ∷ digit (d - b'0') ∷ digit (f - b'0') ∷ [])
        ≡ true =
      ground (arith, k.leads) in
    (rw k.n_is (rw (← k.c_is, ← k.d_is, ← k.f_is) at (sym ((equal_iff _ _).0 written))), k.fits)
parse_octet_canonical (c ∷ d ∷ f ∷ g ∷ text) {n} e = absurd (cc (four_refused c d f g text))
