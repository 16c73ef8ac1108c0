-- ===== src/Networking/Range/Bits.antt =====
-- The bits of a byte string, most significant first, and what the masks of
-- Networking/src/IpAddress.cpp do to them.
use Prim.Native.Nat.{bit_and}
use native.Mathlib.Nat.{mul_assoc, pow-suc}
use native.Mathlib.Decide.{ℕ_discrete, dec_lt}
use mathlib.Core.Path.{ap₂}
use vpn_client.Prelude.{
  ℕ, zero, suc, ◌+◌, ◌-◌, ◌*◌, ◌/◌, ◌%◌, ◌^◌, ◌≤◌, ◌<◌, Bool, true, false, leb, ltb, ◌==◌,
  if◌then◌else◌, [], ◌∷◌, All, length, Bytes, ◌≡◌, ◌↔◌, inl, inr, refl, sym, ap, ◌∙◌, arith, ==_iff,
  Bool-cases, all_below, all_below_sound, lt→ltb, leb→le, &&-eq-true, subst,
}
use vpn_client.Networking.Range.{high_mask, agree}

abbrev pub AllBytes : Bytes → Type 0
AllBytes = All (λ x. x < 256)

-- Bit `i` of a byte, from the most significant one.
abbrev pub bit : ℕ → ℕ → ℕ
bit b i = b / 2 ^ (7 - i) % 2

abbrev pub bit_at : Bytes → ℕ → ℕ
bit_at [] i = 0
bit_at (b ∷ rest) i = let later = bit_at rest (i - 8) in if ltb i 8 then bit b i else later

-- The first `p` bits of both are the same.
abbrev pub AgreeOn : ℕ → Bytes → Bytes → Type 0
AgreeOn p xs ys = (i : ℕ) → i < p → bit_at xs i ≡ bit_at ys i

-- The highest `k` bits of a byte, as a number.
top : ℕ → ℕ → ℕ
top b k = b / 2 ^ (8 - k)

abbrev top_test : ℕ → ℕ → Bool
top_test b k = b / 2 ^ (8 - suc k) == 2 * (b / 2 ^ (8 - k)) + bit b k

top_table : all_below 256 (λ b. all_below 8 (top_test b)) ≡ true
unfolding all_below
top_table = refl

top-suc : (b k : ℕ) → b < 256 → k < 8 → top b (suc k) ≡ 2 * top b k + bit b k
unfolding top
top-suc b k hb hk = (==_iff _ _).0 (
    all_below_sound 8 (top_test b) k
      (all_below_sound 256 (λ b. all_below 8 (top_test b)) b top_table hb) hk)

abbrev mask_test : ℕ → ℕ → Bool
mask_test b k = bit_and b (0xFF * 2 ^ (8 - k) % 256) == b / 2 ^ (8 - k) * 2 ^ (8 - k)

mask_table : all_below 256 (λ b. all_below 9 (mask_test b)) ≡ true
unfolding all_below
mask_table = refl

mask-top : (b k : ℕ) → b < 256 → k < 9 → bit_and b (high_mask k) ≡ top b k * 2 ^ (8 - k)
unfolding top high_mask
mask-top b k hb hk = (==_iff _ _).0 (
    all_below_sound 9 (mask_test b) k
      (all_below_sound 256 (λ b. all_below 9 (mask_test b)) b mask_table hb) hk)

top_of_bits :
    (k b c : ℕ)
    → k < 9
    → b < 256
    → c < 256
    → ((i : ℕ) → i < k → bit b i ≡ bit c i)
    → top b k ≡ top c k
top_of_bits zero b c hk hb hc h = unfold top in omega arith
top_of_bits (suc k) b c hk hb hc h = omega (
  arith,
  top-suc b k hb (omega arith),
  top-suc c k hc (omega arith),
  top_of_bits k b c (omega arith) hb hc (λ i hi. h i (omega arith)),
  h k (omega arith),
)

bits_of_top :
    (k b c : ℕ)
    → k < 9
    → b < 256
    → c < 256
    → top b k ≡ top c k
    → (i : ℕ) → i < k
    → bit b i ≡ bit c i
bits_of_top zero b c hk hb hc e i hi = elim hi [ ]
bits_of_top (suc k) b c hk hb hc e i hi =
    let x = top-suc b k hb (omega arith) in
    let y = top-suc c k hc (omega arith) in
    elim (ℕ_discrete i k) [
      | yes same ↦ rw same (omega arith)
      | no other ↦ bits_of_top k b c (omega arith) hb hc (omega arith) i (omega arith)
    ]

pub byte_of_bits : (b c : ℕ) → b < 256 → c < 256 → ((i : ℕ) → i < 8 → bit b i ≡ bit c i) → b ≡ c
byte_of_bits b c hb hc h =
    let e = top_of_bits 8 b c (omega arith) hb hc h in (unfold top in omega arith)

-- Bits of a string, byte by byte.
pub bit_at-head : (b : ℕ) (rest : Bytes) (i : ℕ) → i < 8 → bit_at (b ∷ rest) i ≡ bit b i
bit_at-head b rest i h = rw (lt→ltb i 8 h)

pub bit_at-tail : (b : ℕ) (rest : Bytes) (i : ℕ) → bit_at (b ∷ rest) (i + 8) ≡ bit_at rest i
bit_at-tail b rest i =
    let later : ltb (i + 8) 8 ≡ false = ground arith in
    let back : i + 8 - 8 ≡ i = omega arith in rw later (ap (bit_at rest) back)

AgreeOn-cons :
    (p c n : ℕ) (xs ys : Bytes)
    → c < 256
    → n < 256
    → c ≡ n
    → AgreeOn p xs ys
    → AgreeOn (p + 8) (c ∷ xs) (n ∷ ys)
AgreeOn-cons p c n xs ys hc hn e h i hi = elim (dec_lt i 8) [
  | yes first ↦
      bit_at-head c xs i first ∙ ap (λ (b : ℕ). bit b i) e ∙ sym (bit_at-head n ys i first)
  | no rest ↦
      let j : i ≡ i - 8 + 8 = omega arith in
      subst (λ (k : ℕ). bit_at (c ∷ xs) k ≡ bit_at (n ∷ ys) k) (sym j)
        (bit_at-tail c xs (i - 8) ∙ h (i - 8) (omega arith) ∙ sym (bit_at-tail n ys (i - 8)))
]

pub AgreeOn-head :
    (p c n : ℕ) (xs ys : Bytes)
    → AgreeOn p (c ∷ xs) (n ∷ ys)
    → (i : ℕ) → i < p
    → i < 8
    → bit c i ≡ bit n i
AgreeOn-head p c n xs ys h i hp hi = sym (bit_at-head c xs i hi) ∙ h i hp ∙ bit_at-head n ys i hi

pub AgreeOn-tail : (p c n : ℕ) (xs ys : Bytes) → AgreeOn (p + 8) (c ∷ xs) (n ∷ ys) → AgreeOn p xs ys
AgreeOn-tail p c n xs ys h i hi =
    sym (bit_at-tail c xs i) ∙ h (i + 8) (omega arith) ∙ bit_at-tail n ys i

cancel_pow : (j a b : ℕ) → a * 2 ^ j ≡ b * 2 ^ j → a ≡ b
cancel_pow zero a b e = omega arith
cancel_pow (suc j) a b e =
    let e' : a * 2 ^ j * 2 ≡ b * 2 ^ j * 2 = rw (mul_assoc, mul_assoc, ← pow-suc 2 j) e in
    cancel_pow j a b (omega arith)

-- A byte under a mask of `k` bits.
masked_iff :
    (k c n : ℕ)
    → k < 9
    → c < 256
    → n < 256
    → ((bit_and c (high_mask k) == bit_and n (high_mask k)) ≡ true) ↔ (top c k ≡ top n k)
masked_iff k c n hk hc hn =
    rw (mask-top c k hc hk, mask-top n k hn hk)
      (
        λ e. cancel_pow (8 - k) (top c k) (top n k) ((==_iff _ _).0 e),
        λ e. (==_iff _ _).1 (ap (λ (t : ℕ). t * 2 ^ (8 - k)) e),
      )

-- The loop of `contains` compares exactly the first `p` bits.
pub agree-AgreeOn :
    (p : ℕ) (xs ys : Bytes)
    → length xs ≡ length ys
    → AllBytes xs
    → AllBytes ys
    → p ≤ 8 * length xs
    → (agree p xs ys ≡ true) ↔ AgreeOn p xs ys
unfolding agree
agree-AgreeOn zero xs ys e hx hy h = (λ _ i hi. elim hi [ ], λ _. refl)
agree-AgreeOn (suc r) [] ys e hx hy h = absurd (omega arith)
agree-AgreeOn (suc r) (x ∷ xs) [] e hx hy h = absurd (omega arith)
agree-AgreeOn (suc r) (c ∷ xs) (n ∷ ys) e hx hy h = elim (Bool-cases (leb 8 (suc r))) [
  | inl whole ↦
      let fits : 8 ≤ suc r = leb→le 8 (suc r) whole in
      let size : suc r - 8 + 8 ≡ suc r = omega arith in
      let ih = agree-AgreeOn (suc r - 8) xs ys (omega arith) hx.1 hy.1 (omega arith) in
      rw (whole, agree)
        (
          λ t.
              let (same, rest) = &&-eq-true (c == n) (agree (suc r - 8) xs ys) t in
              subst (λ (q : ℕ). AgreeOn q (c ∷ xs) (n ∷ ys)) size
                (AgreeOn-cons (suc r - 8) c n xs ys hx.0 hy.0 ((==_iff c n).0 same) (ih.0 rest)),
          λ g.
              let g' = subst (λ (q : ℕ). AgreeOn q (c ∷ xs) (n ∷ ys)) (sym size) g in
              let same =
                byte_of_bits c n hx.0 hy.0
                  (λ i hi. AgreeOn-head (suc r) c n xs ys g i (omega arith) hi) in
              rw ((==_iff c n).1 same, ih.1 (AgreeOn-tail (suc r - 8) c n xs ys g')),
        )
  | inr part ↦
      let few : suc r < 8 = ground arith in
      let m = masked_iff (suc r) c n (omega arith) hx.0 hy.0 in
      rw (part, agree)
        (
          λ t i hi.
              bit_at-head c xs i (omega arith)
              ∙ bits_of_top (suc r) c n (omega arith) hx.0 hy.0 (m.0 t) i hi
              ∙ sym (bit_at-head n ys i (omega arith)),
          λ g. m.1 (
              top_of_bits (suc r) c n (omega arith) hx.0 hy.0
                (λ i hi. AgreeOn-head (suc r) c n xs ys g i hi (omega arith))),
        )
]

-- The bits determine the bytes.
pub bytes_of_bits :
    (xs ys : Bytes)
    → length xs ≡ length ys
    → AllBytes xs
    → AllBytes ys
    → AgreeOn (8 * length xs) xs ys
    → xs ≡ ys
bytes_of_bits [] [] e hx hy h = refl
bytes_of_bits [] (y ∷ ys) e hx hy h = absurd (omega arith)
bytes_of_bits (x ∷ xs) [] e hx hy h = absurd (omega arith)
bytes_of_bits (c ∷ xs) (n ∷ ys) e hx hy h =
    let size : 8 * suc (length xs) ≡ 8 * length xs + 8 = omega arith in
    let g = subst (λ (q : ℕ). AgreeOn q (c ∷ xs) (n ∷ ys)) size h in
    ap₂ (◌∷◌)
      (byte_of_bits c n hx.0 hy.0
        (λ i hi. AgreeOn-head (8 * length xs + 8) c n xs ys g i (omega arith) hi))
      (bytes_of_bits xs ys (omega arith) hx.1 hy.1 (AgreeOn-tail (8 * length xs) c n xs ys g))
