-- ===== src/Networking/Range/Masks.antt =====
-- The bits of the bytes that `make` and `lastAddress` of Networking/src/IpAddress.cpp write.
use Prim.Native.Nat.{bit_and, bit_or}
use native.Mathlib.Decide.{dec_lt}
use vpn_client.Prelude.{
  ℕ, suc, ◌+◌, ◌-◌, ◌*◌, ◌/◌, ◌%◌, ◌^◌, ◌≤◌, ◌<◌, Bool, true, false, ◌&&◌, leb, ltb, ◌==◌,
  if◌then◌else◌, [], ◌∷◌, length, Bytes, ◌≡◌, inl, inr, refl, ap, arith, ==_iff, Bool-cases,
  all_below, all_below_sound, lt→ltb, subst,
}
use vpn_client.Networking.Range.{high_mask, mask_byte, mask_bytes, fill_byte, fill_bytes}
use vpn_client.Networking.Range.Bits.{AllBytes, bit, bit_at}

abbrev mask_bit_test : ℕ → ℕ → ℕ → Bool
mask_bit_test b k i =
    bit (bit_and b (0xFF * 2 ^ (8 - k) % 256)) i == (if ltb i k then bit b i else 0)

mask_bit_table : all_below 256 (λ b. all_below 8 (λ k. all_below 8 (mask_bit_test b k))) ≡ true
unfolding all_below
mask_bit_table = refl

mask_bit :
    (b k i : ℕ)
    → b < 256
    → k < 8
    → i < 8
    → bit (bit_and b (high_mask k)) i ≡ (if ltb i k then bit b i else 0)
unfolding high_mask
mask_bit b k i hb hk hi = (==_iff _ _).0 (
    all_below_sound 8 (mask_bit_test b k) i
      (all_below_sound 8 (λ k. all_below 8 (mask_bit_test b k)) k
        (all_below_sound 256 (λ b. all_below 8 (λ k. all_below 8 (mask_bit_test b k))) b
          mask_bit_table hb)
        hk)
      hi)

abbrev fill_bit_test : ℕ → ℕ → ℕ → Bool
fill_bit_test b k i = bit (bit_or b (0xFF / 2 ^ k)) i == (if ltb i k then bit b i else 1)

fill_bit_table : all_below 256 (λ b. all_below 8 (λ k. all_below 8 (fill_bit_test b k))) ≡ true
unfolding all_below
fill_bit_table = refl

fill_bit :
    (b k i : ℕ)
    → b < 256
    → k < 8
    → i < 8
    → bit (bit_or b (0xFF / 2 ^ k)) i ≡ (if ltb i k then bit b i else 1)
fill_bit b k i hb hk hi = (==_iff _ _).0 (
    all_below_sound 8 (fill_bit_test b k) i
      (all_below_sound 8 (λ k. all_below 8 (fill_bit_test b k)) k
        (all_below_sound 256 (λ b. all_below 8 (λ k. all_below 8 (fill_bit_test b k))) b
          fill_bit_table hb)
        hk)
      hi)

abbrev byte_test : ℕ → ℕ → Bool
byte_test b k = ltb (bit_and b (0xFF * 2 ^ (8 - k) % 256)) 256 && ltb (bit_or b (0xFF / 2 ^ k)) 256

byte_table : all_below 256 (λ b. all_below 8 (byte_test b)) ≡ true
unfolding all_below
byte_table = refl

masked_byte :
    (b k : ℕ) → b < 256 → k < 8 → (bit_and b (high_mask k) < 256) × (bit_or b (0xFF / 2 ^ k) < 256)
unfolding high_mask
masked_byte b k hb hk =
    let h =
      all_below_sound 8 (byte_test b) k
        (all_below_sound 256 (λ b. all_below 8 (byte_test b)) b byte_table hb) hk in
    (ground arith, ground arith)

zero_bit : (i : ℕ) → i < 8 → (bit 0 i ≡ 0) × (bit 0xFF i ≡ 1)
zero_bit i h =
    let t =
      all_below_sound 8 (λ i. bit 0 i == 0 && bit 0xFF i == 1) i (unfold all_below in refl) h in
    (ground arith, ground arith)

-- One byte, and the bytes behind it.
bit_at-step :
    (b g v i p offset : ℕ) (rest xs : Bytes)
    → (i < 8 → bit g i ≡ (if ltb (offset + i) p then bit b i else v))
    → (8 ≤ i
        → bit_at rest (i - 8) ≡ (if ltb (offset + 8 + (i - 8)) p then bit_at xs (i - 8) else v))
    → bit_at (g ∷ rest) i ≡ (if ltb (offset + i) p then bit_at (b ∷ xs) i else v)
bit_at-step b g v i p offset rest xs first later = elim (dec_lt i 8) [
  | yes h ↦ rw (lt→ltb i 8 h) (first h)
  | no h ↦
      let n : ltb i 8 ≡ false = ground arith in
      let s : offset + 8 + (i - 8) ≡ offset + i = omega arith in
      rw n (
        subst (λ (k : ℕ). bit_at rest (i - 8) ≡ (if ltb k p then bit_at xs (i - 8) else v)) s
          (later (omega arith)))
]

bit-mask_byte :
    (b p offset i : ℕ)
    → b < 256
    → i < 8
    → bit (mask_byte p offset b) i ≡ (if ltb (offset + i) p then bit b i else 0)
unfolding mask_byte
bit-mask_byte b p offset i hb hi = elim (Bool-cases (leb p offset)) [
  | inl none_left ↦
      let n : ltb (offset + i) p ≡ false = ground arith in
      rw (none_left, mask_byte, n) ((zero_bit i hi).0)
  | inr some_left ↦ elim (Bool-cases (ltb p (offset + 8))) [
    | inl part ↦
        let s : ltb i (p - offset) ≡ ltb (offset + i) p = ground arith in
        rw (some_left, part, mask_byte, ← s) (mask_bit b (p - offset) i hb (ground arith) hi)
    | inr whole ↦
        let y : ltb (offset + i) p ≡ true = ground arith in rw (some_left, whole, mask_byte, y)
  ]
]

mask_byte-lt : (b p offset : ℕ) → b < 256 → mask_byte p offset b < 256
unfolding mask_byte
mask_byte-lt b p offset h = elim (Bool-cases (leb p offset)) [
  | inl none_left ↦ rw (none_left, mask_byte) (omega arith)
  | inr some_left ↦ elim (Bool-cases (ltb p (offset + 8))) [
    | inl part ↦ rw (some_left, part, mask_byte) ((masked_byte b (p - offset) h (ground arith)).0)
    | inr whole ↦ rw (some_left, whole, mask_byte) h
  ]
]

-- `make` keeps the first bits and clears the others.
pub bit_at-mask_bytes :
    (xs : Bytes) (p offset i : ℕ)
    → AllBytes xs
    → bit_at (mask_bytes p offset xs) i ≡ (if ltb (offset + i) p then bit_at xs i else 0)
unfolding mask_bytes
bit_at-mask_bytes [] p offset i h = ground arith
bit_at-mask_bytes (b ∷ xs) p offset i h =
    bit_at-step b (mask_byte p offset b) 0 i p offset (mask_bytes p (offset + 8) xs) xs
      (bit-mask_byte b p offset i h.0) (λ _. bit_at-mask_bytes xs p (offset + 8) (i - 8) h.1)

pub mask_bytes_array :
    (xs : Bytes) (p offset : ℕ)
    → AllBytes xs
    → (length (mask_bytes p offset xs) ≡ length xs) × AllBytes (mask_bytes p offset xs)
unfolding mask_bytes
mask_bytes_array [] p offset h = (refl, tt)
mask_bytes_array (b ∷ xs) p offset h =
    let (n, k) = mask_bytes_array xs p (offset + 8) h.1 in
    (ap suc n, (mask_byte-lt b p offset h.0, k))

bit-fill_byte :
    (b p offset i : ℕ)
    → b < 256
    → i < 8
    → bit (fill_byte p offset b) i ≡ (if ltb (offset + i) p then bit b i else 1)
unfolding fill_byte
bit-fill_byte b p offset i hb hi = elim (Bool-cases (leb p offset)) [
  | inl none_left ↦
      let n : ltb (offset + i) p ≡ false = ground arith in
      rw (none_left, fill_byte, n) ((zero_bit i hi).1)
  | inr some_left ↦ elim (Bool-cases (ltb p (offset + 8))) [
    | inl part ↦
        let s : ltb i (p - offset) ≡ ltb (offset + i) p = ground arith in
        rw (some_left, part, fill_byte, ← s) (fill_bit b (p - offset) i hb (ground arith) hi)
    | inr whole ↦
        let y : ltb (offset + i) p ≡ true = ground arith in rw (some_left, whole, fill_byte, y)
  ]
]

fill_byte-lt : (b p offset : ℕ) → b < 256 → fill_byte p offset b < 256
unfolding fill_byte
fill_byte-lt b p offset h = elim (Bool-cases (leb p offset)) [
  | inl none_left ↦ rw (none_left, fill_byte) (omega arith)
  | inr some_left ↦ elim (Bool-cases (ltb p (offset + 8))) [
    | inl part ↦ rw (some_left, part, fill_byte) ((masked_byte b (p - offset) h (ground arith)).1)
    | inr whole ↦ rw (some_left, whole, fill_byte) h
  ]
]

-- `lastAddress` keeps the first bits and sets the others.
pub bit_at-fill_bytes :
    (xs : Bytes) (p offset i : ℕ)
    → AllBytes xs
    → i < 8 * length xs
    → bit_at (fill_bytes p offset xs) i ≡ (if ltb (offset + i) p then bit_at xs i else 1)
unfolding fill_bytes
bit_at-fill_bytes [] p offset i h hi = elim hi [ ]
bit_at-fill_bytes (b ∷ xs) p offset i h hi =
    bit_at-step b (fill_byte p offset b) 1 i p offset (fill_bytes p (offset + 8) xs) xs
      (bit-fill_byte b p offset i h.0)
      (λ far. bit_at-fill_bytes xs p (offset + 8) (i - 8) h.1 (omega arith))

pub fill_bytes_array :
    (xs : Bytes) (p offset : ℕ)
    → AllBytes xs
    → (length (fill_bytes p offset xs) ≡ length xs) × AllBytes (fill_bytes p offset xs)
unfolding fill_bytes
fill_bytes_array [] p offset h = (refl, tt)
fill_bytes_array (b ∷ xs) p offset h =
    let (n, k) = fill_bytes_array xs p (offset + 8) h.1 in
    (ap suc n, (fill_byte-lt b p offset h.0, k))
