-- ===== src/Core/Text/Hex.antt =====
-- `toHex` and `fromHex` of Core/src/StringUtil.cpp, and decimal digits.
use vpn_client.Prelude.{
  ℕ, zero, suc, ◌+◌, ◌-◌, ◌*◌, ◌/◌, ◌%◌, ◌<◌, ◌≤◌, Bool, true, false, some, [], ◌∷◌, ◌≡◌, inl, inr,
  refl, ap, arith, All, Bytes, Bool-cases, ltb, ◌∙◌,
}
use vpn_client.Core.Text.{hex_digit, to_hex, nibble, from_hex, decimal_loop, to_decimal}

abbrev pub IsByte : ℕ → Type 0
IsByte b = b < 256

nibble-hex_digit : (u : Bool) (n : ℕ) → n < 16 → nibble (hex_digit u n) ≡ some n
unfolding nibble hex_digit
nibble-hex_digit true n h = ground arith
nibble-hex_digit false n h = ground arith

from_hex_step :
    (c d : ℕ) (hex : Bytes) {hi lo : ℕ} {rest : Bytes}
    → nibble c ≡ some hi
    → nibble d ≡ some lo
    → from_hex hex ≡ some rest
    → from_hex (c ∷ d ∷ hex) ≡ some ((hi * 16 + lo) ∷ rest)
unfolding from_hex
from_hex_step c d hex p q r = rw (p, q, r)

-- Hexadecimal text in either case reads back as the bytes that it was written from.
pub from_hex-to_hex :
    (u : Bool) (bytes : Bytes) → All IsByte bytes → from_hex (to_hex u bytes) ≡ some bytes
unfolding to_hex
from_hex-to_hex u [] h = unfold from_hex in refl
from_hex-to_hex u (b ∷ bytes) h =
    from_hex_step _ _ _ (nibble-hex_digit u (b / 16) (omega arith))
      (nibble-hex_digit u (b % 16) (omega arith)) (from_hex-to_hex u bytes h.1)
    ∙ ap (λ (x : ℕ). some (x ∷ bytes)) (omega arith)

-- What decimal digits stand for, read from the left.
pub digits_value : ℕ → Bytes → ℕ
digits_value n [] = n
digits_value n (d ∷ digits) = digits_value (n * 10 + (d - b'0')) digits

abbrev pub IsDigit : ℕ → Type 0
IsDigit c = (b'0' ≤ c) × (c ≤ b'9')

digits_value-decimal_loop :
    (fuel n : ℕ) (digits : Bytes)
    → n < fuel
    → digits_value 0 (decimal_loop fuel n digits) ≡ digits_value n digits
unfolding decimal_loop digits_value
digits_value-decimal_loop zero n digits h = absurd (omega arith)
digits_value-decimal_loop (suc fuel) n digits h = elim (Bool-cases (ltb n 10)) [
  | inl small ↦ rw (small, decimal_loop) (ap (λ (x : ℕ). digits_value x digits) (omega arith))
  | inr big ↦
      rw (big, decimal_loop)
        (digits_value-decimal_loop fuel (n / 10) ((b'0' + n % 10) ∷ digits) (ground arith)
          ∙ ap (λ (x : ℕ). digits_value x digits) (omega arith))
]

All-decimal_loop :
    (fuel n : ℕ) (digits : Bytes) → All IsDigit digits → All IsDigit (decimal_loop fuel n digits)
unfolding decimal_loop
All-decimal_loop zero n digits h = h
All-decimal_loop (suc fuel) n digits h = elim (Bool-cases (ltb n 10)) [
  | inl small ↦ rw (small, decimal_loop) ((omega arith, ground arith), h)
  | inr big ↦
      rw (big, decimal_loop)
        (All-decimal_loop fuel (n / 10) ((b'0' + n % 10) ∷ digits) ((omega arith, omega arith), h))
]

-- `std::to_string` writes digits only, and their value is the number.
pub digits_value-to_decimal :
    (n : ℕ) → (digits_value 0 (to_decimal n) ≡ n) × All IsDigit (to_decimal n)
unfolding to_decimal digits_value
digits_value-to_decimal n =
    (digits_value-decimal_loop (suc n) n [] (omega arith), All-decimal_loop (suc n) n [] tt)
