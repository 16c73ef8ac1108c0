-- ===== src/Core/WinError.antt =====
-- The classification of Windows error codes, Core/src/WinError.cpp. The codes are those of winerror.h;
-- the system's own text for a code is a parameter.
use vpn_client.Prelude.{
  true, ℕ, zero, suc, ◌/◌, ◌%◌, ◌==◌, if◌then◌else◌, List, [], ◌∷◌, ◌++◌, Bytes, codes, ◌≡◌, refl,
  ap, not, false, All, Bool-cases, inl, inr, arith,
}
use vpn_client.Core.Status.{ErrorCode, Status, is_error, is_ok_code}
use vpn_client.Core.Text.{hex_digit}

-- The cases of the switch after NO_ERROR, in order.
abbrev win32_failures : List (ℕ × ErrorCode)
win32_failures =
    (2, ErrorCode.not_found)
    ∷ (3, ErrorCode.not_found)
    ∷ (1060, ErrorCode.not_found)
    ∷ (1168, ErrorCode.not_found)
    ∷ (5, ErrorCode.permission_denied)
    ∷ (1314, ErrorCode.permission_denied)
    ∷ (740, ErrorCode.permission_denied)
    ∷ (183, ErrorCode.already_exists)
    ∷ (80, ErrorCode.already_exists)
    ∷ (1073, ErrorCode.already_exists)
    ∷ (5010, ErrorCode.already_exists)
    ∷ (87, ErrorCode.invalid_argument)
    ∷ (123, ErrorCode.invalid_argument)
    ∷ (160, ErrorCode.invalid_argument)
    ∷ (8, ErrorCode.out_of_memory)
    ∷ (14, ErrorCode.out_of_memory)
    ∷ (1460, ErrorCode.timeout)
    ∷ (121, ErrorCode.timeout)
    ∷ (258, ErrorCode.timeout)
    ∷ (995, ErrorCode.cancelled)
    ∷ (1223, ErrorCode.cancelled)
    ∷ (120, ErrorCode.not_implemented)
    ∷ (170, ErrorCode.unavailable)
    ∷ (2404, ErrorCode.unavailable)
    ∷ (1053, ErrorCode.unavailable)
    ∷ (5023, ErrorCode.invalid_state)
    ∷ (1056, ErrorCode.invalid_state)
    ∷ (1062, ErrorCode.invalid_state)
    ∷ (1231, ErrorCode.network_unreachable)
    ∷ (1232, ErrorCode.network_unreachable)
    ∷ (54, ErrorCode.network_unreachable)
    ∷ (1225, ErrorCode.connection_refused)
    ∷ (64, ErrorCode.connection_reset)
    ∷ (1236, ErrorCode.connection_reset)
    ∷ (109, ErrorCode.connection_reset)
    ∷ (233, ErrorCode.connection_reset)
    ∷ (38, ErrorCode.io_error)
    ∷ (30, ErrorCode.io_error)
    ∷ (29, ErrorCode.io_error)
    ∷ (112, ErrorCode.io_error)
    ∷ (1392, ErrorCode.checksum_mismatch)
    ∷ (23, ErrorCode.checksum_mismatch)
    ∷ (1326, ErrorCode.auth_failed)
    ∷ (86, ErrorCode.auth_failed)
    ∷ (1331, ErrorCode.auth_failed)
    ∷ (433, ErrorCode.adapter_not_found)
    ∷ (55, ErrorCode.adapter_not_found)
    ∷ (1275, ErrorCode.driver_missing)
    ∷ (2001, ErrorCode.driver_missing)
    ∷ (119, ErrorCode.driver_missing)
    ∷ []

abbrev win32_codes : List (ℕ × ErrorCode)
win32_codes = (0, ErrorCode.ok) ∷ win32_failures

code_in : List (ℕ × ErrorCode) → ℕ → ErrorCode
code_in [] code = ErrorCode.unknown
code_in ((n, c) ∷ cases) code = let rest = code_in cases code in if n == code then c else rest

code_in-is_error :
    (cases : List (ℕ × ErrorCode)) (code : ℕ)
    → All (λ (c : ℕ × ErrorCode). is_ok_code c.1 ≡ false) cases
    → is_ok_code (code_in cases code) ≡ false
unfolding code_in
code_in-is_error [] code h = refl
code_in-is_error ((n, c) ∷ cases) code (h, k) = elim (Bool-cases (n == code)) [
  | inl same ↦ rw (same, code_in) h
  | inr other ↦ rw (other, code_in) (code_in-is_error cases code k)
]

unfoldable pub classify_win32 : ℕ → ErrorCode
unfolding code_in
classify_win32 code = code_in win32_codes code

-- The last `digits` hexadecimal digits.
hex_digits : ℕ → ℕ → Bytes
unfolding hex_digit
hex_digits zero code = []
hex_digits (suc digits) code = hex_digits digits (code / 16) ++ hex_digit true (code % 16) ∷ []

-- `0x%08lX`.
unfoldable pub hex_code : ℕ → Bytes
unfolding hex_digits
hex_code code = codes "0x" ++ hex_digits 8 code

unfoldable pub format_win32 : (ℕ → Bytes) → ℕ → Bytes
unfolding hex_code
format_win32 system_text code = hex_code code ++ (codes " " ++ system_text code)

unfoldable pub from_win32 : (ℕ → Bytes) → ℕ → Bytes → Status
unfolding classify_win32 format_win32
from_win32 system_text code context = record {
  code = classify_win32 code;
  message = context ++ (codes " failed: " ++ format_win32 system_text code);
  platform_code = code;
}

-- A code other than NO_ERROR makes a status that is an error.
pub from_win32-is_error :
    (system_text : ℕ → Bytes) (code : ℕ) (context : Bytes)
    → (code == 0) ≡ false
    → is_error (from_win32 system_text code context) ≡ true
unfolding from_win32 classify_win32 code_in
from_win32-is_error system_text code context h =
    rw (code_sym, code_in) (ap not (code_in-is_error win32_failures code all_failures))
  where
    code_sym : (0 == code) ≡ false
    code_sym = ground arith

    all_failures : All (λ (c : ℕ × ErrorCode). is_ok_code c.1 ≡ false) win32_failures
    all_failures = ground arith
