-- ===== src/Core/Text.antt =====
-- Core/src/StringUtil.cpp: case folding, trimming, splitting, joining, hexadecimal and redaction.
-- A `std::string_view` is its list of bytes. Positions into a view are suffixes of that list.
-- `formatBytes` and `formatBitrate`, which print floating-point numbers, are not modelled.
pub mod Trim
pub mod Split
pub mod Hex
pub mod Find
use vpn_client.Prelude.{
  ℕ, zero, suc, ◌+◌, ◌-◌, ◌*◌, ◌/◌, ◌%◌, Bool, true, false, not, ◌&&◌, ◌||◌, leb, ltb, ◌==◌,
  if◌then◌else◌, is_empty, Option, none, some, List, [], ◌∷◌, ◌++◌, map, length, get_or, take, drop,
  replicate, Bytes, codes, equal,
}

unfoldable pub ascii_lower : ℕ → ℕ
ascii_lower c = if leb b'A' c && leb c b'Z' then c - b'A' + b'a' else c

unfoldable pub ascii_upper : ℕ → ℕ
ascii_upper c = if leb b'a' c && leb c b'z' then c - b'a' + b'A' else c

unfoldable pub is_space : ℕ → Bool
is_space c = c == b' ' || c == 9 || c == 13 || c == 10 || c == 11 || c == 12

unfoldable pub to_lower : Bytes → Bytes
unfolding ascii_lower
to_lower = map ascii_lower

unfoldable pub to_upper : Bytes → Bytes
unfolding ascii_upper
to_upper = map ascii_upper

-- The size test and the loop over both views.
unfoldable pub equals_ignore_case : Bytes → Bytes → Bool
unfolding ascii_lower
equals_ignore_case [] [] = true
equals_ignore_case (x ∷ a) (y ∷ b) = ascii_lower x == ascii_lower y && equals_ignore_case a b
equals_ignore_case _ _ = false

unfoldable pub starts_with : Bytes → Bytes → Bool
unfolding equal
starts_with text prefix =
    leb (length prefix) (length text) && equal (take (length prefix) text) prefix

unfoldable pub ends_with : Bytes → Bytes → Bool
unfolding equal
ends_with text suffix =
    leb (length suffix) (length text) && equal (drop (length text - length suffix) text) suffix

-- `text.find(needle)`: the text before the first occurrence, and the text from it on.
unfoldable pub find_text : Bytes → Bytes → Option (Bytes × Bytes)
unfolding starts_with
find_text needle [] = if starts_with [] needle then some ([], []) else none
find_text needle (c ∷ text) =
    let later = find_text needle text in
    if starts_with (c ∷ text) needle
    then some ([], c ∷ text)
    else elim later [ none ↦ none | some (before, from) ↦ some (c ∷ before, from) ]

unfoldable pub contains : Bytes → Bytes → Bool
unfolding find_text
contains text needle = elim (find_text needle text) [ none ↦ false | some hit ↦ true ]

-- `text.find(byte)`: the text before the first such byte, and the text after it.
unfoldable pub find_byte : ℕ → Bytes → Option (Bytes × Bytes)
find_byte b [] = none
find_byte b (c ∷ text) =
    let later = find_byte b text in
    if c == b
    then some ([], text)
    else elim later [ none ↦ none | some (before, after) ↦ some (c ∷ before, after) ]

-- `text.rfind(byte)`: the text before the last such byte, and the text after it.
unfoldable pub rfind_byte : ℕ → Bytes → Option (Bytes × Bytes)
rfind_byte b [] = none
rfind_byte b (c ∷ text) = elim (rfind_byte b text) [
  | some (before, after) ↦ some (c ∷ before, after)
  | none ↦ if c == b then some ([], text) else none
]

unfoldable pub trim_left : Bytes → Bytes
unfolding is_space
trim_left [] = []
trim_left (c ∷ text) = let rest = trim_left text in if is_space c then rest else c ∷ text

-- The loop from the end: a space is kept if something behind it is.
unfoldable pub trim_right : Bytes → Bytes
unfolding is_space
trim_right [] = []
trim_right (c ∷ text) =
    let rest = trim_right text in if is_empty rest && is_space c then [] else c ∷ rest

unfoldable pub trim : Bytes → Bytes
unfolding trim_left trim_right
trim text = trim_right (trim_left text)

abbrev push_part : Bool → Bytes → List Bytes → List Bytes
push_part skip_empty piece parts =
    if not skip_empty || not (is_empty piece) then piece ∷ parts else parts

-- The loop of `split`; `piece` is `text.substr(start, …)` up to the byte that is read.
split_loop : ℕ → Bool → Bytes → Bytes → List Bytes
split_loop delimiter skip_empty piece [] = push_part skip_empty piece []
split_loop delimiter skip_empty piece (c ∷ text) = elim (c == delimiter) [
  | true ↦ push_part skip_empty piece (split_loop delimiter skip_empty [] text)
  | false ↦ split_loop delimiter skip_empty (piece ++ c ∷ []) text
]

unfoldable pub split : ℕ → Bool → Bytes → List Bytes
unfolding split_loop
split delimiter skip_empty text = split_loop delimiter skip_empty [] text

abbrev push_word : Bytes → List Bytes → List Bytes
push_word word parts = if is_empty word then parts else word ∷ parts

words_loop : Bytes → Bytes → List Bytes
unfolding is_space
words_loop word [] = push_word word []
words_loop word (c ∷ text) = elim (is_space c) [
  | true ↦ push_word word (words_loop [] text)
  | false ↦ words_loop (word ++ c ∷ []) text
]

unfoldable pub split_whitespace : Bytes → List Bytes
unfolding words_loop
split_whitespace text = words_loop [] text

join_rest : Bytes → List Bytes → Bytes
join_rest separator [] = []
join_rest separator (part ∷ parts) = separator ++ (part ++ join_rest separator parts)

unfoldable pub join : List Bytes → Bytes → Bytes
unfolding join_rest
join [] separator = []
join (part ∷ parts) separator = part ++ join_rest separator parts

-- The loop of `replaceAll` on fuel: every round drops `from`, which is not empty.
replace_loop : ℕ → Bytes → Bytes → Bytes → Bytes
unfolding find_text
replace_loop zero from to text = text
replace_loop (suc fuel) from to text = elim (find_text from text) [
  | none ↦ text
  | some (before, hit) ↦ before ++ (to ++ replace_loop fuel from to (drop (length from) hit))
]

unfoldable pub replace_all : Bytes → Bytes → Bytes → Bytes
unfolding replace_loop
replace_all text from to =
    if is_empty from then text else replace_loop (suc (length text)) from to text

-- `table[n]` of `toHex`.
unfoldable pub hex_digit : Bool → ℕ → ℕ
hex_digit uppercase n =
    if ltb n 10 then b'0' + n else if uppercase then b'A' + n - 10 else b'a' + n - 10

unfoldable pub to_hex : Bool → Bytes → Bytes
unfolding hex_digit
to_hex uppercase [] = []
to_hex uppercase (b ∷ bytes) =
    hex_digit uppercase (b / 16) ∷ hex_digit uppercase (b % 16) ∷ to_hex uppercase bytes

-- The lambda `nibble`.
unfoldable pub nibble : ℕ → Option ℕ
nibble c =
    if leb b'0' c && leb c b'9'
    then some (c - b'0')
    else if leb b'a' c && leb c b'f'
    then some (c - b'a' + 10)
    else if leb b'A' c && leb c b'F'
    then some (c - b'A' + 10)
    else none

infixl 5 ◌>>=◌
abbrev ◌>>=◌ {ℓ κ} : {A : Type ℓ} {B : Type κ} → Option A → (A → Option B) → Option B
none >>= f = none
some a >>= f = f a

-- An odd size is refused before the loop; `(hi << 4) | lo` is a sum, since `lo` is below 16.
unfoldable pub from_hex : Bytes → Option Bytes
unfolding nibble
from_hex [] = some []
from_hex (c ∷ []) = none
from_hex (c ∷ d ∷ hex) = do
  hi ← nibble c
  lo ← nibble d
  rest ← from_hex hex
  some ((hi * 16 + lo) ∷ rest)

-- `std::to_string` and `%u`: decimal digits, the last one first on fuel.
decimal_loop : ℕ → ℕ → Bytes → Bytes
decimal_loop zero n digits = digits
decimal_loop (suc fuel) n digits = elim (ltb n 10) [
  | true ↦ (b'0' + n) ∷ digits
  | false ↦ decimal_loop fuel (n / 10) ((b'0' + n % 10) ∷ digits)
]

unfoldable pub to_decimal : ℕ → Bytes
unfolding decimal_loop
to_decimal n = decimal_loop (suc n) n []

-- `%02lld`.
two_digits : ℕ → Bytes
unfolding to_decimal
two_digits n = if ltb n 10 then b'0' ∷ to_decimal n else to_decimal n

-- The duration in seconds, negative ones clamped to 0 by the caller's type.
unfoldable pub format_duration : ℕ → Bytes
unfolding two_digits
format_duration total =
    two_digits (total / 3600)
    ++ (b':' ∷ (two_digits (total % 3600 / 60) ++ (b':' ∷ two_digits (total % 60))))

unfoldable pub redact : Bytes → Bytes
redact secret =
    if is_empty secret
    then codes "<empty>"
    else if leb (length secret) 4
    then replicate (length secret) b'*'
    else take 2 secret ++ (replicate (length secret - 4) b'*' ++ drop (length secret - 2) secret)
