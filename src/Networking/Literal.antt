-- ===== src/Networking/Literal.antt =====
-- The text of an address, Networking/src/IpAddress.cpp: `parseOctet`, `parseV4`, `parseHextet`,
-- `parseV6`, `formatV4` and `formatV6`. An array is the list of its elements.
pub mod Octet
pub mod V4
pub mod Words
pub mod V6
pub mod Fuel
use vpn_client.Prelude.{
  ℕ, zero, suc, ◌+◌, ◌-◌, ◌*◌, ◌/◌, ◌%◌, Bool, true, false, not, ◌&&◌, ◌||◌, leb, ltb, ◌==◌,
  if◌then◌else◌, is_empty, Option, none, some, List, [], ◌∷◌, ◌++◌, length, get_or, take, drop,
  replicate, Bytes, codes,
}
use vpn_client.Core.Text.{find_byte, to_decimal, nibble, hex_digit}

infixl 5 ◌>>=◌ ◌>>◌
abbrev pub ◌>>=◌ {ℓ κ} : {A : Type ℓ} {B : Type κ} → Option A → (A → Option B) → Option B
none >>= f = none
some a >>= f = f a

abbrev pub ◌>>◌ {ℓ} : {B : Type ℓ} → Option (Unit {0}) → Option B → Option B
m >> k = m >>= λ _. k

-- `if (…) return false;`
abbrev pub refuse_if : Bool → Option (Unit {0})
refuse_if true = none
refuse_if false = some tt

-- The loop of `parseOctet`.
octet_value : ℕ → Bytes → Option ℕ
octet_value value [] = some value
octet_value value (c ∷ text) =
    if ltb c b'0' || ltb b'9' c then none else octet_value (value * 10 + (c - b'0')) text

abbrev leading_zero : Bytes → Bool
leading_zero (c ∷ d ∷ text) = c == b'0'
leading_zero _ = false

unfoldable pub parse_octet : Bytes → Option ℕ
unfolding octet_value
parse_octet text = do
  refuse_if (is_empty text || ltb 3 (length text))
  refuse_if (leading_zero text)
  value ← octet_value 0 text
  refuse_if (ltb 255 value)
  some value

-- The rounds of `parseV4`: three pieces that a dot ends, and a last one with no dot.
octets : ℕ → Bytes → Option Bytes
unfolding parse_octet find_byte
octets zero text = elim (find_byte b'.' text) [
  | some (piece, after) ↦ none
  | none ↦ do octet ← parse_octet text; some (octet ∷ [])
]
octets (suc more) text = elim (find_byte b'.' text) [
  | none ↦ none
  | some (piece, after) ↦ do
    octet ← parse_octet piece
    rest ← octets more after
    some (octet ∷ rest)
]

unfoldable pub parse_v4 : Bytes → Option Bytes
unfolding octets
parse_v4 text = octets 3 text

-- `(value << 4) | digit`, a sum since the digit is below 16; the digits are those of `fromHex`.
hextet_value : ℕ → Bytes → Option ℕ
unfolding nibble
hextet_value value [] = some value
hextet_value value (c ∷ text) = do digit ← nibble c; hextet_value (value * 16 + digit) text

unfoldable pub parse_hextet : Bytes → Option ℕ
unfolding hextet_value
parse_hextet text = do refuse_if (is_empty text || ltb 4 (length text)); hextet_value 0 text

-- The variables of the loop of `parseV6`; the counts are the lengths of `head` and `tail`.
-- `seenCompression` and `inTail` are set together, so one field stands for both.
pub record V6State : Type 0 where
  pub head : List ℕ
  pub tail : List ℕ
  pub in_tail : Bool

-- `target[count++] = …`, refused when the array of eight is full.
push_words : List ℕ → V6State → Option V6State
push_words words s = do
  let target = if s.in_tail then s.tail else s.head
  refuse_if (ltb 8 (length target + length words))
  some (
      if s.in_tail
      then record s { tail = target ++ words }
      else record s { head = target ++ words })

-- `v4[0] << 8 | v4[1]` and `v4[2] << 8 | v4[3]`.
abbrev v4_words : Bytes → List ℕ
v4_words v4 = (get_or v4 0 0 * 256 + get_or v4 1 0) ∷ (get_or v4 2 0 * 256 + get_or v4 3 0) ∷ []

abbrev has_dot : Bytes → Bool
has_dot piece = elim (find_byte b'.' piece) [ none ↦ false | some hit ↦ true ]

-- One piece that is not empty and that no dot is in.
push_hextet : Bytes → V6State → Option V6State
unfolding parse_hextet push_words
push_hextet piece s = do value ← parse_hextet piece; push_words (value ∷ []) s

-- The while loop, at the text from `i` on, which is not empty, with fuel for its pieces.
pub v6_loop : ℕ → Bytes → V6State → Option V6State
unfolding push_hextet push_words parse_v4
v6_loop zero text s = none
v6_loop (suc fuel) text s = elim (find_byte b':' text) [
  | none ↦
      if has_dot text
      then (do v4 ← parse_v4 text; push_words (v4_words v4) s)
      else push_hextet text s
  | some (piece, after) ↦
      if has_dot piece
      then none
      else if is_empty piece
      then (if s.in_tail then none else elim (is_empty after) [
        | true ↦ some (record s { in_tail = true })
        | false ↦ v6_loop fuel after (record s { in_tail = true })
      ])
      else (do s' ← push_hextet piece s; refuse_if (is_empty after); v6_loop fuel after s')
]

-- The checks behind the loop, and the eight words.
v6_words : V6State → Option (List ℕ)
v6_words s = do
  refuse_if (
      if s.in_tail
      then leb 8 (length s.head + length s.tail)
      else not (length s.head == 8) || not (is_empty s.tail))
  some (s.head ++ (replicate (8 - (length s.head + length s.tail)) 0 ++ s.tail))

-- `out[2w] = words[w] >> 8` and `out[2w + 1] = words[w] & 0xFF`.
pub word_bytes : List ℕ → Bytes
word_bytes [] = []
word_bytes (w ∷ words) = w / 256 ∷ w % 256 ∷ word_bytes words

abbrev pub v6_start : V6State
v6_start = record { head = []; tail = []; in_tail = false }

-- The test of the first two bytes: where the loop begins, or that the text is `::`.
pub v6_begin : Bytes → Option (Bytes × V6State)
v6_begin [] = none
v6_begin (c ∷ []) = none
v6_begin (c ∷ d ∷ text) =
    if c == b':'
    then (if d == b':' then some (text, record v6_start { in_tail = true }) else none)
    else some (c ∷ d ∷ text, v6_start)

-- An empty text is left only by `::`, for which `out` is all zero.
abbrev pub v6_run : Bytes → V6State → Option V6State
v6_run [] s = some s
v6_run (c ∷ text) s = v6_loop (suc (length text)) (c ∷ text) s

unfoldable pub parse_v6 : Bytes → Option Bytes
unfolding v6_begin v6_loop v6_words word_bytes
parse_v6 text = do
  (from, s) ← v6_begin text
  s' ← v6_run from s
  words ← v6_words s'
  some (word_bytes words)

-- `%u.%u.%u.%u`.
unfoldable pub format_v4 : Bytes → Bytes
unfolding to_decimal
format_v4 bytes =
    to_decimal (get_or bytes 0 0)
    ++ (b'.'
        ∷ (to_decimal (get_or bytes 1 0)
            ++ (b'.' ∷ (to_decimal (get_or bytes 2 0) ++ (b'.' ∷ to_decimal (get_or bytes 3 0))))))

-- `bytes[2i] << 8 | bytes[2i + 1]`.
pub bytes_words : Bytes → List ℕ
bytes_words (hi ∷ lo ∷ bytes) = (hi * 256 + lo) ∷ bytes_words bytes
bytes_words _ = []

-- The variables of the search for the longest run of zero words.
record Run : Type 0 where
  best_start : ℕ
  best_length : ℕ
  run_start : ℕ
  run_length : ℕ

run_step : ℕ → ℕ → Run → Run
run_step i w r =
    if w == 0
    then (let start = if r.run_length == 0 then i else r.run_start in
        if ltb r.best_length (r.run_length + 1)
        then record {
          best_start = start;
          best_length = r.run_length + 1;
          run_start = start;
          run_length = r.run_length + 1;
        }
        else record r { run_start = start; run_length = r.run_length + 1 })
    else record r { run_length = 0 }

longest_run : ℕ → List ℕ → Run → Run
unfolding run_step
longest_run i [] r = r
longest_run i (w ∷ words) r = longest_run (i + 1) words (run_step i w r)

-- Where the compression starts and how long it is; `(8, 0)` where there is none.
compression : List ℕ → ℕ × ℕ
unfolding longest_run
compression words =
    let r =
      longest_run 0 words
        (record { best_start = 8; best_length = 0; run_start = 0; run_length = 0 }) in
    if ltb r.best_length 2 then (8, 0) else (r.best_start, r.best_length)

-- `%x` on fuel.
hex_loop : ℕ → ℕ → Bytes → Bytes
unfolding hex_digit
hex_loop zero n digits = digits
hex_loop (suc fuel) n digits = elim (ltb n 16) [
  | true ↦ hex_digit false n ∷ digits
  | false ↦ hex_loop fuel (n / 16) (hex_digit false (n % 16) ∷ digits)
]

to_hex_number : ℕ → Bytes
unfolding hex_loop
to_hex_number n = hex_loop (suc n) n []

abbrev ends_colon : Bytes → Bool
ends_colon [] = false
ends_colon (c ∷ []) = c == b':'
ends_colon (c ∷ d ∷ text) = ends_colon (d ∷ text)

-- The output loop; `skip` words of the compressed run are still to be passed over.
write_words : ℕ → ℕ → ℕ → ℕ → Bytes → List ℕ → Bytes
unfolding to_hex_number
write_words best_start best_length i skip out [] = out
write_words best_start best_length i (suc skip) out (w ∷ words) =
    write_words best_start best_length (i + 1) skip out words
write_words best_start best_length i zero out (w ∷ words) = elim (i == best_start) [
  | true ↦ write_words best_start best_length (i + 1) (best_length - 1) (out ++ codes "::") words
  | false ↦
      let separated =
        if not (is_empty out) && not (ends_colon out) then out ++ b':' ∷ [] else out in
      write_words best_start best_length (i + 1) 0 (separated ++ to_hex_number w) words
]

unfoldable pub format_v6 : Bytes → Bytes
unfolding bytes_words compression write_words
format_v6 bytes =
    let words = bytes_words bytes in
    let (start, count) = compression words in
    let out = write_words start count 0 0 [] words in if is_empty out then codes "::" else out
