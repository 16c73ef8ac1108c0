-- ===== src/Networking/Range/Reading.antt =====
-- What `IpAddress::tryParse` and `IpRange::parse` of Networking/src/IpAddress.cpp read of the dotted form.
use vpn_client.Prelude.{
  ℕ, ◌%◌, ◌≤◌, ◌<◌, Bool, true, false, not, ◌&&◌, ◌==◌, ltb, none, some, [], ◌∷◌, ◌++◌, ◌≡◌, refl,
  arith, All, All-append, Bytes, length, is_empty, all_below, all_below_sound,
}
use vpn_client.Core.Text.{to_decimal, is_space}
use vpn_client.Core.Text.Split.{Lacks}
use vpn_client.Core.Text.Hex.{IsDigit, digits_value-to_decimal}
use vpn_client.Core.Text.Find.{find_byte-none, find_byte-some, NoSpace, trim-NoSpace}
use vpn_client.Networking.Literal.{format_v4}
use vpn_client.Networking.Literal.V4.{parse_v4-format_v4}
use vpn_client.Networking.Address.{IpAddress, from_v4, try_parse}
use vpn_client.Networking.Address
use vpn_client.Networking.Range.{make, from_chars, parse}

-- A digit or a dot.
abbrev IsDotted : ℕ → Type 0
IsDotted c = (b'.' ≤ c) × (c ≤ b'9') × ((c == b'/') ≡ false)

IsDigit-IsDotted : (text : Bytes) → All IsDigit text → All IsDotted text
IsDigit-IsDotted [] h = tt
IsDigit-IsDotted (c ∷ text) h =
    ((omega (arith, h.0), omega (arith, h.0), ground (arith, h.0)), IsDigit-IsDotted text h.1)

to_decimal-IsDotted : (n : ℕ) → All IsDotted (to_decimal n)
to_decimal-IsDotted n = IsDigit-IsDotted (to_decimal n) (digits_value-to_decimal n).1

IsDotted-more :
    (n : ℕ) (text : Bytes) → All IsDotted text → All IsDotted (to_decimal n ++ (b'.' ∷ text))
IsDotted-more n text h =
    All-append IsDotted (to_decimal n) (b'.' ∷ text) (to_decimal-IsDotted n)
      ((omega arith, omega arith, refl), h)

format_v4-IsDotted : (a b c d : ℕ) → All IsDotted (format_v4 (a ∷ b ∷ c ∷ d ∷ []))
unfolding format_v4
format_v4-IsDotted a b c d =
    IsDotted-more a _ (IsDotted-more b _ (IsDotted-more c _ (to_decimal-IsDotted d)))

IsDotted-Lacks : (b : ℕ) (text : Bytes) → (b'9' < b) → All IsDotted text → Lacks b text
IsDotted-Lacks b [] h all = tt
IsDotted-Lacks b (c ∷ text) h all =
    let (low, high, other) = all.0 in (ground arith, IsDotted-Lacks b text h all.1)

IsDotted-slash : (text : Bytes) → All IsDotted text → Lacks b'/' text
IsDotted-slash [] all = tt
IsDotted-slash (c ∷ text) all = let (low, high, other) = all.0 in (other, IsDotted-slash text all.1)

IsDotted-NoSpace : (text : Bytes) → All IsDotted text → NoSpace text
unfolding is_space
IsDotted-NoSpace [] all = tt
IsDotted-NoSpace (c ∷ text) all =
    let (low, high, other) = all.0 in (ground arith, IsDotted-NoSpace text all.1)

format_v4-is_empty : (a b c d : ℕ) → is_empty (format_v4 (a ∷ b ∷ c ∷ d ∷ [])) ≡ false
unfolding format_v4
format_v4-is_empty a b c d = go (to_decimal a) _ _
  where
    go : (x : Bytes) (y : ℕ) (z : Bytes) → is_empty (x ++ (y ∷ z)) ≡ false
    go [] y z = refl
    go (x ∷ xs) y z = refl

slash_clean : is_space b'/' ≡ false
unfolding is_space
slash_clean = refl

-- A number below 1000 has one to three digits, which `from_chars` reads.
abbrev prefix_test : ℕ → Bool
prefix_test p =
    not (is_empty (to_decimal p))
    && not (ltb 3 (length (to_decimal p)))
    && elim (from_chars (to_decimal p)) [ none ↦ false | some n ↦ n == p ]

prefix_table : all_below 1000 prefix_test ≡ true
unfolding all_below to_decimal from_chars
prefix_table = refl

prefix_reads :
    (p : ℕ)
    → p < 1000
    → (is_empty (to_decimal p) ≡ false)
      × (ltb 3 (length (to_decimal p)) ≡ false)
      × (from_chars (to_decimal p) ≡ some p)
prefix_reads p small =
    let t = all_below_sound 1000 prefix_test p prefix_table small in
    (ground arith, ground arith, ground arith)

module _ (a b c d : ℕ) (ha : a < 256) (hb : b < 256) (hc : c < 256) (hd : d < 256) where
  -- The four octets of an IPv4 address, written with dots, are read as that address.
  pub try_parse-format_v4 :
      try_parse (format_v4 (a ∷ b ∷ c ∷ d ∷ [])) ≡ some (from_v4 (a ∷ b ∷ c ∷ d ∷ []))
  unfolding try_parse
  try_parse-format_v4 =
      let text = format_v4 (a ∷ b ∷ c ∷ d ∷ []) in
      let dotted = format_v4-IsDotted a b c d in
      let clean = trim-NoSpace text (IsDotted-NoSpace text dotted) in
      let colons = find_byte-none b':' text (IsDotted-Lacks b':' text (omega arith) dotted) in
      rw (clean, format_v4-is_empty a b c d, colons, try_parse)
        (rw (clean, parse_v4-format_v4 a b c d ha hb hc hd) refl)

  -- Reading the four octets of an IPv4 address, a slash and a number below 1000 in decimal digits makes
  -- the range of that address whose prefix is the number modulo 256. So the form that `toString` writes
  -- is read back, and 256 to 288 are read as the prefixes 0 to 32.
  pub parse-format_v4 :
      (p : ℕ)
      → p < 1000
      → parse (format_v4 (a ∷ b ∷ c ∷ d ∷ []) ++ (b'/' ∷ to_decimal p))
        ≡ make (from_v4 (a ∷ b ∷ c ∷ d ∷ [])) (p % 256)
  unfolding parse Address.parse
  parse-format_v4 p small =
      let address = format_v4 (a ∷ b ∷ c ∷ d ∷ []) in
      let dotted = format_v4-IsDotted a b c d in
      let text = address ++ (b'/' ∷ to_decimal p) in
      let spaces =
        All-append (λ x. is_space x ≡ false) address (b'/' ∷ to_decimal p)
          (IsDotted-NoSpace address dotted)
          (slash_clean, IsDotted-NoSpace (to_decimal p) (to_decimal-IsDotted p)) in
      let clean = trim-NoSpace text spaces in
      let slash = find_byte-some b'/' address (to_decimal p) (IsDotted-slash address dotted) in
      let (some_digits, fits, reads) = prefix_reads p small in
      rw (clean, slash, parse)
        (rw (try_parse-format_v4, Address.parse) (rw (some_digits, fits) (rw reads refl)))
