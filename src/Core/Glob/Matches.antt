-- ===== src/Core/Glob/Matches.antt =====
-- What a glob pattern means, apart from any order of search: `*` stands for any bytes, and every
-- other pattern byte for one byte that it matches.
use vpn_client.Prelude.{ℕ, ◌==◌, true, false, [], ◌∷◌, ◌≡◌, refl, arith, All, Bytes}
use vpn_client.Core.Glob.{matches_byte}

-- `Suffix s t`: the text `s` ends `t`.
pub data Suffix : Bytes → Bytes → Type 0 where
  whole : {t : Bytes} → Suffix t t
  later : {s t : Bytes} {c : ℕ} → Suffix s t → Suffix s (c ∷ t)

pub data Matches : Bytes → Bytes → Type 0 where
  stop : Matches [] []
  wild :
      {p : ℕ} {ps s t : Bytes} → (p == b'*') ≡ true → Suffix s t → Matches ps s → Matches (p ∷ ps) t
  lit :
      {p c : ℕ} {ps t : Bytes}
      → (p == b'*') ≡ false
      → matches_byte p c ≡ true
      → Matches ps t
      → Matches (p ∷ ps) (c ∷ t)

-- Some end of the text matches.
pub record Found (pattern text : Bytes) : Type 0 where
  pub at : Bytes
  pub ends : Suffix at text
  pub fits : Matches pattern at

abbrev pub IsPlain : ℕ → Type 0
IsPlain c = (c == b'*') ≡ false

-- From `after` and `from`, literal bytes were matched one by one up to `p` and `t`.
pub data Reads (p t : Bytes) : Bytes → Bytes → Type 0 where
  here : Reads p t p t
  next :
      {q c : ℕ} {after from : Bytes}
      → (q == b'*') ≡ false
      → matches_byte q c ≡ true
      → Reads p t after from
      → Reads p t (q ∷ after) (c ∷ from)

pub Suffix-trans : {r s t : Bytes} → Suffix r s → Suffix s t → Suffix r t
Suffix-trans h whole = h
Suffix-trans h (later k) = later (Suffix-trans h k)

pub Suffix-tail : {c : ℕ} {s t : Bytes} → Suffix (c ∷ s) t → Suffix s t
Suffix-tail whole = later whole
Suffix-tail (later h) = later (Suffix-tail h)

pub Suffix-tails : {c d : ℕ} {s t : Bytes} → Suffix (c ∷ s) (d ∷ t) → Suffix s t
Suffix-tails whole = whole
Suffix-tails (later h) = Suffix-tail h

pub Suffix-nil : {s : Bytes} → Suffix s [] → s ≡ []
Suffix-nil whole = refl

pub Suffix-All : {s t : Bytes} → Suffix s t → All IsPlain t → All IsPlain s
Suffix-All whole h = h
Suffix-All (later k) h = Suffix-All k h.1

-- A star in the pattern never takes part in the first test of the loop, if the text has no star.
pub matches_byte-IsPlain : (p c : ℕ) → IsPlain c → matches_byte p c ≡ true → (p == b'*') ≡ false
unfolding matches_byte
matches_byte-IsPlain p c plain h = ground arith

-- Inversion at a literal byte.
pub Matches-byte :
    {p : ℕ} {ps t : Bytes}
    → (p == b'*') ≡ false
    → Matches (p ∷ ps) t
    → (c : ℕ) × (s : Bytes) × (t ≡ c ∷ s) × (matches_byte p c ≡ true) × Matches ps s
Matches-byte n (wild y h m) = cc
Matches-byte n (lit {c} {t} _ b m) = (c, t, refl, b, m)

pub Matches-star : {p : ℕ} {ps t : Bytes} → (p == b'*') ≡ true → Matches (p ∷ ps) t → Found ps t
Matches-star y (wild {s} _ h m) = record { at = s; ends = h; fits = m }
Matches-star y (lit n b m) = cc

pub Reads-snoc :
    {p t : Bytes} {q c : ℕ} {after from : Bytes}
    → (q == b'*') ≡ false
    → matches_byte q c ≡ true
    → Reads (q ∷ p) (c ∷ t) after from
    → Reads p t after from
Reads-snoc n b here = next n b here
Reads-snoc n b (next n' b' r) = next n' b' (Reads-snoc n b r)

pub Reads-Matches :
    {p t after from : Bytes} → Reads p t after from → Matches p t → Matches after from
Reads-Matches here m = m
Reads-Matches (next n b r) m = lit n b (Reads-Matches r m)

pub Matches-Reads :
    {p t after from : Bytes} → Reads p t after from → Matches after from → Matches p t
Matches-Reads here m = m
Matches-Reads (next n b r) (wild y h m) = cc
Matches-Reads (next n b r) (lit _ _ m) = Matches-Reads r m

-- A match of a later start leaves a match of the rest of the pattern in the rest of the text: why
-- going back to the last star alone is enough.
pub Found-Reads : {p t after from : Bytes} → Reads p t after from → Found after from → Found p t
Found-Reads here f = f
Found-Reads (next {from} n b r) f =
    let (c, s, e, _, m) = Matches-byte n f.fits in
    Found-Reads r (record { at = s; ends = Suffix-tails (rw e at f.ends); fits = m })
