-- ===== src/Networking/Literal/V6.antt =====
-- What `parseV6` of Networking/src/IpAddress.cpp returns is a whole address.
use vpn_client.Prelude.{
  ℕ, zero, suc, ◌+◌, ◌-◌, ◌*◌, ◌≤◌, ◌<◌, Bool, true, false, not, ◌||◌, leb, ◌==◌, if◌then◌else◌,
  is_empty, some, List, [], ◌∷◌, ◌++◌, ◌≡◌, refl, arith, All, All-append, Bytes, length,
  length-append, length-replicate, replicate, subst,
}
use vpn_client.Networking.Literal.{
  ◌>>=◌, refuse_if, V6State, v6_words, word_bytes, v6_begin, v6_run, parse_v6,
}
use vpn_client.Networking.Literal.Words.{
  bind_some, IsWord, IsFilled, v6_run-IsFilled, v6_begin-IsFilled,
}

zeros-IsWord : (n : ℕ) → All IsWord (replicate n 0)
zeros-IsWord zero = tt
zeros-IsWord (suc n) = (omega arith, zeros-IsWord n)

v6_words-IsWord :
    (s : V6State) {words : List ℕ}
    → IsFilled s
    → v6_words s ≡ some words
    → (length words ≡ 8) × All IsWord words
unfolding v6_words
v6_words-IsWord s {words} h = go s.in_tail
  where
    filled : List ℕ
    filled = s.head ++ (replicate (8 - (length s.head + length s.tail)) 0 ++ s.tail)

    whole : length s.head + length s.tail ≤ 8 → (length filled ≡ 8) × All IsWord filled
    whole fits =
        let zeros : List ℕ = replicate (8 - (length s.head + length s.tail)) 0 in
        let a : length filled ≡ length s.head + length (zeros ++ s.tail) =
          length-append s.head (zeros ++ s.tail) in
        let b : length (zeros ++ s.tail) ≡ length zeros + length s.tail =
          length-append zeros s.tail in
        let c : length zeros ≡ 8 - (length s.head + length s.tail) =
          length-replicate (8 - (length s.head + length s.tail)) 0 in
        (
          omega arith,
          All-append IsWord s.head (zeros ++ s.tail) h.heads (
              All-append IsWord zeros s.tail (zeros-IsWord (8 - (length s.head + length s.tail)))
                h.tails),
        )

    finish :
        (b : Bool)
        → (b ≡ false → length s.head + length s.tail ≤ 8)
        → (refuse_if b >>= λ _. some filled) ≡ some words
        → (length words ≡ 8) × All IsWord words
    finish true fits e = absurd (cc e)
    finish false fits e =
        let same : filled ≡ words = cc e in
        subst (λ w. (length w ≡ 8) × All IsWord w) same (whole (fits refl))

    no_tail :
        not (length s.head == 8) || not (is_empty s.tail) ≡ false
        → length s.head + length s.tail ≤ 8
    no_tail = size s.tail
      where
        size :
            (tail : List ℕ)
            → not (length s.head == 8) || not (is_empty tail) ≡ false
            → length s.head + length tail ≤ 8
        size [] e = ground arith
        size (x ∷ tail) e = absurd (ground arith)

    go :
        (b : Bool)
        → (refuse_if (
              if b
              then leb 8 (length s.head + length s.tail)
              else not (length s.head == 8) || not (is_empty s.tail))
            >>= λ _. some filled)
          ≡ some words
        → (length words ≡ 8) × All IsWord words
    go true e = finish (leb 8 (length s.head + length s.tail)) (λ small. ground arith) e
    go false e = finish (not (length s.head == 8) || not (is_empty s.tail)) no_tail e

-- Sixteen bytes.
abbrev pub IsV6 : Bytes → Type 0
IsV6 b = (length b ≡ 16) × All (λ x. x < 256) b

word_bytes-IsByte :
    (words : List ℕ)
    → All IsWord words
    → (length (word_bytes words) ≡ 2 * length words) × All (λ x. x < 256) (word_bytes words)
unfolding word_bytes
word_bytes-IsByte [] h = (omega arith, tt)
word_bytes-IsByte (w ∷ words) h =
    let (size, all) = word_bytes-IsByte words h.1 in
    let word = h.0 in (omega arith, (omega arith, (omega arith, all)))

-- Where `parseV6` accepts a text, it fills all sixteen bytes, whatever the text.
pub parse_v6-IsV6 : (text b : Bytes) → parse_v6 text ≡ some b → IsV6 b
unfolding parse_v6
parse_v6-IsV6 text b e =
    let ((from, s), began, e') = bind_some (v6_begin text) _ e in
    let (s', ran, e'') = bind_some (v6_run from s) _ e' in
    let (words, counted, written) = bind_some (v6_words s') _ e'' in
    let same : word_bytes words ≡ b = cc written in
    let (size, all) =
      v6_words-IsWord s' (v6_run-IsFilled from s (v6_begin-IsFilled text began) ran) counted in
    let (size', all') = word_bytes-IsByte words all in subst IsV6 same (omega arith, all')
