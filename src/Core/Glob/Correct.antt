-- ===== src/Core/Glob/Correct.antt =====
-- `globMatchImpl` ends, and decides what its pattern means, on a text with no `*`.
use vpn_client.Prelude.{
  ℕ, zero, suc, ◌+◌, ◌*◌, ◌<◌, ◌≤◌, Bool, true, false, ◌==◌, Option, none, some, [], ◌∷◌, ◌≡◌, ◌↔◌,
  inl, inr, refl, arith, All, subst, ◌&&◌, Bytes, length, Bool-cases, &&-eq-true,
}
use vpn_client.Core.Glob.{
  matches_byte, only_stars, Star, resume, glob_loop, enough_fuel, glob_match,
}
use vpn_client.Core.Glob.Matches.{
  Suffix, whole, later, Matches, stop, wild, lit, Found, IsPlain, Reads, here, Suffix-trans,
  Suffix-nil, matches_byte-IsPlain, Matches-star, Reads-snoc, Reads-Matches, Matches-Reads,
  Found-Reads,
}

-- What is still to be decided at a state of the loop.
abbrev Goal : Star → Bytes → Bytes → Type 0
Goal none p t = Matches p t
Goal (some (after, from)) p t = Found after from

abbrev Inv : Star → Bytes → Bytes → Type 0
Inv none p t = Unit {0}
Inv (some (after, from)) p t = Reads p t after from × All IsPlain from

abbrev Iff : Bool → Type 0 → Type 0
Iff b A = (b ≡ true) ↔ A

Iff-false : {A : Type 0} → ¬ A → Iff false A
Iff-false h = (λ e. cc, λ a. absurd (h a))

Iff-some : {A : Type 0} {a b : Bool} → some a ≡ some b → Iff a A → Iff b A
Iff-some {A} {a} {b} e h = let same : a ≡ b = cc in subst (λ x. Iff x A) same h

Iff-trans : {A B : Type 0} (b : Bool) → A ↔ B → Iff b B → Iff b A
Iff-trans b e h = (λ x. e.1 (h.0 x), λ a. h.1 (e.0 a))

only_stars-Matches : (p : Bytes) → Iff (only_stars p) (Matches p [])
unfolding only_stars
only_stars-Matches [] = (λ e. stop, λ m. refl)
only_stars-Matches (q ∷ p) = (
  λ e.
      let (y, more) = &&-eq-true (q == b'*') (only_stars p) e in
      wild y whole ((only_stars-Matches p).0 more),
  λ m. back (only_stars-Matches p).1 m,
)
  where
    back :
        (Matches p [] → only_stars p ≡ true)
        → Matches (q ∷ p) []
        → (q == b'*' && only_stars p) ≡ true
    back more (wild y h m) = let fits = subst (Matches p) (Suffix-nil h) m in rw (y, more fits)

Suffix-end : (t : Bytes) → Suffix [] t
Suffix-end [] = whole
Suffix-end (c ∷ t) = later (Suffix-end t)

-- At the end of the text only the state at hand is left to decide.
Goal-nil : (last : Star) (p : Bytes) → Inv last p [] → Goal last p [] ↔ Matches p []
Goal-nil none p h = (λ m. m, λ m. m)
Goal-nil (some (after, from)) p (r, plain) = (
  λ f. let g = Found-Reads r f in subst (Matches p) (Suffix-nil g.ends) g.fits,
  λ m. record { at = from; ends = whole; fits = Reads-Matches r m },
)

Reads-nil : {p t after : Bytes} → Reads p t after [] → t ≡ []
Reads-nil here = refl

-- Going back drops one byte of the text, from which no match starts.
Found-cons :
    {after from : Bytes} {d : ℕ}
    → ¬ Matches after (d ∷ from)
    → Found after (d ∷ from) ↔ Found after from
Found-cons {after} {from} {d} fail =
    (λ f. go f.ends f.fits, λ f. record { at = f.at; ends = later f.ends; fits = f.fits })
  where
    go : {s : Bytes} → Suffix s (d ∷ from) → Matches after s → Found after from
    go whole m = absurd (fail m)
    go (later {s} h) m = record { at = s; ends = h; fits = m }

-- Where the state at hand fails, what is left is the next try of the last star.
resume-Goal :
    (last : Star) (p : Bytes) (c : ℕ) (t : Bytes) (loop : Bytes → Bytes → Option Bool) (b : Bool)
    → Inv last p (c ∷ t)
    → ¬ Matches p (c ∷ t)
    → ((after from : Bytes)
        → All IsPlain from
        → loop after from ≡ some b
        → Iff b (Found after from))
    → resume last loop ≡ some b
    → Iff b (Goal last p (c ∷ t))
resume-Goal none p c t loop b h fail k e = Iff-some e (Iff-false fail)
resume-Goal (some (after, [])) p c t loop b (r, plain) fail k e = cc (Reads-nil r)
resume-Goal (some (after, d ∷ from)) p c t loop b (r, plain) fail k e =
    Iff-trans b (Found-cons (λ m. fail (Matches-Reads r m))) (k after from plain.1 e)

Matches-tail : {q c : ℕ} {p t : Bytes} → (q == b'*') ≡ false → Matches (q ∷ p) (c ∷ t) → Matches p t
Matches-tail n (wild y h m) = cc
Matches-tail n (lit _ b m) = m

other_byte :
    {q c : ℕ} {p t : Bytes}
    → (q == b'*') ≡ false
    → matches_byte q c ≡ false
    → ¬ Matches (q ∷ p) (c ∷ t)
other_byte n other (wild y h m) = cc
other_byte n other (lit _ b m) = cc

-- A literal byte that matches keeps what is left to decide.
Goal-byte :
    (last : Star) (q c : ℕ) (p t : Bytes)
    → IsPlain c
    → Inv last (q ∷ p) (c ∷ t)
    → matches_byte q c ≡ true
    → Inv last p t × (Goal last (q ∷ p) (c ∷ t) ↔ Goal last p t)
Goal-byte none q c p t plain h b =
    let n = matches_byte-IsPlain q c plain b in (tt, (λ m. Matches-tail n m, λ m. lit n b m))
Goal-byte (some (after, from)) q c p t plain (r, plains) b =
    let n = matches_byte-IsPlain q c plain b in ((Reads-snoc n b r, plains), (λ f. f, λ f. f))

-- A star makes every end of the text a start for the rest of the pattern.
Goal-star :
    (last : Star) (q : ℕ) (p t : Bytes)
    → Inv last (q ∷ p) t
    → (q == b'*') ≡ true
    → Goal last (q ∷ p) t ↔ Found p t
Goal-star none q p t h y = (Matches-star y, λ f. wild y f.ends f.fits)
Goal-star (some (after, from)) q p t (r, plains) y = (
  λ f.
      let g = Found-Reads r f in
      let k = Matches-star y g.fits in
      record { at = k.at; ends = Suffix-trans k.ends g.ends; fits = k.fits },
  λ f. record { at = from; ends = whole; fits = Reads-Matches r (wild y f.ends f.fits) },
)

glob_loop-Goal :
    (fuel : ℕ) (p t : Bytes) (last : Star) (b : Bool)
    → All IsPlain t
    → Inv last p t
    → glob_loop fuel p t last ≡ some b
    → Iff b (Goal last p t)
unfolding glob_loop
glob_loop-Goal zero p t last b plain h e = cc
glob_loop-Goal (suc fuel) p [] last b plain h e =
    Iff-some e (Iff-trans (only_stars p) (Goal-nil last p h) (only_stars-Matches p))
glob_loop-Goal (suc fuel) [] (c ∷ t) last b plain h e =
    resume-Goal last [] c t _ b h (λ m. absurd (no_match m))
      (λ after from k. glob_loop-Goal fuel after from (some (after, from)) b k (here, k)) e
  where
    no_match : Matches [] (c ∷ t) → ⊥
    no_match m = elim m [ ]
glob_loop-Goal (suc fuel) (q ∷ p) (c ∷ t) last b plain h e = elim (Bool-cases (matches_byte q c)) [
  | inl byte ↦
      let (h', same) = Goal-byte last q c p t plain.0 h byte in
      Iff-trans b same (glob_loop-Goal fuel p t last b plain.1 h' (rw (byte, glob_loop) at e))
  | inr other ↦ elim (Bool-cases (q == b'*')) [
    | inl y ↦ Iff-trans b (Goal-star last q p (c ∷ t) h y) (
        glob_loop-Goal fuel p (c ∷ t) (some (p, c ∷ t)) b plain (here, plain)
          (rw (other, y, glob_loop) at e))
    | inr n ↦
        resume-Goal last (q ∷ p) c t _ b h (λ m. other_byte n other m)
          (λ after from k. glob_loop-Goal fuel after from (some (after, from)) b k (here, k))
          (rw (other, n, glob_loop) at e)
  ]
]

-- What bounds the rounds from a state: a literal byte and a new star shorten the pattern, and going
-- back shortens the text of the last star.
measure : ℕ → Bytes → Bytes → Star → ℕ
measure n p t none = length p + (length t + 1) * (n + 1)
measure n p t (some (after, from)) = length p + length from * (n + 1)

-- The last star's pattern is within the whole one, and its text holds the text that is left.
abbrev IsWithin : ℕ → Bytes → Bytes → Star → Type 0
IsWithin n p t none = length p ≤ n
IsWithin n p t (some (after, from)) = (length p ≤ n) × (length after ≤ n) × (length t ≤ length from)

Ends : Option Bool → Type 0
Ends r = (b : Bool) × (r ≡ some b)

resume-Ends :
    (last : Star) (loop : Bytes → Bytes → Option Bool)
    → ((after : Bytes) (c : ℕ) (from : Bytes)
        → last ≡ some (after, c ∷ from)
        → Ends (loop after from))
    → Ends (resume last loop)
unfolding Ends
resume-Ends none loop k = (false, refl)
resume-Ends (some (after, [])) loop k = (false, refl)
resume-Ends (some (after, c ∷ from)) loop k = k after c from refl

mul_mono : (a b k : ℕ) → a ≤ b → a * k ≤ b * k
mul_mono a b k h = grind arith

-- One round each, with the loop shut: the measure falls and the bounds are kept.
byte_step :
    (n q c : ℕ) (p t : Bytes) (last : Star) (fuel : ℕ)
    → IsWithin n (q ∷ p) (c ∷ t) last
    → measure n (q ∷ p) (c ∷ t) last < suc fuel
    → IsWithin n p t last × (measure n p t last < fuel)
unfolding measure
byte_step n q c p t none fuel w h = (omega arith, omega arith)
byte_step n q c p t (some (after, from)) fuel w h = (omega arith, omega arith)

star_step :
    (n q : ℕ) (p t : Bytes) (last : Star) (fuel : ℕ)
    → IsWithin n (q ∷ p) t last
    → measure n (q ∷ p) t last < suc fuel
    → IsWithin n p t (some (p, t)) × (measure n p t (some (p, t)) < fuel)
unfolding measure
star_step n q p t none fuel w h = (omega arith, omega arith)
star_step n q p t (some (after, from)) fuel w h =
    (omega arith, omega (arith, mul_mono (length t) (length from) (n + 1) w.2))

resume_step :
    (n c : ℕ) (p t after from : Bytes) (last : Star) (fuel : ℕ)
    → last ≡ some (after, c ∷ from)
    → IsWithin n p t last
    → measure n p t last < suc fuel
    → IsWithin n after from (some (after, from))
      × (measure n after from (some (after, from)) < fuel)
resume_step n c p t after from last fuel e w h =
    go (subst (IsWithin n p t) e w) (subst (λ l. measure n p t l < suc fuel) e h)
  where
    go :
        IsWithin n p t (some (after, c ∷ from))
        → measure n p t (some (after, c ∷ from)) < suc fuel
        → IsWithin n after from (some (after, from))
          × (measure n after from (some (after, from)) < fuel)
    go w' h' = (omega arith, unfold measure in omega arith)

-- With more fuel than the measure the loop returns.
glob_loop-Ends :
    (fuel n : ℕ) (p t : Bytes) (last : Star)
    → IsWithin n p t last
    → measure n p t last < fuel
    → Ends (glob_loop fuel p t last)
unfolding glob_loop Ends
glob_loop-Ends zero n p t last w h = absurd (omega arith)
glob_loop-Ends (suc fuel) n p [] last w h = (only_stars p, refl)
glob_loop-Ends (suc fuel) n [] (c ∷ t) last w h = resume-Ends last _ (λ after d from e.
    let (w', h') = resume_step n d [] (c ∷ t) after from last fuel e w h in
    glob_loop-Ends fuel n after from (some (after, from)) w' h')
glob_loop-Ends (suc fuel) n (q ∷ p) (c ∷ t) last w h = elim (Bool-cases (matches_byte q c)) [
  | inl byte ↦
      let (w', h') = byte_step n q c p t last fuel w h in
      rw (byte, glob_loop) (glob_loop-Ends fuel n p t last w' h')
  | inr other ↦ elim (Bool-cases (q == b'*')) [
    | inl y ↦
        let (w', h') = star_step n q p (c ∷ t) last fuel w h in
        rw (other, y, glob_loop) (glob_loop-Ends fuel n p (c ∷ t) (some (p, c ∷ t)) w' h')
    | inr m ↦
        rw (other, m, glob_loop)
          (resume-Ends last _ (λ after d from e.
            let (w', h') = resume_step n d (q ∷ p) (c ∷ t) after from last fuel e w h in
            glob_loop-Ends fuel n after from (some (after, from)) w' h'))
  ]
]

-- The loop returns within `enough_fuel` rounds, whatever bytes the pattern and the text hold.
pub glob_loop_total :
    (pattern text : Bytes)
    → (b : Bool) × (glob_loop (enough_fuel pattern text) pattern text none ≡ some b)
unfolding Ends
glob_loop_total p t =
    glob_loop-Ends (enough_fuel p t) (length p) p t none (omega arith)
      (unfold measure in omega arith)

-- On a text with no `*`, `globMatch` accepts exactly the texts that the pattern stands for.
pub glob_match-Matches :
    (pattern text : Bytes)
    → All IsPlain text
    → (glob_match pattern text ≡ true) ↔ Matches pattern text
glob_match-Matches p t plain =
    let (b, e) = glob_loop_total p t in
    let same = glob_loop-Goal (enough_fuel p t) p t none b plain tt e in
    let run : glob_match p t ≡ b = unfold glob_match in rw e in rw run same

-- The pattern `*` stands for every text, and yet `globMatch` refuses each text of two bytes or more
-- that begins with `*`: the loop takes the star of the pattern for a literal byte.
pub glob_match_star :
    (c : ℕ) (text : Bytes)
    → Matches (b'*' ∷ []) (b'*' ∷ c ∷ text) × (glob_match (b'*' ∷ []) (b'*' ∷ c ∷ text) ≡ false)
unfolding glob_match glob_loop matches_byte
glob_match_star c text =
    let two : enough_fuel (b'*' ∷ []) (b'*' ∷ c ∷ text) ≡ suc (suc (2 * length text + 6)) =
      omega arith in
    (wild refl (Suffix-end (b'*' ∷ c ∷ text)) stop, rw two)
