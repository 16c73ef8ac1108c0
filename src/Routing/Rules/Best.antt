-- ===== src/Routing/Rules/Best.antt =====
-- The loop shared by `evaluateAddress`, `evaluateDomain` and `evaluateApplication` of
-- Routing/src/RoutingRules.cpp finds the first of the rules of the highest rank that match.
use vpn_client.Prelude.{
  ℕ, Bool, true, false, none, some, List, [], ◌∷◌, ◌++◌, ◌≡◌, ◌⊎◌, inl, inr, refl, ap, ◌∙◌, arith,
  All, ℤ, ltb, ◌==◌, ltb_ℤ, ◌&&◌, ◌||◌, Bool-cases,
}
use vpn_client.Routing.Rules.{beats, better, best_rule}

-- Rank against rank, on numbers alone.
abbrev outranks : ℕ → ℤ → ℕ → ℤ → Bool
outranks s p t q = ltb t s || (s == t && ltb_ℤ q p)

outranks_trans :
    (s t u : ℕ) (p q r : ℤ)
    → outranks s p t q ≡ true
    → outranks t q u r ≡ true
    → outranks s p u r ≡ true
outranks_trans s t u p q r h k = ground arith

outranks_weak :
    (s t u : ℕ) (p q r : ℤ)
    → outranks t q u r ≡ false
    → outranks s p u r ≡ true
    → outranks s p t q ≡ true
outranks_weak s t u p q r h k = ground arith

module _ {R : Type 0} (specificity : R → ℕ) (priority : R → ℤ) where
  beats_trans :
      (a b c : R)
      → beats specificity priority a b ≡ true
      → beats specificity priority b c ≡ true
      → beats specificity priority a c ≡ true
  unfolding beats
  beats_trans a b c =
      outranks_trans (specificity a) (specificity b) (specificity c) (priority a) (priority b)
        (priority c)

  beats_weak :
      (a b c : R)
      → beats specificity priority b c ≡ false
      → beats specificity priority a c ≡ true
      → beats specificity priority a b ≡ true
  unfolding beats
  beats_weak a b c =
      outranks_weak (specificity a) (specificity b) (specificity c) (priority a) (priority b)
        (priority c)

module _ {R : Type 0} (matches : R → Bool) (specificity : R → ℕ) (priority : R → ℤ) where
  -- A rule that matches has a lower rank than `rule`.
  abbrev pub Under : R → R → Type 0
  Under rule q = matches q ≡ true → beats specificity priority rule q ≡ true

  -- A rule that matches has no higher rank than `rule`.
  abbrev pub AtMost : R → R → Type 0
  AtMost rule q = matches q ≡ true → beats specificity priority q rule ≡ false

  -- `rule` is in the list and matches; a rule before it that matches has a lower rank, and one behind
  -- it that matches has no higher one.
  pub record IsChosen (rules : List R) (rule : R) : Type 0 where
    pub before : List R
    pub after : List R
    pub splits : rules ≡ before ++ (rule ∷ after)
    pub fits : matches rule ≡ true
    pub first : All (Under rule) before
    pub highest : All (AtMost rule) after

  -- What the loop makes of a current best and the rules that are left.
  record Over (best : R) (rules : List R) (rule : R) : Type 0 where
    found : best_rule matches specificity priority (some best) rules ≡ some rule
    higher : beats specificity priority rule best ≡ true
    is_best : IsChosen rules rule

  record Stays (best : R) (rules : List R) : Type 0 where
    found : best_rule matches specificity priority (some best) rules ≡ some best
    highest : All (AtMost best) rules

  abbrev Outcome : R → List R → Type 0
  Outcome best rules = Stays best rules ⊎ ((rule : R) × Over best rules rule)

  IsChosen-cons :
      (x rule : R) (rules : List R) → Under rule x → IsChosen rules rule → IsChosen (x ∷ rules) rule
  IsChosen-cons x rule rules u h = record {
    before = x ∷ h.before;
    after = h.after;
    splits = ap (◌∷◌ x) h.splits;
    fits = h.fits;
    first = (u, h.first);
    highest = h.highest;
  }

  IsChosen-here :
      (x : R) (rules : List R) → matches x ≡ true → All (AtMost x) rules → IsChosen (x ∷ rules) x
  IsChosen-here x rules m h = record {
    before = [];
    after = rules;
    splits = refl;
    fits = m;
    first = tt;
    highest = h;
  }

  -- The next rule does not become the best.
  Outcome-kept :
      (best x : R) (rules : List R)
      → best_rule matches specificity priority (some best) (x ∷ rules)
        ≡ best_rule matches specificity priority (some best) rules
      → (matches x ≡ true → beats specificity priority x best ≡ false)
      → Outcome best rules
      → Outcome best (x ∷ rules)
  Outcome-kept best x rules e low (inl s) =
      inl (record { found = e ∙ s.found; highest = (low, s.highest) })
  Outcome-kept best x rules e low (inr (rule, o)) = inr (
    rule,
    record {
      found = e ∙ o.found;
      higher = o.higher;
      is_best =
          IsChosen-cons x rule rules
            (λ m. beats_weak specificity priority rule x best (low m) o.higher) o.is_best;
    },
  )

  -- The next rule becomes the best.
  Outcome-new :
      (best x : R) (rules : List R)
      → best_rule matches specificity priority (some best) (x ∷ rules)
        ≡ best_rule matches specificity priority (some x) rules
      → matches x ≡ true
      → beats specificity priority x best ≡ true
      → Outcome x rules
      → Outcome best (x ∷ rules)
  Outcome-new best x rules e m high (inl s) = inr (
    x,
    record { found = e ∙ s.found; higher = high; is_best = IsChosen-here x rules m s.highest },
  )
  Outcome-new best x rules e m high (inr (rule, o)) = inr (
    rule,
    record {
      found = e ∙ o.found;
      higher = beats_trans specificity priority rule x best o.higher high;
      is_best = IsChosen-cons x rule rules (λ _. o.higher) o.is_best;
    },
  )

  best_rule-Outcome : (best : R) (rules : List R) → Outcome best rules
  unfolding best_rule
  best_rule-Outcome best [] = inl (record { found = refl; highest = tt })
  best_rule-Outcome best (x ∷ rules) = elim (Bool-cases (matches x)) [
    | inr n ↦
        Outcome-kept best x rules (rw (n, best_rule)) (λ m. absurd (cc))
          (best_rule-Outcome best rules)
    | inl m ↦ elim (Bool-cases (beats specificity priority x best)) [
      | inl high ↦
          Outcome-new best x rules (unfold better in rw (m, high, best_rule)) m high
            (best_rule-Outcome x rules)
      | inr low ↦
          Outcome-kept best x rules (unfold better in rw (m, low, best_rule)) (λ _. low)
            (best_rule-Outcome best rules)
    ]
  ]

  -- The loop ends with no rule exactly if none matches, and else with the first matching rule of the
  -- highest rank.
  pub best_rule-IsChosen :
      (rules : List R)
      → ((best_rule matches specificity priority none rules ≡ none)
          × All (λ q. matches q ≡ false) rules)
        ⊎ ((rule : R) × (best_rule matches specificity priority none rules ≡ some rule)
            × IsChosen rules rule)
  unfolding best_rule
  best_rule-IsChosen [] = inl (refl, tt)
  best_rule-IsChosen (x ∷ rules) = elim (Bool-cases (matches x)) [
    | inr n ↦ elim (best_rule-IsChosen rules) [
      | inl (e, all) ↦ inl (rw (n, best_rule) e, (n, all))
      | inr (rule, e, h) ↦
          inr (rule, rw (n, best_rule) e, IsChosen-cons x rule rules (λ m. absurd (cc)) h)
    ]
    | inl m ↦ elim (best_rule-Outcome x rules) [
      | inl s ↦ inr (x, rw (m, best_rule, better) s.found, IsChosen-here x rules m s.highest)
      | inr (rule, o) ↦ inr (
        rule,
        rw (m, best_rule, better) o.found,
        IsChosen-cons x rule rules (λ _. o.higher) o.is_best,
      )
    ]
  ]
