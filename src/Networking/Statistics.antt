-- ===== src/Networking/Statistics.antt =====
-- Networking/include/NovaVPN/Networking/Statistics.h and Networking/src/Statistics.cpp.
use vpn_client.Prelude.{
  ℕ, suc, ◌+◌, ◌-◌, ◌*◌, leb, ltb, ◌==◌, if◌then◌else◌, List, [], ◌∷◌, ◌++◌, length, drop,
  length-append, length-drop, length-take, take, take-append-drop, append_assoc, append-nil, ◌≡◌,
  refl, ap, sym, ◌∙◌, arith, Bool-cases, inl, inr,
}

pub record TrafficCounters : Type 0 where
  pub bytes_sent : ℕ
  pub bytes_received : ℕ
  pub packets_sent : ℕ
  pub packets_received : ℕ
  pub packets_dropped : ℕ
  pub wire_bytes_sent : ℕ
  pub wire_bytes_received : ℕ

-- A rate, a `double` in the source, as the fraction that it is computed from: an amount for an
-- interval in milliseconds, 0 for 1 where the source leaves 0.0.
pub record Rate : Type 0 where
  pub amount : ℕ
  pub per : ℕ

pub record TrafficRates : Type 0 where
  pub bits_per_second_up : Rate
  pub bits_per_second_down : Rate
  pub packets_per_second_up : Rate
  pub packets_per_second_down : Rate

unfoldable pub delta : ℕ → ℕ → ℕ
delta previous current = if leb previous current then current - previous else 0

abbrev zero_rate : Rate
zero_rate = record { amount = 0; per = 1 }

-- No rate.
abbrev pub no_rates : TrafficRates
no_rates = record {
  bits_per_second_up = zero_rate;
  bits_per_second_down = zero_rate;
  packets_per_second_up = zero_rate;
  packets_per_second_down = zero_rate;
}

-- The interval, in milliseconds, is that of a clock that does not go back.
unfoldable pub compute_rates : TrafficCounters → TrafficCounters → ℕ → TrafficRates
unfolding delta
compute_rates previous current interval = if interval == 0 then no_rates else record {
  bits_per_second_up = record {
    amount = delta previous.bytes_sent current.bytes_sent * 8 * 1000;
    per = interval;
  };
  bits_per_second_down = record {
    amount = delta previous.bytes_received current.bytes_received * 8 * 1000;
    per = interval;
  };
  packets_per_second_up = record {
    amount = delta previous.packets_sent current.packets_sent * 1000;
    per = interval;
  };
  packets_per_second_down = record {
    amount = delta previous.packets_received current.packets_received * 1000;
    per = interval;
  };
}

pub record StatisticsSample : Type 0 where
  pub timestamp : ℕ
  pub counters : TrafficCounters
  pub rates : TrafficRates

-- `SampleWindow`, for samples of any type.
pub record SampleWindow (A : Type 0) : Type 0 where
  pub capacity : ℕ
  pub samples : List A

module _ {A : Type 0} where
  unfoldable pub make_window : ℕ → SampleWindow A
  make_window capacity = record { capacity = if capacity == 0 then 1 else capacity; samples = [] }

  -- `while (m_samples.size() > m_capacity) m_samples.pop_front();`
  pop_front_to : ℕ → List A → List A
  pop_front_to capacity [] = []
  pop_front_to capacity (x ∷ xs) =
      let rest = pop_front_to capacity xs in if ltb capacity (suc (length xs)) then rest else x ∷ xs

  unfoldable pub push : A → SampleWindow A → SampleWindow A
  unfolding pop_front_to
  push sample w = record w { samples = pop_front_to w.capacity (w.samples ++ sample ∷ []) }

  -- Samples pushed one after the other.
  unfoldable pub push_all : List A → SampleWindow A → SampleWindow A
  push_all [] w = w
  push_all (x ∷ xs) w = push_all xs (push x w)

  -- The last `n` elements.
  abbrev pub latest : ℕ → List A → List A
  latest n xs = drop (length xs - n) xs

  pop_front_to-latest : (n : ℕ) (xs : List A) → pop_front_to n xs ≡ latest n xs
  unfolding pop_front_to
  pop_front_to-latest n [] = let z : 0 - n ≡ 0 = omega arith in rw z
  pop_front_to-latest n (x ∷ xs) = elim (Bool-cases (ltb n (suc (length xs)))) [
    | inl more ↦
        let k : suc (length xs) - n ≡ suc (length xs - n) = ground arith in
        rw (more, k) (pop_front_to-latest n xs)
    | inr fits ↦ let k : suc (length xs) - n ≡ 0 = ground arith in rw (fits, k)
  ]

  drop-append : (xs ys : List A) (j : ℕ) → drop (length xs + j) (xs ++ ys) ≡ drop j ys
  drop-append [] ys j = let z : 0 + j ≡ j = omega arith in rw z
  drop-append (x ∷ xs) ys j =
      let s : suc (length xs) + j ≡ suc (length xs + j) = omega arith in rw s (drop-append xs ys j)

  -- Dropping old samples before a push makes no difference to the last ones after it.
  latest-append :
      (n : ℕ) (ys : List A) (x : A) → latest n (latest n ys ++ x ∷ []) ≡ latest n (ys ++ x ∷ [])
  latest-append n ys x =
      let k = length ys - n in
      let zs = drop k ys ++ x ∷ [] in
      let whole : take k ys ++ zs ≡ ys ++ x ∷ [] =
        sym (append_assoc (take k ys) (drop k ys) (x ∷ []))
        ∙ ap (λ l. l ++ x ∷ []) (take-append-drop k ys) in
      let a = length-append (drop k ys) (x ∷ []) in
      let b = length-append ys (x ∷ []) in
      let c = length-drop k ys in
      let d = length-take k ys in
      let at : length (ys ++ x ∷ []) - n ≡ length (take k ys) + (length zs - n) = omega arith in
      sym (drop-append (take k ys) zs (length zs - n))
      ∙ ap (λ l. drop (length (take k ys) + (length zs - n)) l) whole
      ∙ ap (λ (i : ℕ). drop i (ys ++ x ∷ [])) (sym at)

  push_all-latest :
      (n : ℕ) (xs ys : List A) (w : SampleWindow A)
      → w.capacity ≡ n
      → w.samples ≡ latest n ys
      → (push_all xs w).samples ≡ latest n (ys ++ xs)
  unfolding push_all
  push_all-latest n [] ys w c s = s ∙ ap (latest n) (sym (append-nil ys))
  push_all-latest n (x ∷ xs) ys w c s =
      push_all-latest n xs (ys ++ x ∷ []) (push x w) (unfold push in c) (
        unfold push in
        pop_front_to-latest w.capacity (w.samples ++ x ∷ [])
        ∙ ap (λ m. latest m (w.samples ++ x ∷ [])) c
        ∙ ap (λ l. latest n (l ++ x ∷ [])) s
        ∙ latest-append n ys x)
      ∙ ap (latest n) (append_assoc ys (x ∷ []) xs)

  -- A window of capacity `c` holds the last `c` of the samples pushed into it, in their order, and one
  -- sample if `c` is 0.
  pub push_all-make_window :
      (c : ℕ) (xs : List A)
      → (push_all xs (make_window c)).samples ≡ latest (if c == 0 then 1 else c) xs
  push_all-make_window c xs =
      push_all-latest (if c == 0 then 1 else c) xs [] (make_window c) (unfold make_window in refl)
        (unfold make_window in none_yet (if c == 0 then 1 else c))
    where
      none_yet : (n : ℕ) → [] ≡ latest n []
      none_yet n = let z : 0 - n ≡ 0 = omega arith in rw z
