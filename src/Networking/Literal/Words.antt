-- ===== src/Networking/Literal/Words.antt =====
-- The loop of `parseV6` of Networking/src/IpAddress.cpp keeps to its arrays of eight 16-bit words.
use vpn_client.Prelude.{
  ℕ, zero, suc, ◌+◌, ◌*◌, ◌≤◌, ◌<◌, Bool, true, false, ◌||◌, ltb, ◌==◌, if◌then◌else◌, is_empty,
  Option, none, some, List, [], ◌∷◌, ◌++◌, ◌≡◌, inl, inr, refl, arith, All, All-append, Bytes,
  length, length-append, Bool-cases, Option-cases, subst,
}
use vpn_client.Core.Text.{nibble, find_byte}
use vpn_client.Networking.Literal.{
  ◌>>=◌, refuse_if, hextet_value, parse_hextet, V6State, push_words, v4_words, has_dot, push_hextet,
  v6_loop, v6_start, v6_begin, v6_run, parse_v4,
}
use vpn_client.Networking.Literal.V4.{IsV4, parse_v4-Written}

pub bind_some :
    {A B : Type 0} (m : Option A) (f : A → Option B) {b : B}
    → (m >>= f) ≡ some b
    → (a : A) × (m ≡ some a) × (f a ≡ some b)
bind_some (some a) f h = (a, refl, h)
bind_some none f h = cc

refuse_if-some : (b : Bool) {u : Unit {0}} → refuse_if b ≡ some u → b ≡ false
refuse_if-some true h = cc
refuse_if-some false h = refl

nibble_bound : (c n : ℕ) → nibble c ≡ some n → n < 16
unfolding nibble
nibble_bound c n h = ground arith

-- A 16-bit word.
abbrev pub IsWord : ℕ → Type 0
IsWord w = w < 65536

-- What `k` hexadecimal digits make of a bound.
grow : ℕ → ℕ → ℕ
grow zero bound = bound
grow (suc k) bound = grow k (bound * 16)

grow_above : (k bound v : ℕ) → v < bound → v < grow k bound
unfolding grow
grow_above zero bound v h = h
grow_above (suc k) bound v h = grow_above k (bound * 16) v (omega arith)

hextet_value_bound :
    (k bound v : ℕ) (text : Bytes) {n : ℕ}
    → v < bound
    → length text ≤ k
    → hextet_value v text ≡ some n
    → n < grow k bound
unfolding hextet_value grow
hextet_value_bound k bound v [] {n} h fits e =
    let same : v ≡ n = cc e in grow_above k bound n (omega arith)
hextet_value_bound zero bound v (c ∷ text) h fits e = absurd (omega arith)
hextet_value_bound (suc k) bound v (c ∷ text) h fits e =
    let (d, reads, rest) = bind_some (nibble c) (λ d. hextet_value (v * 16 + d) text) e in
    let low = nibble_bound c d reads in
    hextet_value_bound k (bound * 16) (v * 16 + d) text (omega arith) (omega arith) rest

parse_hextet-IsWord : (text : Bytes) {n : ℕ} → parse_hextet text ≡ some n → IsWord n
unfolding parse_hextet grow
parse_hextet-IsWord text e =
    let (u, ok, reads) =
      bind_some (refuse_if (is_empty text || ltb 4 (length text))) (λ _. hextet_value 0 text) e in
    let fine = refuse_if-some (is_empty text || ltb 4 (length text)) ok in
    hextet_value_bound 4 1 0 text (omega arith) (ground arith) reads

-- The words read so far, none more than eight on either side.
pub record IsFilled (s : V6State) : Type 0 where
  pub heads : All IsWord s.head
  pub tails : All IsWord s.tail
  pub heads_fit : length s.head ≤ 8
  pub tails_fit : length s.tail ≤ 8

push_words-IsFilled :
    (words : List ℕ) (s : V6State) {u : V6State}
    → All IsWord words
    → IsFilled s
    → push_words words s ≡ some u
    → IsFilled u
unfolding push_words
push_words-IsFilled words s {u} w h = go s.in_tail refl
  where
    go : (b : Bool) → s.in_tail ≡ b → push_words words s ≡ some u → IsFilled u
    go true side =
        rw (side, push_words)
          (λ e.
            let (x, ok, is) = bind_some (refuse_if (ltb 8 (length s.tail + length words))) _ e in
            let fits = refuse_if-some (ltb 8 (length s.tail + length words)) ok in
            let same : record s { tail = s.tail ++ words; in_tail = true } ≡ u = cc is in
            let size = length-append s.tail words in
            subst IsFilled same (record {
              heads = h.heads;
              tails = All-append IsWord s.tail words h.tails w;
              heads_fit = h.heads_fit;
              tails_fit = ground arith;
            }))
    go false side =
        rw (side, push_words)
          (λ e.
            let (x, ok, is) = bind_some (refuse_if (ltb 8 (length s.head + length words))) _ e in
            let fits = refuse_if-some (ltb 8 (length s.head + length words)) ok in
            let same : record s { head = s.head ++ words; in_tail = false } ≡ u = cc is in
            let size = length-append s.head words in
            subst IsFilled same (record {
              heads = All-append IsWord s.head words h.heads w;
              tails = h.tails;
              heads_fit = ground arith;
              tails_fit = h.tails_fit;
            }))

push_hextet-IsFilled :
    (piece : Bytes) (s : V6State) {u : V6State}
    → IsFilled s
    → push_hextet piece s ≡ some u
    → IsFilled u
unfolding push_hextet
push_hextet-IsFilled piece s h e =
    let (value, reads, pushed) =
      bind_some (parse_hextet piece) (λ value. push_words (value ∷ []) s) e in
    push_words-IsFilled (value ∷ []) s (parse_hextet-IsWord piece reads, tt) h pushed

v4_words-IsWord : (b : Bytes) → IsV4 b → All IsWord (v4_words b)
v4_words-IsWord [] h = absurd (omega (arith, h.0))
v4_words-IsWord (x ∷ []) h = absurd (omega (arith, h.0))
v4_words-IsWord (x ∷ y ∷ []) h = absurd (omega (arith, h.0))
v4_words-IsWord (x ∷ y ∷ z ∷ []) h = absurd (omega (arith, h.0))
v4_words-IsWord (x ∷ y ∷ z ∷ w ∷ b) (size, (bx, (by, (bz, (bw, rest))))) =
    (omega arith, (omega arith, tt))

push_v4-IsFilled :
    (text : Bytes) (s : V6State) {u : V6State}
    → IsFilled s
    → (parse_v4 text >>= λ v4. push_words (v4_words v4) s) ≡ some u
    → IsFilled u
push_v4-IsFilled text s h e =
    let (v4, reads, pushed) = bind_some (parse_v4 text) (λ v4. push_words (v4_words v4) s) e in
    push_words-IsFilled (v4_words v4) s (v4_words-IsWord v4 (parse_v4-Written text v4 reads).0) h
      pushed

moved : (s : V6State) → IsFilled s → IsFilled (record s { in_tail = true })
moved s h = record {
  heads = h.heads;
  tails = h.tails;
  heads_fit = h.heads_fit;
  tails_fit = h.tails_fit;
}

v6_loop-IsFilled :
    (fuel : ℕ) (text : Bytes) (s : V6State) {u : V6State}
    → IsFilled s
    → v6_loop fuel text s ≡ some u
    → IsFilled u
unfolding v6_loop
v6_loop-IsFilled zero text s h = λ e. absurd (cc e)
v6_loop-IsFilled (suc fuel) text s {u} h = elim (Option-cases (find_byte b':' text)) [
  | inl last ↦ elim (Bool-cases (has_dot text)) [
    | inl dotted ↦ rw (last, dotted, v6_loop) (λ e. push_v4-IsFilled text s h e)
    | inr plain ↦ rw (last, plain, v6_loop) (λ e. push_hextet-IsFilled text s h e)
  ]
  | inr ((piece, after), found) ↦ elim (Bool-cases (has_dot piece)) [
    | inl dotted ↦ rw (found, dotted, v6_loop) (λ e. absurd (cc e))
    | inr plain ↦
        rw (found, plain, v6_loop)
          (pick (λ rest s' k e. v6_loop-IsFilled fuel rest s' k e) (is_empty piece) piece after)
  ]
]
  where
    cross :
        (again : (after : Bytes) (s' : V6State)
          → IsFilled s'
          → v6_loop fuel after s' ≡ some u
          → IsFilled u)
        (b : Bool) (after : Bytes)
        → (if b then none else elim (is_empty after) [
          | true ↦ some (record s { in_tail = true })
          | false ↦ v6_loop fuel after (record s { in_tail = true })
        ])
          ≡ some u
        → IsFilled u
    cross again true after e = absurd (cc e)
    cross again false [] e =
        let same : record s { in_tail = true } ≡ u = cc e in subst IsFilled same (moved s h)
    cross again false (c ∷ after) e = again (c ∷ after) (record s { in_tail = true }) (moved s h) e

    pick :
        (again : (after : Bytes) (s' : V6State)
          → IsFilled s'
          → v6_loop fuel after s' ≡ some u
          → IsFilled u)
        (b : Bool) (piece after : Bytes)
        → (if b
            then (if s.in_tail then none else elim (is_empty after) [
              | true ↦ some (record s { in_tail = true })
              | false ↦ v6_loop fuel after (record s { in_tail = true })
            ])
            else (push_hextet piece s >>= λ s'.
                refuse_if (is_empty after) >>= λ _. v6_loop fuel after s'))
          ≡ some u
        → IsFilled u
    pick again true piece after e = cross again s.in_tail after e
    pick again false piece after e =
        let (s', pushed, rest) =
          bind_some (push_hextet piece s)
            (λ s'. refuse_if (is_empty after) >>= λ _. v6_loop fuel after s') e in
        let (x, ok, loops) =
          bind_some (refuse_if (is_empty after)) (λ _. v6_loop fuel after s') rest in
        again after s' (push_hextet-IsFilled piece s h pushed) loops

pub v6_run-IsFilled :
    (text : Bytes) (s : V6State) {u : V6State} → IsFilled s → v6_run text s ≡ some u → IsFilled u
v6_run-IsFilled [] s {u} h e = let same : s ≡ u = cc e in subst IsFilled same h
v6_run-IsFilled (c ∷ text) s h e = v6_loop-IsFilled (suc (length text)) (c ∷ text) s h e

pub v6_begin-IsFilled :
    (text : Bytes) {from : Bytes} {s : V6State} → v6_begin text ≡ some (from, s) → IsFilled s
unfolding v6_begin
v6_begin-IsFilled [] = λ e. absurd (cc e)
v6_begin-IsFilled (c ∷ []) = λ e. absurd (cc e)
v6_begin-IsFilled (c ∷ d ∷ text) {from} {s} = go (c == b':') (d == b':')
  where
    empty : (b : Bool) → IsFilled (record v6_start { in_tail = b })
    empty b = record { heads = tt; tails = tt; heads_fit = omega arith; tails_fit = omega arith }

    begun : (x y : Bool) → Option (Bytes × V6State)
    begun x y =
        if x
        then (if y then some (text, record v6_start { in_tail = true }) else none)
        else some (c ∷ d ∷ text, v6_start)

    go : (x y : Bool) → begun x y ≡ some (from, s) → IsFilled s
    go true true e =
        let same : record v6_start { in_tail = true } ≡ s = cc e in subst IsFilled same (empty true)
    go true false e = absurd (cc e)
    go false y e = let same : v6_start ≡ s = cc e in subst IsFilled same (empty false)
