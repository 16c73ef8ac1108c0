-- ===== src/Core/Text/Split.antt =====
-- `split` and `join` of Core/src/StringUtil.cpp are inverse to each other.
use vpn_client.Prelude.{
  ℕ, ◌==◌, false, List, [], ◌∷◌, ◌++◌, ◌≡◌, inl, inr, refl, ap, sym, ◌∙◌, All, Bytes, Bool-cases,
  append-nil, append_assoc, ==_refl, ==_iff,
}
use vpn_client.Core.Text.{split_loop, split, join}

-- The byte does not occur.
abbrev pub Lacks : ℕ → Bytes → Type 0
Lacks b = All (λ c. (c == b) ≡ false)

split_loop_cons :
    (d : ℕ) (text piece : Bytes)
    → (x : Bytes) × (xs : List Bytes) × (split_loop d false piece text ≡ x ∷ xs)
unfolding split_loop
split_loop_cons d [] piece = (piece, [], refl)
split_loop_cons d (c ∷ text) piece = elim (Bool-cases (c == d)) [
  | inl same ↦ (piece, split_loop d false [] text, rw (same, split_loop))
  | inr other ↦
      let (x, xs, e) = split_loop_cons d text (piece ++ c ∷ []) in (x, xs, rw (other, split_loop) e)
]

join_cons :
    (separator piece x : Bytes) (parts xs : List Bytes)
    → parts ≡ x ∷ xs
    → join (piece ∷ parts) separator ≡ piece ++ (separator ++ join parts separator)
unfolding join
join_cons separator piece x parts xs e = rw e

join-split_loop :
    (d : ℕ) (text piece : Bytes) → join (split_loop d false piece text) (d ∷ []) ≡ piece ++ text
unfolding split_loop
join-split_loop d [] piece = unfold join in refl
join-split_loop d (c ∷ text) piece = elim (Bool-cases (c == d)) [
  | inl same ↦
      let (x, xs, e) = split_loop_cons d text [] in
      rw (same, split_loop)
        (join_cons (d ∷ []) piece x (split_loop d false [] text) xs e
          ∙ ap (λ rest. piece ++ (d ∷ rest)) (join-split_loop d text [])
          ∙ ap (λ b. piece ++ (b ∷ text)) (sym ((==_iff c d).0 same)))
  | inr other ↦
      rw (other, split_loop)
        (join-split_loop d text (piece ++ c ∷ []) ∙ append_assoc piece (c ∷ []) text)
]

-- Joining the pieces of a split by the same delimiter gives the text back.
pub join-split : (d : ℕ) (text : Bytes) → join (split d false text) (d ∷ []) ≡ text
unfolding split
join-split d text = join-split_loop d text []

-- A piece with no delimiter is read up to its end.
split_loop_piece :
    (d : ℕ) (part piece rest : Bytes)
    → Lacks d part
    → split_loop d false piece (part ++ (d ∷ rest)) ≡ (piece ++ part) ∷ split_loop d false [] rest
unfolding split_loop
split_loop_piece d [] piece rest h = rw (==_refl d, split_loop, append-nil)
split_loop_piece d (c ∷ part) piece rest h =
    rw (h.0, split_loop)
      (split_loop_piece d part (piece ++ c ∷ []) rest h.1
        ∙ ap (λ x. x ∷ split_loop d false [] rest) (append_assoc piece (c ∷ []) part))

split_loop_last :
    (d : ℕ) (part piece : Bytes)
    → Lacks d part
    → split_loop d false piece part ≡ (piece ++ part) ∷ []
unfolding split_loop
split_loop_last d [] piece h = rw append-nil
split_loop_last d (c ∷ part) piece h =
    rw (h.0, split_loop)
      (split_loop_last d part (piece ++ c ∷ []) h.1
        ∙ ap (λ x. x ∷ []) (append_assoc piece (c ∷ []) part))

split_loop-join :
    (d : ℕ) (part : Bytes) (parts : List Bytes)
    → Lacks d part
    → All (Lacks d) parts
    → split_loop d false [] (join (part ∷ parts) (d ∷ [])) ≡ part ∷ parts
split_loop-join d part [] h k = unfold join in rw append-nil (split_loop_last d part [] h)
split_loop-join d part (next ∷ parts) h k =
    rw (join_cons (d ∷ []) part next (next ∷ parts) parts refl) (
      split_loop_piece d part [] (join (next ∷ parts) (d ∷ [])) h
      ∙ ap (◌∷◌ part) (split_loop-join d next parts k.0 k.1))

-- Splitting what was joined gives the parts back, if there is a part and none holds the delimiter.
pub split-join :
    (d : ℕ) (part : Bytes) (parts : List Bytes)
    → Lacks d part
    → All (Lacks d) parts
    → split d false (join (part ∷ parts) (d ∷ [])) ≡ part ∷ parts
unfolding split
split-join d part parts h k = split_loop-join d part parts h k
