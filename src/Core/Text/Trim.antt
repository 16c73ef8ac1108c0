-- ===== src/Core/Text/Trim.antt =====
-- What `trim` of Core/src/StringUtil.cpp removes and what it keeps.
use vpn_client.Prelude.{
  ℕ, Bool, true, false, ◌&&◌, not, [], ◌∷◌, ◌++◌, ◌≡◌, inl, inr, refl, ap, ◌∙◌, arith, All, Bytes,
  Bool-cases, is_empty,
}
use vpn_client.Core.Text.{is_space, trim_left, trim_right, trim}

abbrev pub IsSpace : ℕ → Type 0
IsSpace c = is_space c ≡ true

-- Neither the first nor the last byte is a space.
abbrev pub starts_clean : Bytes → Bool
starts_clean [] = true
starts_clean (c ∷ text) = not (is_space c)

abbrev pub ends_clean : Bytes → Bool
ends_clean [] = true
ends_clean (c ∷ []) = not (is_space c)
ends_clean (c ∷ d ∷ text) = ends_clean (d ∷ text)

-- `text` is `core` between two runs of spaces.
pub record TrimsTo (text core : Bytes) : Type 0 where
  pub left : Bytes
  pub right : Bytes
  pub splits : text ≡ left ++ (core ++ right)
  pub left_spaces : All IsSpace left
  pub right_spaces : All IsSpace right

record LeftPart (text : Bytes) : Type 0 where
  left : Bytes
  splits : text ≡ left ++ trim_left text
  spaces : All IsSpace left

trim_left-LeftPart : (text : Bytes) → LeftPart text
unfolding trim_left
trim_left-LeftPart [] = record { left = []; splits = refl; spaces = tt }
trim_left-LeftPart (c ∷ text) = elim (Bool-cases (is_space c)) [
  | inl space ↦
      let h = trim_left-LeftPart text in
      record {
        left = c ∷ h.left;
        splits = rw space (ap (◌∷◌ c) h.splits);
        spaces = (space, h.spaces);
      }
  | inr other ↦ record { left = []; splits = rw other; spaces = tt }
]

starts_clean-trim_left : (text : Bytes) → starts_clean (trim_left text) ≡ true
unfolding trim_left
starts_clean-trim_left [] = refl
starts_clean-trim_left (c ∷ text) = elim (Bool-cases (is_space c)) [
  | inl space ↦ rw space (starts_clean-trim_left text)
  | inr other ↦ rw other (rw other)
]

record RightPart (text : Bytes) : Type 0 where
  right : Bytes
  splits : text ≡ trim_right text ++ right
  spaces : All IsSpace right

is_empty-nil : (xs : Bytes) → is_empty xs ≡ true → xs ≡ []
is_empty-nil [] h = refl
is_empty-nil (x ∷ xs) h = cc

trim_right-RightPart : (text : Bytes) → RightPart text
unfolding trim_right
trim_right-RightPart [] = record { right = []; splits = refl; spaces = tt }
trim_right-RightPart (c ∷ text) =
    let h = trim_right-RightPart text in
    elim (Bool-cases (is_empty (trim_right text) && is_space c)) [
      | inl drops ↦
          let none_left = is_empty-nil (trim_right text) (ground arith) in
          let space : IsSpace c = ground arith in
          record {
            right = c ∷ h.right;
            splits = rw drops (ap (◌∷◌ c) (h.splits ∙ ap (λ xs. xs ++ h.right) none_left));
            spaces = (space, h.spaces);
          }
      | inr keeps ↦ record {
        right = h.right;
        splits = rw keeps (ap (◌∷◌ c) h.splits);
        spaces = h.spaces;
      }
    ]

ends_clean-cons :
    (c : ℕ) (rest : Bytes)
    → (is_empty rest && is_space c) ≡ false
    → ends_clean rest ≡ true
    → ends_clean (c ∷ rest) ≡ true
ends_clean-cons c [] keeps h = ground arith
ends_clean-cons c (d ∷ rest) keeps h = h

ends_clean-trim_right : (text : Bytes) → ends_clean (trim_right text) ≡ true
unfolding trim_right
ends_clean-trim_right [] = refl
ends_clean-trim_right (c ∷ text) = elim (Bool-cases (is_empty (trim_right text) && is_space c)) [
  | inl drops ↦ rw drops
  | inr keeps ↦ rw keeps (ends_clean-cons c (trim_right text) keeps (ends_clean-trim_right text))
]

starts_clean-trim_right :
    (text : Bytes) → starts_clean text ≡ true → starts_clean (trim_right text) ≡ true
unfolding trim_right
starts_clean-trim_right [] h = refl
starts_clean-trim_right (c ∷ text) h = ground arith

-- `trim` takes a run of spaces off either end and nothing else: what is left is the middle of the
-- text, and neither begins nor ends with a space.
pub trim-TrimsTo :
    (text : Bytes)
    → TrimsTo text (trim text) × (starts_clean (trim text) ≡ true) × (ends_clean (trim text) ≡ true)
unfolding trim
trim-TrimsTo text =
    let l = trim_left-LeftPart text in
    let r = trim_right-RightPart (trim_left text) in
    (
      record {
        left = l.left;
        right = r.right;
        splits = l.splits ∙ ap (◌++◌ l.left) r.splits;
        left_spaces = l.spaces;
        right_spaces = r.spaces;
      },
      starts_clean-trim_right (trim_left text) (starts_clean-trim_left text),
      ends_clean-trim_right (trim_left text),
    )

trim_left_clean : (text : Bytes) → starts_clean text ≡ true → trim_left text ≡ text
unfolding trim_left
trim_left_clean [] h = refl
trim_left_clean (c ∷ text) h = ground arith

trim_right_keeps :
    (c d : ℕ) (text rest : Bytes)
    → trim_right text ≡ d ∷ rest
    → trim_right (c ∷ text) ≡ c ∷ d ∷ rest
unfolding trim_right
trim_right_keeps c d text rest e = rw e

trim_right_clean : (text : Bytes) → ends_clean text ≡ true → trim_right text ≡ text
unfolding trim_right
trim_right_clean [] h = refl
trim_right_clean (c ∷ []) h = ground arith
trim_right_clean (c ∷ d ∷ text) h =
    trim_right_keeps c d (d ∷ text) text (trim_right_clean (d ∷ text) h)

-- A text with no space at either end is left alone.
pub trim_clean :
    (text : Bytes) → starts_clean text ≡ true → ends_clean text ≡ true → trim text ≡ text
unfolding trim
trim_clean text s e = ap trim_right (trim_left_clean text s) ∙ trim_right_clean text e
