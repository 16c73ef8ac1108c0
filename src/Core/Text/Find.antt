-- ===== src/Core/Text/Find.antt =====
-- The searches for a byte in Core/src/StringUtil.cpp's callers.
use vpn_client.Prelude.{
  ℕ, ◌==◌, true, false, none, some, [], ◌∷◌, ◌++◌, ◌≡◌, ◌⊎◌, inl, inr, refl, ap, All, Bytes,
  Bool-cases, ==_refl, ==_iff,
}
use vpn_client.Core.Text.{find_byte, trim, is_space}
use vpn_client.Core.Text.Split.{Lacks}
use vpn_client.Core.Text.Trim.{starts_clean, ends_clean, trim_clean}

pub find_byte-none : (b : ℕ) (text : Bytes) → Lacks b text → find_byte b text ≡ none
unfolding find_byte
find_byte-none b [] h = refl
find_byte-none b (c ∷ text) h = rw (h.0, find_byte, find_byte-none b text h.1)

pub find_byte-some :
    (b : ℕ) (before after : Bytes)
    → Lacks b before
    → find_byte b (before ++ (b ∷ after)) ≡ some (before, after)
unfolding find_byte
find_byte-some b [] after h = rw (==_refl b)
find_byte-some b (c ∷ before) after h = rw (h.0, find_byte, find_byte-some b before after h.1)

-- What a search finds: the text around the byte, which does not stand before it.
pub record Hit (b : ℕ) (text : Bytes) : Type 0 where
  pub before : Bytes
  pub after : Bytes
  pub found : find_byte b text ≡ some (before, after)
  pub splits : text ≡ before ++ (b ∷ after)
  pub lacks : Lacks b before

pub find_byte_cases :
    (b : ℕ) (text : Bytes) → (Lacks b text × (find_byte b text ≡ none)) ⊎ Hit b text
unfolding find_byte
find_byte_cases b [] = inl (tt, refl)
find_byte_cases b (c ∷ text) = elim (Bool-cases (c == b)) [
  | inl same ↦ inr (record {
    before = [];
    after = text;
    found = rw (same, find_byte);
    splits = ap (λ x. x ∷ text) ((==_iff c b).0 same);
    lacks = tt;
  })
  | inr other ↦ elim (find_byte_cases b text) [
    | inl (l, e) ↦ inl ((other, l), rw (other, find_byte, e))
    | inr h ↦ inr (record {
      before = c ∷ h.before;
      after = h.after;
      found = rw (other, find_byte, h.found);
      splits = ap (◌∷◌ c) h.splits;
      lacks = (other, h.lacks);
    })
  ]
]

-- Bytes that are no spaces are left alone by `trim`.
abbrev pub NoSpace : Bytes → Type 0
NoSpace = All (λ c. is_space c ≡ false)

NoSpace-ends : (text : Bytes) → NoSpace text → ends_clean text ≡ true
NoSpace-ends [] h = refl
NoSpace-ends (c ∷ []) h = rw h.0
NoSpace-ends (c ∷ d ∷ text) h = NoSpace-ends (d ∷ text) h.1

NoSpace-starts : (text : Bytes) → NoSpace text → starts_clean text ≡ true
NoSpace-starts [] h = refl
NoSpace-starts (c ∷ text) h = rw h.0

pub trim-NoSpace : (text : Bytes) → NoSpace text → trim text ≡ text
trim-NoSpace text h = trim_clean text (NoSpace-starts text h) (NoSpace-ends text h)
