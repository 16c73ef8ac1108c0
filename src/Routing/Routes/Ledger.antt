-- ===== src/Routing/Routes/Ledger.antt =====
-- `std::unordered_map<std::string, A>` as the list of its entries, whose order is that of the iteration. A
-- new entry comes last here; the source leaves its place open.
use vpn_client.Prelude.{
  if◌then◌else◌, Option, none, some, List, [], ◌∷◌, ◌≡◌, refl, Bytes, equal, equal_refl, Bool-cases,
  inl, inr,
}

module _ {A : Type 0} where
  unfoldable pub put : Bytes → A → List (Bytes × A) → List (Bytes × A)
  put key a [] = (key, a) ∷ []
  put key a ((k, b) ∷ rest) =
      let others = put key a rest in if equal k key then (key, a) ∷ rest else (k, b) ∷ others

  unfoldable pub erase : Bytes → List (Bytes × A) → List (Bytes × A)
  erase key [] = []
  erase key ((k, b) ∷ rest) =
      let others = erase key rest in if equal k key then others else (k, b) ∷ others

  unfoldable pub find : Bytes → List (Bytes × A) → Option A
  find key [] = none
  find key ((k, b) ∷ rest) = let other = find key rest in if equal k key then some b else other

  -- What is put is found under its key.
  pub find-put :
      (key : Bytes) (a : A) (entries : List (Bytes × A)) → find key (put key a entries) ≡ some a
  unfolding find put
  find-put key a [] = rw (equal_refl key, find) refl
  find-put key a ((k, b) ∷ rest) = elim (Bool-cases (equal k key)) [
    | inl same ↦ rw (same, put) (rw (equal_refl key, find) refl)
    | inr other ↦ rw (other, put) (rw (other, find) (find-put key a rest))
  ]
