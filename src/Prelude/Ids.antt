-- ===== src/Prelude/Ids.antt =====
-- Lists of ids: which occur, and that none does twice.
use mathlib.Core.Path.{◌≡◌}
use mathlib.Core.Logic.{◌⊎◌}
use mathlib.Core.List.{List, [], ◌∷◌}
use Prim.Native.Nat.{ℕ}

-- The id is one of the list.
abbrev pub Occurs : List ℕ → List (List ℕ) → Type 0
Occurs x [] = ⊥
Occurs x (y ∷ ys) = (x ≡ y) ⊎ Occurs x ys

-- No id occurs twice.
abbrev pub Distinct : List (List ℕ) → Type 0
Distinct [] = Unit
Distinct (x ∷ xs) = (¬ Occurs x xs) × Distinct xs
