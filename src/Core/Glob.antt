-- ===== src/Core/Glob.antt =====
-- `globMatchImpl` of Core/src/StringUtil.cpp. The positions `p` and `t` are the suffixes of the
-- pattern and the text that are still to be read; `starP + 1` and `starT` are such suffixes too.
pub mod Matches
pub mod Correct
use vpn_client.Prelude.{
  ℕ, zero, suc, ◌+◌, ◌*◌, Bool, true, false, ◌&&◌, ◌||◌, ◌==◌, if◌then◌else◌, is_empty, Option,
  none, some, [], ◌∷◌, length, Bytes,
}
use vpn_client.Core.Text.{ascii_lower}

-- The first test of the loop: a literal byte, or `?`.
unfoldable pub matches_byte : ℕ → ℕ → Bool
unfolding ascii_lower
matches_byte p c = p == b'?' || ascii_lower p == ascii_lower c

-- The last star that was passed: the pattern behind it, and the text from which it was tried.
abbrev pub Star : Type 0
Star = Option (Bytes × Bytes)

-- The loop behind the main one, and the final test.
pub only_stars : Bytes → Bool
only_stars [] = true
only_stars (p ∷ pattern) = p == b'*' && only_stars pattern

-- `p = starP + 1; t = ++starT` where a star was passed, `return false` where none was.
abbrev pub resume : Star → (Bytes → Bytes → Option Bool) → Option Bool
resume none loop = some false
resume (some (after, [])) loop = some false
resume (some (after, c ∷ from)) loop = loop after from

-- The main loop on fuel. `none`: the fuel ran out.
pub glob_loop : ℕ → Bytes → Bytes → Star → Option Bool
unfolding matches_byte only_stars
glob_loop zero pattern text star = none
glob_loop (suc fuel) pattern [] star = some (only_stars pattern)
glob_loop (suc fuel) [] (c ∷ text) star =
    resume star (λ after from. glob_loop fuel after from (some (after, from)))
glob_loop (suc fuel) (p ∷ pattern) (c ∷ text) star = elim (matches_byte p c) [
  | true ↦ glob_loop fuel pattern text star
  | false ↦ elim (p == b'*') [
    | true ↦ glob_loop fuel pattern (c ∷ text) (some (pattern, c ∷ text))
    | false ↦ resume star (λ after from. glob_loop fuel after from (some (after, from)))
  ]
]

abbrev pub enough_fuel : Bytes → Bytes → ℕ
enough_fuel pattern text = suc (length pattern + (length text + 1) * (length pattern + 1))

abbrev pub is_some_true : Option Bool → Bool
is_some_true none = false
is_some_true (some b) = b

unfoldable pub glob_match : Bytes → Bytes → Bool
unfolding glob_loop
glob_match pattern text = is_some_true (glob_loop (enough_fuel pattern text) pattern text none)
