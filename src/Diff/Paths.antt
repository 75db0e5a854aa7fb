-- ===== src/Diff/Paths.antt =====
-- The order of paths.
use slugaudit.Base.{ℕ, ◌≡◌, refl, inl, inr, true, false, List, [], ◌∷◌, arith, Bool-cases}
use slugaudit.Base.{text_eq, text_eq_sound}
use slugaudit.Diff.{path_le}

pub path_le_refl : (xs : List ℕ) → path_le xs xs ≡ true
unfolding path_le
path_le_refl [] = refl
path_le_refl (x ∷ xs) = ground (arith, path_le_refl xs)

-- A path that does not come first in the order is another path.
pub not_le-neq : (k j : List ℕ) → path_le k j ≡ false → text_eq k j ≡ false
not_le-neq k j h = elim (Bool-cases (text_eq k j)) [
  | inr e ↦ e
  | inl e ↦ absurd (let s = text_eq_sound k j e in let r = path_le_refl k in cc)
]
