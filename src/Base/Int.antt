-- ===== src/Base/Int.antt =====
-- Signed integers over the native numbers; `i64` is the part from -2^63 up to 2^63 - 1.
use Prim.Native.Nat.{ℕ, suc, ◌+◌, ◌-◌, ◌^◌, ◌≤◌, min}
use mathlib.Core.Bool.{Bool}
use slugaudit.Base.Tests.{leb, if◌then◌else◌}

-- `negsuc n` is -(n + 1).
pub data ℤ : Type 0 where
  pos : ℕ → ℤ
  negsuc : ℕ → ℤ

abbrev pub pos_part : ℤ → ℕ
pos_part (pos n) = n
pos_part (negsuc n) = 0

abbrev pub neg_part : ℤ → ℕ
neg_part (pos n) = 0
neg_part (negsuc n) = suc n

-- a - b, as an integer.
abbrev pub sub_ℕ : ℕ → ℕ → ℤ
sub_ℕ a b = if leb b a then pos (a - b) else negsuc (b - a - 1)

infix 50 ◌≤ℤ◌
abbrev pub ◌≤ℤ◌ : ℤ → ℤ → Type 0
a ≤ℤ b = pos_part a + neg_part b ≤ pos_part b + neg_part a

abbrev pub leb_ℤ : ℤ → ℤ → Bool
leb_ℤ a b = leb (pos_part a + neg_part b) (pos_part b + neg_part a)

abbrev pub i64_max : ℕ
i64_max = 2 ^ 63 - 1

-- `i64::saturating_sub`.
abbrev pub saturating_sub_i64 : ℤ → ℤ → ℤ
saturating_sub_i64 a b = elim (sub_ℕ (pos_part a + neg_part b) (pos_part b + neg_part a)) [
  | pos n ↦ pos (min n i64_max)
  | negsuc n ↦ negsuc (min n i64_max)
]
