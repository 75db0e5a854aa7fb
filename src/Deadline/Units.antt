-- ===== src/Deadline/Units.antt =====
-- The deadline of a unit of work inside an operation.
use slugaudit.Base.{
  ℕ, ◌+◌, ◌-◌, ◌*◌, ◌≤◌, ◌<◌, ◌≡◌, inl, inr, Bool, true, false, Option, none, some, arith, leb,
  ◌==◌, ==_iff, Bool-cases, u64_max,
}
use slugaudit.Deadline.{
  Deadline, BudgetBound, per_unit, operation, elapsed, whole_millis, nanos_per_milli, non_zero,
  remaining_millis,
}

abbrev pub is_over : Option ℕ → Bool
is_over none = false
is_over (some spent) = true

abbrev pub is_unit : BudgetBound → Bool
is_unit per_unit = true
is_unit operation = false

non_zero-some : (n : ℕ) {m : ℕ} → non_zero n ≡ some m → (n ≡ m) × (0 < n)
non_zero-some n h = elim (Bool-cases (n == 0)) [
  | inl z ↦ absurd (let h' = rw z at h in cc)
  | inr z ↦ let h' = rw z at h in (cc, ground (arith, ==_iff n 0))
]

whole_millis-le : (r : ℕ) → (whole_millis r ≤ u64_max) × (whole_millis r * nanos_per_milli ≤ r)
whole_millis-le r = (omega arith, omega arith)

-- The milliseconds that are left are at least one, fit `u64`, and end before the budget does.
pub remaining_millis-le :
    (d : Deadline) (now : ℕ) {millis : ℕ}
    → remaining_millis d now ≡ some millis
    → (0 < millis) × (millis ≤ u64_max) × (elapsed d now + millis * nanos_per_milli ≤ d.budget)
unfolding remaining_millis
remaining_millis-le d now {millis} h = elim (Bool-cases (leb (elapsed d now) d.budget)) [
  | inr c ↦ absurd (let h' = rw c at h in cc)
  | inl c ↦
      let r = d.budget - elapsed d now in
      let (same, positive) = non_zero-some (whole_millis r) (rw c at h) in
      let (top, below) = whole_millis-le r in rw (← same) (positive, top, ground (arith, below))
]
