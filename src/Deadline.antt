-- ===== src/Deadline.antt =====
-- src/util/time.rs, `Deadline`: the time budget of an operation. Instants and durations are whole
-- nanoseconds; the clock's reading is an argument, and the clock does not go back.
pub mod Units
use slugaudit.Base.{
  ℕ, zero, suc, ◌+◌, ◌-◌, ◌*◌, ◌/◌, ◌%◌, ◌^◌, ◌≤◌, ◌<◌, min, max, ◌≡◌, refl, sym, ap, subst, ◌∙◌,
  fun_ext, ◌≢◌, ◌↔◌, ◌⊎◌, inl, inr, Bool, true, false, not, ◌&&◌, ◌||◌, Option, none, some, List,
  [], ◌∷◌, ◌++◌, map, String, arith, ltb, leb, ◌==◌, ==_iff, if◌then◌else◌, ℤ, pos, negsuc,
  pos_part, neg_part, leb_ℤ, ◌≤ℤ◌, sub_ℕ, length, length-append, get_elem?, take, drop, filter, any,
  all, add64, sub64, u64_mod, i64_max, saturating_add, Result, ok, err, ok_or, ◌>>=◌, Result-cases,
  bind_ok, is_utf8, saturating_mul, All, All-append, All-mono, All-left, All-right, All-of,
  All-both, Bool-cases, Option-cases, u64_max, Text, text_eq, text_eq_sound, text_eq_refl, apart,
  text_in, strip_prefix, strip_prefix_sound, split_from, split, join, Without, split-append,
  split-alone, join-split, leb→le, le→leb, leb-false, str_eq, eq_iff,
}

pub record Deadline : Type 0 where
  pub started : ℕ
  pub budget : ℕ

pub data BudgetBound : Type 0 where
  per_unit operation : BudgetBound

-- `Deadline::after`, at a time.
abbrev pub deadline_after : ℕ → ℕ → Deadline
deadline_after budget now = record { started = now; budget = budget }

-- `Instant::elapsed`, which saturates.
abbrev pub elapsed : Deadline → ℕ → ℕ
elapsed d now = now - d.started

unfoldable pub exceeded : Deadline → ℕ → Option ℕ
exceeded d now = if leb d.budget (elapsed d now) then some (elapsed d now) else none

unfoldable pub capped : Deadline → ℕ → ℕ → Deadline × BudgetBound
capped d cap now =
    if ltb cap (d.budget - elapsed d now)
    then (deadline_after cap now, per_unit)
    else (d, operation)

abbrev pub nanos_per_sec : ℕ
nanos_per_sec = 1000000000

abbrev pub nanos_per_milli : ℕ
nanos_per_milli = 1000000

-- The whole milliseconds of a duration: `as_secs` and `subsec_millis`.
abbrev pub whole_millis : ℕ → ℕ
whole_millis remaining =
    saturating_add (saturating_mul (remaining / nanos_per_sec) 1000)
      ((remaining % nanos_per_sec) / nanos_per_milli)

abbrev pub non_zero : ℕ → Option ℕ
non_zero n = if n == 0 then none else some n

unfoldable pub remaining_millis : Deadline → ℕ → Option ℕ
remaining_millis d now =
    if leb (elapsed d now) d.budget
    then non_zero (whole_millis (d.budget - elapsed d now))
    else none
