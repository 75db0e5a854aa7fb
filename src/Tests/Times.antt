-- ===== src/Tests/Times.antt =====
-- A unit of 5 within a budget of 100 that started at 10, and the milliseconds left of a second.
use slugaudit.Base.{◌+◌, ◌*◌, ◌≤◌, ◌<◌, ◌≡◌, refl, some, u64_max}
use slugaudit.Deadline.{Deadline, elapsed, remaining_millis, nanos_per_milli, nanos_per_sec}
use slugaudit.Deadline.Units.{remaining_millis-le}

abbrev hundred : Deadline
hundred = record { started = 10; budget = 100 }

abbrev second : Deadline
second = record { started = 0; budget = nanos_per_sec }

left : remaining_millis second 1 ≡ some 999
unfolding remaining_millis
left = refl

remaining_millis-le_example :
    (0 < 999) × (999 ≤ u64_max) × (elapsed second 1 + 999 * nanos_per_milli ≤ second.budget)
remaining_millis-le_example = remaining_millis-le second 1 left
