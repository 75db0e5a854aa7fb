-- ===== src/Tests/Registry.antt =====
-- Admissions into a store of 100 bytes that holds a delivered and an active result.
use slugaudit.Base.{ℕ, ◌+◌, ◌≡◌, refl, Bool, true, false, ◌&&◌, some, [], ◌∷◌, arith, leb, pos}
use slugaudit.ResultStore.Entry.{ResultClass, ResultMeta, Entry, class}
use slugaudit.ResultStore.Registry.Candidates.{active_bytes}
use slugaudit.ResultStore.Registry.{Registry, no_counts, find, admit}
use slugaudit.ResultStore.Registry.Outcome.{IsValid}
use slugaudit.ResultStore.Registry.Budget.{
  accepts, admit-IsValid, accepts-admit, admit-keeps_active, Untouched, admit-Untouched,
}
use slugaudit.ResultStore.Registry.Choice.{ChosenWell, admit-ChosenWell}

abbrev meta : ResultMeta ℕ
meta = record {
  tool = "query";
  project = "p";
  revision_id = "r";
  columns = [];
  completeness = 0;
  row_count = 0;
  created_unix = pos 0;
}

abbrev result : ℕ → ℕ → ℕ → Bool → Entry ℕ ℕ
result size seq accessed delivered = record {
  conn = 0;
  meta = meta;
  bytes = size;
  seq = seq;
  last_access = pos accessed;
  delivered = delivered;
}

abbrev delivered_one : Entry ℕ ℕ
delivered_one = result 60 0 10 true

abbrev active_one : Entry ℕ ℕ
active_one = result 30 1 900 false

abbrev stored : Registry ℕ ℕ
stored = record {
  entries = (1, delivered_one) ∷ (2, active_one) ∷ [];
  admitted_bytes = 90;
  counters = no_counts;
  next_seq = 2;
}

stored-IsValid : IsValid 100 stored
unfolding find
stored-IsValid = record { distinct = (refl, (refl, tt)); counted = refl; within = omega arith }

abbrev incoming : Entry ℕ ℕ
incoming = result 50 0 1000 false

abbrev too_much : Entry ℕ ℕ
too_much = result 80 0 1000 false

-- The delivered result makes room.
admit-IsValid_example : IsValid 100 (admit 3 incoming 100 (pos 1000) 900 stored).0
unfolding find
admit-IsValid_example =
    admit-IsValid 3 incoming 100 (pos 1000) 900 stored stored-IsValid (omega arith) refl

accepts-admit_example : accepts (admit 3 incoming 100 (pos 1000) 900 stored).1 ≡ (
    leb incoming.bytes 100 && leb (active_bytes (pos 1000) 900 stored.entries + incoming.bytes) 100)
accepts-admit_example =
    accepts-admit 3 incoming 100 (pos 1000) 900 stored stored-IsValid (omega arith)

active_one-class : class active_one (pos 1000) 900 ≡ ResultClass.active
unfolding class
active_one-class = refl

admit-keeps_active_example :
    find 2 (admit 3 incoming 100 (pos 1000) 900 stored).0.entries ≡ some active_one
unfolding find
admit-keeps_active_example =
    admit-keeps_active 3 incoming 100 (pos 1000) 900 stored 2 active_one stored-IsValid
      (omega arith) refl active_one-class (omega arith)

admit-ChosenWell_example :
    ChosenWell 50 100 (pos 1000) 900 stored (admit 3 incoming 100 (pos 1000) 900 stored).1
admit-ChosenWell_example =
    admit-ChosenWell 3 incoming 100 (pos 1000) 900 stored stored-IsValid (omega arith)

-- 80 bytes do not fit beside the active result.
admit-Untouched_example : Untouched too_much stored (admit 3 too_much 100 (pos 1000) 900 stored)
admit-Untouched_example =
    admit-Untouched 3 too_much 100 (pos 1000) 900 stored stored-IsValid (omega arith)
