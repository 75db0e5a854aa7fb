-- ===== src/ResultStore/Service/Stats/Totals.antt =====
-- The statistics add up: each entry is counted in one class.
use slugaudit.Base.{ℕ, ◌+◌, ◌≤◌, ◌≡◌, List, [], ◌∷◌, arith, if◌then◌else◌, ℤ, length, u64_max}
use slugaudit.ResultStore.Entry.{ResultClass, Entry, class, is_active}
use slugaudit.ResultStore.Registry.{Registry, count_class}
use slugaudit.ResultStore.Registry.Map.{total}
use slugaudit.ResultStore.Registry.Candidates.{active_bytes}
use slugaudit.ResultStore.Registry.Outcome.{IsValid}
use slugaudit.ResultStore.Service.{SweepOutcome}
use slugaudit.ResultStore.Service.Stats.{
  StoreStats, count_in, count_entries, nothing_counted, snapshot,
}

abbrev pub results_of : StoreStats → ℕ
results_of s = s.active.results + s.idle.results + s.delivered.results

abbrev pub bytes_of : StoreStats → ℕ
bytes_of s = s.active.bytes + s.idle.bytes + s.delivered.bytes

-- What counting adds to the statistics so far.
record Added (s t : StoreStats) (results bytes active active_held : ℕ) : Type 0 where
  pub counted : results_of t ≡ results_of s + results
  pub held : bytes_of t ≡ bytes_of s + bytes
  pub protected : t.active.results ≡ s.active.results + active
  pub protected_held : t.active.bytes ≡ s.active.bytes + active_held

count_in-Added :
    (c : ResultClass) (bytes : ℕ) (s : StoreStats)
    → bytes_of s + bytes ≤ u64_max
    → Added s
        (count_in c bytes s)
        1
        bytes
        (if is_active c then 1 else 0)
        (if is_active c then bytes else 0)
count_in-Added ResultClass.active bytes s h = record {
  counted = omega arith;
  held = omega arith;
  protected = omega arith;
  protected_held = omega arith;
}
count_in-Added ResultClass.idle bytes s h = record {
  counted = omega arith;
  held = omega arith;
  protected = omega arith;
  protected_held = omega arith;
}
count_in-Added ResultClass.delivered bytes s h = record {
  counted = omega arith;
  held = omega arith;
  protected = omega arith;
  protected_held = omega arith;
}

module _ {Conn Json : Type 0} (now : ℤ) (grace_secs : ℕ) where
  count_entries-Added :
      (es : List (ℕ × Entry Conn Json)) (s : StoreStats)
      → bytes_of s + total es ≤ u64_max
      → Added s
          (count_entries now grace_secs es s)
          (length es)
          (total es)
          (count_class is_active now grace_secs es)
          (active_bytes now grace_secs es)
  unfolding count_entries count_class
  count_entries-Added [] s h = record {
    counted = omega arith;
    held = omega arith;
    protected = omega arith;
    protected_held = omega arith;
  }
  count_entries-Added ((k, e) ∷ es) s h =
      let c = class e now grace_secs in
      let a = count_in-Added c e.bytes s (omega arith) in
      let b = count_entries-Added es (count_in c e.bytes s) (omega (arith, a.held)) in
      record {
        counted = omega (arith, a.counted, b.counted);
        held = omega (arith, a.held, b.held);
        protected = ground (arith, a.protected, b.protected);
        protected_held = ground (arith, a.protected_held, b.protected_held);
      }

  -- In a valid registry with a budget of at most the largest `u64`, the classes of the statistics count
  -- every entry once and hold together the bytes that the registry counts; the active class has the
  -- number of entries and the bytes of the results still protected.
  pub snapshot-totals :
      (budget : ℕ) (sweep : SweepOutcome) (r : Registry Conn Json)
      → IsValid budget r
      → budget ≤ u64_max
      → (results_of (snapshot budget now grace_secs sweep r) ≡ length r.entries)
        × (bytes_of (snapshot budget now grace_secs sweep r) ≡ r.admitted_bytes)
        × ((snapshot budget now grace_secs sweep r).active.results
            ≡ count_class is_active now grace_secs r.entries)
        × ((snapshot budget now grace_secs sweep r).active.bytes
            ≡ active_bytes now grace_secs r.entries)
  unfolding snapshot
  snapshot-totals budget sweep r v h =
      let a =
        count_entries-Added r.entries (nothing_counted budget sweep r)
          (omega (arith, v.counted, v.within)) in
      (
        omega (arith, a.counted),
        omega (arith, a.held, v.counted),
        omega (arith, a.protected),
        omega (arith, a.protected_held),
      )
