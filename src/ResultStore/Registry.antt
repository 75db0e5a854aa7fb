-- ===== src/ResultStore/Registry.antt =====
-- src/store/result_store/registry.rs: the map of stored results and the admission policy.
-- The hash map is an association list with one entry for each key; nothing depends on its order.
pub mod Map
mod Plan
pub mod Candidates
mod Reclaim
pub mod Outcome
pub mod Budget
pub mod Priority
pub mod Choice
use slugaudit.Base.{
  ℕ, zero, suc, ◌+◌, ◌≤◌, ◌<◌, ◌≡◌, Bool, true, false, not, ◌&&◌, Option, none, some, List, [], ◌∷◌,
  ◌++◌, map, String, arith, ltb, leb, ◌==◌, if◌then◌else◌, ℤ, length, filter, add64, sub64,
  saturating_add,
}
use slugaudit.ResultStore.Entry.{
  ResultClass, Entry, class, age_key_le, is_active, is_idle, is_delivered,
}

pub record Counters : Type 0 where
  pub reclaimed_delivered : ℕ
  pub reclaimed_idle : ℕ
  pub refused_full : ℕ
  pub refused_too_large : ℕ
  pub unknown_cursors : ℕ
  pub expired_cursors : ℕ

abbrev pub no_counts : Counters
no_counts = record {
  reclaimed_delivered = 0;
  reclaimed_idle = 0;
  refused_full = 0;
  refused_too_large = 0;
  unknown_cursors = 0;
  expired_cursors = 0;
}

pub record Registry (Conn : Type 0) (Json : Type 0) : Type 0 where
  pub entries : List (ℕ × Entry Conn Json)
  pub admitted_bytes : ℕ
  pub counters : Counters
  pub next_seq : ℕ

-- A result removed to make room.
pub record Reclaimed (Conn : Type 0) (Json : Type 0) : Type 0 where
  pub id : ℕ
  pub class : ResultClass
  pub entry : Entry Conn Json

-- Why `admit` refuses.
pub data Refusal : Type 0 where
  full : ℕ → Refusal
  too_large : Refusal

pub data Admission (Conn : Type 0) (Json : Type 0) : Type 0 where
  admitted : List (Reclaimed Conn Json) → Admission Conn Json
  refused : Refusal → Entry Conn Json → Admission Conn Json

-- What `plan_reclaim` returns.
pub data Planned : Type 0 where
  planned : List (ℕ × ResultClass) → Planned
  unplanned : Refusal → Planned

abbrev pub count_reclaimed : ResultClass → Counters → Counters
count_reclaimed ResultClass.delivered c = record c {
  reclaimed_delivered = add64 c.reclaimed_delivered 1;
}
count_reclaimed _ c = record c { reclaimed_idle = add64 c.reclaimed_idle 1 }

abbrev pub prepend {ℓ} : {A : Type ℓ} → A → Option (List A) → Option (List A)
prepend v none = none
prepend v (some plan) = some (v ∷ plan)

module _ {Conn Json : Type 0} where
  abbrev pub empty_registry : Registry Conn Json
  empty_registry = record { entries = []; admitted_bytes = 0; counters = no_counts; next_seq = 0 }

  -- `HashMap::get`, `HashMap::remove` and `HashMap::insert`.
  unfoldable pub find : ℕ → List (ℕ × Entry Conn Json) → Option (Entry Conn Json)
  find k [] = none
  find k ((j, e) ∷ es) = if j == k then some e else find k es

  unfoldable pub remove : ℕ → List (ℕ × Entry Conn Json) → List (ℕ × Entry Conn Json)
  remove k [] = []
  remove k ((j, e) ∷ es) = if j == k then es else (j, e) ∷ remove k es

  unfoldable pub insert :
      ℕ → Entry Conn Json → List (ℕ × Entry Conn Json) → List (ℕ × Entry Conn Json)
  unfolding remove
  insert k e es = (k, e) ∷ remove k es

  -- The results that may be reclaimed, each with its class.
  unfoldable pub candidates : ℤ → ℕ → List (ℕ × Entry Conn Json) → List (Reclaimed Conn Json)
  candidates now grace_secs [] = []
  candidates now grace_secs ((k, e) ∷ es) =
      let rest = candidates now grace_secs es in
      if is_active (class e now grace_secs)
      then rest
      else record { id = k; class = class e now grace_secs; entry = e } ∷ rest

  -- The sort key `(class == Idle, age_key)`: delivered before idle, each oldest first.
  abbrev pub key_le : Reclaimed Conn Json → Reclaimed Conn Json → Bool
  key_le c d =
      if is_idle c.class
      then (if is_idle d.class then age_key_le c.entry d.entry else false)
      else (if is_idle d.class then true else age_key_le c.entry d.entry)

  pub place : Reclaimed Conn Json → List (Reclaimed Conn Json) → List (Reclaimed Conn Json)
  place c [] = c ∷ []
  place c (d ∷ ds) = if key_le c d then c ∷ d ∷ ds else d ∷ place c ds

  -- `sort_by_key`, which is stable.
  unfoldable pub sort_by_key : List (Reclaimed Conn Json) → List (Reclaimed Conn Json)
  unfolding place
  sort_by_key [] = []
  sort_by_key (c ∷ cs) = place c (sort_by_key cs)

  -- The loop of `plan_reclaim`; `none` when the candidates end before the result fits.
  unfoldable pub plan_loop :
      ℕ → ℕ → ℕ → List (Reclaimed Conn Json) → Option (List (ℕ × ResultClass))
  plan_loop used bytes budget [] = none
  plan_loop used bytes budget (c ∷ cs) =
      let used' = sub64 used c.entry.bytes in
      let rest = plan_loop used' bytes budget cs in
      if leb (saturating_add used' bytes) budget
      then some ((c.id, c.class) ∷ [])
      else prepend (c.id, c.class) rest

  unfoldable pub count_class : (ResultClass → Bool) → ℤ → ℕ → List (ℕ × Entry Conn Json) → ℕ
  count_class is now grace_secs es = length (filter (λ (k, e). is (class e now grace_secs)) es)

  count_full : Registry Conn Json → Registry Conn Json
  count_full r = record r { counters = record c { refused_full = add64 c.refused_full 1 } }
    where
      open r use {counters as c}

  -- The plan, or the refusal `Full` with its counter.
  unfoldable pub plan_reclaim : ℕ → ℕ → ℤ → ℕ → Registry Conn Json → Registry Conn Json × Planned
  unfolding count_full
  plan_reclaim bytes budget now grace_secs r =
      if leb (saturating_add r.admitted_bytes bytes) budget
      then (r, planned [])
      else elim (plan_loop r.admitted_bytes bytes budget
          (sort_by_key (candidates now grace_secs r.entries))) [
            | some plan ↦ (r, planned plan)
            | none ↦
                (count_full r, unplanned (full (count_class is_active now grace_secs r.entries)))
          ]

  -- One round of the loop that carries the plan out.
  unfoldable pub reclaim_one :
      Registry Conn Json × List (Reclaimed Conn Json)
      → ℕ × ResultClass
      → Registry Conn Json × List (Reclaimed Conn Json)
  reclaim_one (r, out) (victim, class) = elim (find victim r.entries) [
    | none ↦ (r, out)
    | some removed ↦ (
      record r {
        entries = remove victim r.entries;
        admitted_bytes = sub64 r.admitted_bytes removed.bytes;
        counters = count_reclaimed class r.counters;
      },
      out ++ record { id = victim; class = class; entry = removed } ∷ [],
    )
  ]

  unfoldable pub reclaim_all :
      Registry Conn Json × List (Reclaimed Conn Json)
      → List (ℕ × ResultClass)
      → Registry Conn Json × List (Reclaimed Conn Json)
  reclaim_all s [] = s
  reclaim_all s (v ∷ plan) = reclaim_all (reclaim_one s v) plan

  -- The end of `admit`: the entry gets the next sequence number and its place in the map.
  unfoldable pub enter : ℕ → Entry Conn Json → Registry Conn Json → Registry Conn Json
  enter id entry r = record r {
    entries = insert id (record entry { seq = r.next_seq }) r.entries;
    admitted_bytes = add64 r.admitted_bytes entry.bytes;
    next_seq = add64 r.next_seq 1;
  }

  abbrev pub carry_out :
      ℕ → Entry Conn Json → Registry Conn Json × Planned → Registry Conn Json × Admission Conn Json
  carry_out id entry (r, unplanned why) = (r, refused why entry)
  carry_out id entry (r, planned plan) =
      let (r', out) = reclaim_all (r, []) plan in (enter id entry r', admitted out)

  unfoldable pub admit :
      ℕ
      → Entry Conn Json
      → ℕ
      → ℤ
      → ℕ
      → Registry Conn Json
      → Registry Conn Json × Admission Conn Json
  admit id entry budget now grace_secs r =
      if ltb budget entry.bytes
      then (
        record r { counters = record c { refused_too_large = add64 c.refused_too_large 1 } },
        refused too_large entry,
      )
      else carry_out id entry (plan_reclaim entry.bytes budget now grace_secs r)
    where
      open r use {counters as c}
