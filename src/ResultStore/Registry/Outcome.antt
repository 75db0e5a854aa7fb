-- ===== src/ResultStore/Registry/Outcome.antt =====
-- The three ways in which an admission turns out; the theorems of the policy rest on them.
use slugaudit.Base.{
  ℕ, ◌+◌, ◌≤◌, ◌<◌, ◌≡◌, refl, ap, inl, inr, false, none, some, List, [], ◌∷◌, ◌++◌, arith, ltb,
  leb, ◌==◌, ℤ, saturating_add, All, All-mono, All-left, Bool-cases, Option-cases, u64_max,
}
use slugaudit.ResultStore.Entry.{ResultClass, Entry, is_active}
use slugaudit.ResultStore.Registry.{
  Registry, Reclaimed, Admission, full, too_large, admitted, refused, planned, find, candidates,
  sort_by_key, plan_loop, plan_reclaim, enter, carry_out, admit, count_class,
}
use slugaudit.ResultStore.Registry.Map.{total, Distinct}
use slugaudit.ResultStore.Registry.Plan.{
  sum, Unique, victims, Needed, Split, All-sort, sum-sort, sort-Unique, sum-append, plan_loop-Split,
  plan_loop-none,
}
use slugaudit.ResultStore.Registry.Candidates.{
  IsBacked, active_bytes, sum-candidates, candidates-Unique, candidates-IsBacked,
}
use slugaudit.ResultStore.Registry.Reclaim.{Reclaims, reclaim_all-Reclaims}

module _ {Conn Json : Type 0} where
  -- The admission invariant of the registry under a budget.
  pub record IsValid (budget : ℕ) (r : Registry Conn Json) : Type 0 where
    pub distinct : Distinct r.entries
    pub counted : r.admitted_bytes ≡ total r.entries
    pub within : r.admitted_bytes ≤ budget

  abbrev pub spare : ℤ → ℕ → Registry Conn Json → List (Reclaimed Conn Json)
  spare now grace r = sort_by_key (candidates now grace r.entries)

  -- How an admission turns out, branch by branch.
  pub data Outcome (id : ℕ) (entry : Entry Conn Json) (budget : ℕ) (now : ℤ) (grace : ℕ)
      (r : Registry Conn Json) : Registry Conn Json × Admission Conn Json → Type 0 where
    large :
        (s : Registry Conn Json)
        → budget < entry.bytes
        → s.entries ≡ r.entries
        → s.admitted_bytes ≡ r.admitted_bytes
        → Outcome id entry budget now grace r (s, refused too_large entry)
    no_room :
        (s : Registry Conn Json)
        → entry.bytes ≤ budget
        → budget < active_bytes now grace r.entries + entry.bytes
        → s.entries ≡ r.entries
        → s.admitted_bytes ≡ r.admitted_bytes
        → Outcome id entry budget now grace r
            (s, refused (full (count_class is_active now grace r.entries)) entry)
    entered :
        (taken left : List (Reclaimed Conn Json)) (s : Registry Conn Json)
        → entry.bytes ≤ budget
        → active_bytes now grace r.entries + entry.bytes ≤ budget
        → spare now grace r ≡ taken ++ left
        → Needed r.admitted_bytes entry.bytes budget taken
        → r.admitted_bytes + entry.bytes ≤ budget + sum taken
        → Reclaims r s taken
        → Outcome id entry budget now grace r (enter id entry s, admitted taken)

module _ {Conn Json : Type 0} (id : ℕ) (entry : Entry Conn Json) (budget : ℕ) (now : ℤ) (grace : ℕ)
    (r : Registry Conn Json) (v : IsValid budget r) (top : budget < u64_max) where
  spare_bytes : active_bytes now grace r.entries + sum (spare now grace r) ≡ r.admitted_bytes
  spare_bytes = omega (
    arith,
    sum-sort (candidates now grace r.entries),
    sum-candidates now grace r.entries,
    v.counted,
  )

  spare-Unique : Unique (spare now grace r)
  spare-Unique = sort-Unique _ (candidates-Unique now grace r.entries v.distinct)

  spare-IsBacked : All (IsBacked now grace r.entries) (spare now grace r)
  spare-IsBacked = All-sort _ _ (candidates-IsBacked now grace r.entries v.distinct)

  taken-Unique : (taken left : List (Reclaimed Conn Json)) → Unique (taken ++ left) → Unique taken
  taken-Unique [] left u = tt
  taken-Unique (c ∷ cs) left u =
      (All-left (λ d. (c.id == d.id) ≡ false) cs left u.0, taken-Unique cs left u.1)

  planned-Outcome :
      (taken left : List (Reclaimed Conn Json))
      → entry.bytes ≤ budget
      → spare now grace r ≡ taken ++ left
      → Needed r.admitted_bytes entry.bytes budget taken
      → r.admitted_bytes + entry.bytes ≤ budget + sum taken
      → Outcome id entry budget now grace r (carry_out id entry (r, planned (victims taken)))
  planned-Outcome taken left small e n f =
      let u = taken-Unique taken left (rw e at spare-Unique) in
      let st =
        All-mono _ (λ c. find c.id r.entries ≡ some c.entry) taken (λ c b. b.found)
          (All-left _ taken left (rw e at spare-IsBacked)) in
      let (s, g, w) =
        reclaim_all-Reclaims r [] taken
          (record { distinct = v.distinct; counted = v.counted; below = omega (arith, v.within) }) u
          st in
      rw g (
        entered taken left s small (omega (arith, spare_bytes, ap sum e, sum-append taken left)) e n
          f w)

  spare_le : sum (spare now grace r) ≤ r.admitted_bytes
  spare_le = omega (arith, spare_bytes)

  short :
      entry.bytes ≤ budget
      → budget < r.admitted_bytes + entry.bytes
      → plan_loop r.admitted_bytes entry.bytes budget (spare now grace r) ≡ none
      → budget < active_bytes now grace r.entries + entry.bytes
  short small over f = omega (
    arith,
    spare_bytes,
    plan_loop-none entry.bytes budget top r.admitted_bytes (spare now grace r) v.within small
        spare_le over f,
  )

  by_plan :
      (plan : List (ℕ × ResultClass))
      → entry.bytes ≤ budget
      → budget < r.admitted_bytes + entry.bytes
      → plan_loop r.admitted_bytes entry.bytes budget (spare now grace r) ≡ some plan
      → Outcome id entry budget now grace r (carry_out id entry (r, planned plan))
  by_plan plan small over f =
      let s : Split r.admitted_bytes entry.bytes budget (spare now grace r) plan =
        plan_loop-Split entry.bytes budget top r.admitted_bytes (spare now grace r) plan v.within
          small spare_le over f in
      rw s.named (planned-Outcome s.taken s.left small s.parts s.needed s.fits)

  -- Every admission turns out in one of the three ways.
  pub admit-Outcome : Outcome id entry budget now grace r (admit id entry budget now grace r)
  unfolding admit plan_reclaim
  admit-Outcome = elim (Bool-cases (ltb budget entry.bytes)) [
    | inl e ↦ rw e (large _ (ground arith) refl refl)
    | inr small ↦
        rw small (elim (Bool-cases (leb (saturating_add r.admitted_bytes entry.bytes) budget)) [
          | inl e ↦
              rw e (planned-Outcome [] (spare now grace r) (ground arith) refl tt (ground arith))
          | inr e ↦
              rw e
                (elim (Option-cases
                  (plan_loop r.admitted_bytes entry.bytes budget (spare now grace r))) [
                    | inl f ↦
                        rw f (
                          no_room _ (ground arith) (short (ground arith) (ground arith) f) refl
                            refl)
                    | inr (plan, f) ↦ rw f (by_plan plan (ground arith) (ground arith) f)
                  ])
        ])
  ]
