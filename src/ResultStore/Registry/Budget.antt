-- ===== src/ResultStore/Registry/Budget.antt =====
-- The admission policy: the budget, what is protected, and what is reclaimed first.
use mathlib.Core.Bool.{false≢true}
use slugaudit.Base.{
  ℕ, ◌+◌, ◌≤◌, ◌<◌, ◌≡◌, refl, sym, ap, ◌∙◌, ◌≢◌, inl, inr, Bool, true, false, ◌&&◌, none, some,
  List, [], ◌∷◌, arith, leb, ◌==◌, ==_iff, ℤ, All, All-left, Bool-cases, u64_max,
}
use slugaudit.ResultStore.Entry.{ResultClass, Entry, class, is_active}
use slugaudit.ResultStore.Registry.{
  Registry, Reclaimed, Admission, admitted, refused, find, insert, enter, admit,
}
use slugaudit.ResultStore.Registry.Map.{Distinct, find-remove, remove_absent}
use slugaudit.ResultStore.Registry.Plan.{All-sort}
use slugaudit.ResultStore.Registry.Candidates.{IsBacked, active_bytes, candidates-IsBacked}
use slugaudit.ResultStore.Registry.Reclaim.{among, IsCounted}
use slugaudit.ResultStore.Registry.Outcome.{
  IsValid, Outcome, large, no_room, entered, admit-Outcome,
}

module _ {Conn Json : Type 0} where
  abbrev pub accepts : Admission Conn Json → Bool
  accepts (admitted _) = true
  accepts (refused _ _) = false

  enter-IsValid :
      (id : ℕ) (entry : Entry Conn Json) (budget : ℕ) (s : Registry Conn Json)
      → IsCounted s
      → find id s.entries ≡ none
      → s.admitted_bytes + entry.bytes ≤ budget
      → budget < u64_max
      → IsValid budget (enter id entry s)
  unfolding enter insert
  enter-IsValid id entry budget s i n f top = rw (remove_absent id s.entries n) (record {
    distinct = (n, i.distinct);
    counted = omega (arith, i.counted);
    within = omega arith;
  })

  Outcome-IsValid :
      (id : ℕ) (entry : Entry Conn Json) (budget : ℕ) (now : ℤ) (grace : ℕ) (r : Registry Conn Json)
      {res : Registry Conn Json × Admission Conn Json}
      → IsValid budget r
      → budget < u64_max
      → find id r.entries ≡ none
      → Outcome id entry budget now grace r res
      → IsValid budget res.0
  Outcome-IsValid id entry budget now grace r v top n (large s _ e b) = record {
    distinct = rw e v.distinct;
    counted = ground (arith, v.counted);
    within = omega (arith, v.within);
  }
  Outcome-IsValid id entry budget now grace r v top n (no_room s _ _ e b) = record {
    distinct = rw e v.distinct;
    counted = ground (arith, v.counted);
    within = omega (arith, v.within);
  }
  Outcome-IsValid id entry budget now grace r v top n (entered taken left s _ _ _ _ f w) =
      enter-IsValid id entry budget s w.sound (ground (arith, w.finds id)) (omega (arith, w.freed))
        top

  -- An admission under a fresh id to a valid registry, whatever it decides, keeps it valid: one
  -- entry for each id, a byte count that is the sum of the entries' bytes, and that count within the
  -- budget (which is below the largest `u64`).
  pub admit-IsValid :
      (id : ℕ) (entry : Entry Conn Json) (budget : ℕ) (now : ℤ) (grace : ℕ) (r : Registry Conn Json)
      → IsValid budget r
      → budget < u64_max
      → find id r.entries ≡ none
      → IsValid budget (admit id entry budget now grace r).0
  admit-IsValid id entry budget now grace r v top n =
      Outcome-IsValid id entry budget now grace r v top n
        (admit-Outcome id entry budget now grace r v top)

  Outcome-accepts :
      (id : ℕ) (entry : Entry Conn Json) (budget : ℕ) (now : ℤ) (grace : ℕ) (r : Registry Conn Json)
      {res : Registry Conn Json × Admission Conn Json}
      → Outcome id entry budget now grace r res
      → accepts res.1
        ≡ (leb entry.bytes budget && leb (active_bytes now grace r.entries + entry.bytes) budget)
  Outcome-accepts id entry budget now grace r (large s h _ _) = ground arith
  Outcome-accepts id entry budget now grace r (no_room s h k _ _) = ground arith
  Outcome-accepts id entry budget now grace r (entered taken left s h k _ _ _ _) = ground arith

  -- With a valid registry and a budget below the largest `u64`, a result is admitted exactly when it
  -- fits the budget by itself and fits beside the active results.
  pub accepts-admit :
      (id : ℕ) (entry : Entry Conn Json) (budget : ℕ) (now : ℤ) (grace : ℕ) (r : Registry Conn Json)
      → IsValid budget r
      → budget < u64_max
      → accepts (admit id entry budget now grace r).1
        ≡ (leb entry.bytes budget && leb (active_bytes now grace r.entries + entry.bytes) budget)
  accepts-admit id entry budget now grace r v top =
      Outcome-accepts id entry budget now grace r (admit-Outcome id entry budget now grace r v top)

  abbrev pub Untouched :
      Entry Conn Json → Registry Conn Json → Registry Conn Json × Admission Conn Json → Type 0
  Untouched entry r (s, admitted _) = Unit
  Untouched entry r (s, refused why back) =
      (s.entries ≡ r.entries) × (s.admitted_bytes ≡ r.admitted_bytes) × (back ≡ entry)

  clash :
      (now : ℤ) (grace j : ℕ) (es : List (ℕ × Entry Conn Json)) (e : Entry Conn Json)
      (c : Reclaimed Conn Json)
      → find j es ≡ some e
      → is_active (class e now grace) ≡ true
      → IsBacked now grace es c
      → c.id ≡ j
      → ⊥
  clash now grace j es e c f a b i =
      let same : c.entry ≡ e = cc (b.found, f, ap (λ k. find k es) i) in
      false≢true (sym b.spare ∙ ap is_active (sym b.classed ∙ ap (λ x. class x now grace) same) ∙ a)

  find_entered :
      (id : ℕ) (entry : Entry Conn Json) (s : Registry Conn Json)
      → IsCounted s
      → (j : ℕ) → (id == j) ≡ false
      → find j (enter id entry s).entries ≡ find j s.entries
  unfolding enter insert find
  find_entered id entry s i j n = rw n (find-remove id j s.entries i.distinct ∙ rw n)

  not_among :
      (now : ℤ) (grace j : ℕ) (es : List (ℕ × Entry Conn Json)) (e : Entry Conn Json)
      (cs : List (Reclaimed Conn Json))
      → find j es ≡ some e
      → is_active (class e now grace) ≡ true
      → All (IsBacked now grace es) cs
      → among j cs ≡ false
  not_among now grace j es e [] f a b = refl
  not_among now grace j es e (c ∷ cs) f a b = elim (Bool-cases (c.id == j)) [
    | inl h ↦ absurd (clash now grace j es e c f a b.0 ((==_iff c.id j).0 h))
    | inr h ↦ rw h (not_among now grace j es e cs f a b.1)
  ]

  Outcome-keeps_active :
      (id : ℕ) (entry : Entry Conn Json) (budget : ℕ) (now : ℤ) (grace : ℕ) (r : Registry Conn Json)
      {res : Registry Conn Json × Admission Conn Json}
      → Distinct r.entries
      → (j : ℕ) (e : Entry Conn Json) → find j r.entries ≡ some e
      → is_active (class e now grace) ≡ true
      → (id == j) ≡ false
      → Outcome id entry budget now grace r res
      → find j res.0.entries ≡ some e
  Outcome-keeps_active id entry budget now grace r d j e f a n (large s _ g _) = rw g f
  Outcome-keeps_active id entry budget now grace r d j e f a n (no_room s _ _ g _) = rw g f
  Outcome-keeps_active id entry budget now grace r d j e f a n (entered taken left s _ _ g _ _ w) =
      let backed = All-left _ taken left (
        rw g at (
          All-sort (IsBacked now grace r.entries) _ (candidates-IsBacked now grace r.entries d))) in
      find_entered id entry s w.sound j n
      ∙ w.finds j
      ∙ rw (not_among now grace j r.entries e taken f a backed) f

  -- In a valid registry with a budget below the largest `u64`, an active result (not delivered,
  -- served within the grace period) survives every admission under another id, with its entry
  -- unchanged.
  pub admit-keeps_active :
      (id : ℕ) (entry : Entry Conn Json) (budget : ℕ) (now : ℤ) (grace : ℕ) (r : Registry Conn Json)
      (j : ℕ) (e : Entry Conn Json)
      → IsValid budget r
      → budget < u64_max
      → find j r.entries ≡ some e
      → class e now grace ≡ ResultClass.active
      → id ≢ j
      → find j (admit id entry budget now grace r).0.entries ≡ some e
  admit-keeps_active id entry budget now grace r j e v top f a n =
      Outcome-keeps_active id entry budget now grace r v.distinct j e f (ap is_active a)
        (ground (arith, ==_iff id j)) (admit-Outcome id entry budget now grace r v top)

  Outcome-Untouched :
      (id : ℕ) (entry : Entry Conn Json) (budget : ℕ) (now : ℤ) (grace : ℕ) (r : Registry Conn Json)
      {res : Registry Conn Json × Admission Conn Json}
      → Outcome id entry budget now grace r res
      → Untouched entry r res
  Outcome-Untouched id entry budget now grace r (large s _ g b) = (g, b, refl)
  Outcome-Untouched id entry budget now grace r (no_room s _ _ g b) = (g, b, refl)
  Outcome-Untouched id entry budget now grace r (entered taken left s _ _ g _ _ w) = tt

  -- With a valid registry and a budget below the largest `u64`, a refusal leaves the stored results
  -- and their byte count as they were and hands the entry back.
  pub admit-Untouched :
      (id : ℕ) (entry : Entry Conn Json) (budget : ℕ) (now : ℤ) (grace : ℕ) (r : Registry Conn Json)
      → IsValid budget r
      → budget < u64_max
      → Untouched entry r (admit id entry budget now grace r)
  admit-Untouched id entry budget now grace r v top =
      Outcome-Untouched id entry budget now grace r
        (admit-Outcome id entry budget now grace r v top)
