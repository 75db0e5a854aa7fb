-- ===== src/ResultStore/Registry/Choice.antt =====
-- Which results an admission reclaims: the order of the sort key, and no more than it must.
use mathlib.Core.Bool.{false≢true}
use mathlib.Core.Path.{subst₂}
use slugaudit.Base.{
  ℕ, ◌<◌, ◌≡◌, refl, sym, ap, subst, ◌∙◌, ◌⊎◌, inl, inr, true, false, some, List, [], ◌∷◌, ◌++◌,
  arith, ◌==◌, ==_iff, ℤ, All, All-append, All-mono, All-left, All-right, All-of, All-both,
  Bool-cases, u64_max,
}
use slugaudit.ResultStore.Entry.{Entry, class, is_active}
use slugaudit.ResultStore.Registry.{
  Registry, Reclaimed, Admission, admitted, refused, find, candidates, key_le, place, sort_by_key,
  admit,
}
use slugaudit.ResultStore.Registry.Map.{Distinct}
use slugaudit.ResultStore.Registry.Plan.{Sorted, Needed, All-sort, sort-Sorted}
use slugaudit.ResultStore.Registry.Priority.{Before, Spare, Ordered, Sorted-Ordered, key_le-Before}
use slugaudit.ResultStore.Registry.Candidates.{IsBacked, candidates-IsBacked}
use slugaudit.ResultStore.Registry.Reclaim.{among}
use slugaudit.ResultStore.Registry.Outcome.{
  IsValid, Outcome, large, no_room, entered, admit-Outcome,
}

module _ {Conn Json : Type 0} where
  unplace :
      (P : Reclaimed Conn Json → Type 0) (c : Reclaimed Conn Json) (cs : List (Reclaimed Conn Json))
      → All P (place c cs)
      → P c × All P cs
  unfolding place
  unplace P c [] h = (h.0, tt)
  unplace P c (d ∷ ds) h = elim (Bool-cases (key_le c d)) [
    | inl e ↦ (rw e at h)
    | inr e ↦
        let g : P d × All P (place c ds) = rw e at h in
        let k = unplace P c ds g.1 in (k.0, (g.0, k.1))
  ]

  unsort :
      (P : Reclaimed Conn Json → Type 0) (cs : List (Reclaimed Conn Json))
      → All P (sort_by_key cs)
      → All P cs
  unfolding sort_by_key
  unsort P [] h = tt
  unsort P (c ∷ cs) h = let k = unplace P c (sort_by_key cs) h in (k.0, unsort P cs k.1)

  abbrev pub as_candidate : ℤ → ℕ → ℕ → Entry Conn Json → Reclaimed Conn Json
  as_candidate now grace j e = record { id = j; class = class e now grace; entry = e }

  tail_of :
      (P : Reclaimed Conn Json → Type 0) (now : ℤ) (grace k : ℕ) (x : Entry Conn Json)
      (es : List (ℕ × Entry Conn Json))
      → All P (candidates now grace ((k, x) ∷ es))
      → All P (candidates now grace es)
  unfolding candidates
  tail_of P now grace k x es h = elim (Bool-cases (is_active (class x now grace))) [
    | inl a ↦ (rw a at h)
    | inr a ↦
        let g : P (as_candidate now grace k x) × All P (candidates now grace es) = rw a at h in g.1
  ]

  candidates_complete :
      (P : Reclaimed Conn Json → Type 0) (now : ℤ) (grace : ℕ) (es : List (ℕ × Entry Conn Json))
      (j : ℕ) (e : Entry Conn Json)
      → find j es ≡ some e
      → is_active (class e now grace) ≡ false
      → All P (candidates now grace es)
      → P (as_candidate now grace j e)
  unfolding candidates find
  candidates_complete P now grace [] j e f a h = absurd (ground arith)
  candidates_complete P now grace ((k, x) ∷ es) j e f a h = elim (Bool-cases (k == j)) [
    | inl b ↦
        let s : x ≡ e = cc (rw b at f) in
        let i : k ≡ j = (==_iff k j).0 b in
        let q : is_active (class x now grace) ≡ false =
          ap (λ y. is_active (class y now grace)) s ∙ a in
        let m : P (as_candidate now grace k x) × All P (candidates now grace es) = rw q at h in
        subst₂ (λ y z. P (as_candidate now grace y z)) i s m.0
    | inr b ↦ candidates_complete P now grace es j e (rw b at f) a (tail_of P now grace k x es h)
  ]

  -- What an admission reclaims: candidates of the map, each needed to make room, and each before
  -- every candidate that stays.
  pub record Chosen (bytes budget : ℕ) (now : ℤ) (grace : ℕ) (r : Registry Conn Json)
      (out : List (Reclaimed Conn Json)) : Type 0 where
    pub standing : All (IsBacked now grace r.entries) out
    pub needed : Needed r.admitted_bytes bytes budget out
    pub ordered : Ordered out
    pub first :
        (j : ℕ) (e : Entry Conn Json)
        → find j r.entries ≡ some e
        → is_active (class e now grace) ≡ false
        → among j out ≡ false
        → All (λ c. Before c (record { id = j; class = class e now grace; entry = e })) out

  -- `ChosenWell` of a refusal says nothing: nothing was reclaimed.
  abbrev pub ChosenWell : ℕ → ℕ → ℤ → ℕ → Registry Conn Json → Admission Conn Json → Type 0
  ChosenWell bytes budget now grace r (refused _ _) = Unit
  ChosenWell bytes budget now grace r (admitted out) = Chosen bytes budget now grace r out

  -- A candidate that is not taken comes after all that are.
  Behind : List (Reclaimed Conn Json) → Reclaimed Conn Json → Type 0
  Behind taken x = (among x.id taken ≡ true) ⊎ All (λ c. key_le c x ≡ true) taken

  among-All : (cs : List (Reclaimed Conn Json)) → All (λ x. among x.id cs ≡ true) cs
  among-All [] = tt
  among-All (c ∷ cs) =
      (rw ((==_iff c.id c.id).1 refl), All-mono _ _ cs (λ x h. ground arith) (among-All cs))

  left_behind :
      (taken left : List (Reclaimed Conn Json))
      → Sorted (taken ++ left)
      → All (λ x. All (λ c. key_le c x ≡ true) taken) left
  left_behind [] left s = All-of left (λ x. tt)
  left_behind (c ∷ cs) left s =
      All-both _ _ left (All-right _ cs left s.0) (left_behind cs left s.1)

  All-Behind :
      (taken left : List (Reclaimed Conn Json))
      → Sorted (taken ++ left)
      → All (Behind taken) (taken ++ left)
  unfolding Behind
  All-Behind taken left s =
      All-append _ taken left (All-mono _ _ taken (λ x h. inl h) (among-All taken))
        (All-mono _ _ left (λ x h. inr h) (left_behind taken left s))

  Sorted-part : (taken left : List (Reclaimed Conn Json)) → Sorted (taken ++ left) → Sorted taken
  Sorted-part [] left s = tt
  Sorted-part (c ∷ cs) left s = (All-left _ cs left s.0, Sorted-part cs left s.1)

  not_taken :
      (taken : List (Reclaimed Conn Json)) (x : Reclaimed Conn Json)
      → among x.id taken ≡ false
      → Behind taken x
      → All (λ c. key_le c x ≡ true) taken
  unfolding Behind
  not_taken taken x n (inl a) = absurd (false≢true (sym n ∙ a))
  not_taken taken x n (inr a) = a

  Outcome-Chosen :
      (id : ℕ) (entry : Entry Conn Json) (budget : ℕ) (now : ℤ) (grace : ℕ) (r : Registry Conn Json)
      {res : Registry Conn Json × Admission Conn Json}
      → Distinct r.entries
      → Outcome id entry budget now grace r res
      → ChosenWell entry.bytes budget now grace r res.1
  Outcome-Chosen id entry budget now grace r d (large s _ _ _) = tt
  Outcome-Chosen id entry budget now grace r d (no_room s _ _ _ _) = tt
  Outcome-Chosen id entry budget now grace r d (entered taken left s _ _ g n _ _) =
      let sorted : Sorted (taken ++ left) =
        subst Sorted g (sort-Sorted (candidates now grace r.entries)) in
      let backed : All (IsBacked now grace r.entries) taken = All-left _ taken left (
        subst (All (IsBacked now grace r.entries)) g
          (All-sort _ _ (candidates-IsBacked now grace r.entries d))) in
      let spare : All Spare taken = All-mono _ _ taken (λ c b. b.spare) backed in
      record {
        standing = backed;
        needed = n;
        ordered = Sorted-Ordered taken spare (Sorted-part taken left sorted);
        first = λ j e f a m.
            All-mono _ _ taken (λ c x. key_le-Before c (as_candidate now grace j e) x.0 a x.1)
              (All-both _ _ taken spare (
                not_taken taken (as_candidate now grace j e) m (
                  candidates_complete (Behind taken) now grace r.entries j e f a (
                    unsort (Behind taken) _
                      (subst (All (Behind taken)) (sym g) (All-Behind taken left sorted))))));
      }

  -- With a valid registry and a budget below the largest `u64`: what an admission reclaims was
  -- stored and not active, was needed to make room (before each removal the result did not fit), is
  -- handed back in order, and comes before every reclaimable result that stays: a delivered result
  -- before an idle one, and of two of the same class the one that was served less recently or, at the
  -- same time, registered first.
  pub admit-ChosenWell :
      (id : ℕ) (entry : Entry Conn Json) (budget : ℕ) (now : ℤ) (grace : ℕ) (r : Registry Conn Json)
      → IsValid budget r
      → budget < u64_max
      → ChosenWell entry.bytes budget now grace r (admit id entry budget now grace r).1
  admit-ChosenWell id entry budget now grace r v top =
      Outcome-Chosen id entry budget now grace r v.distinct
        (admit-Outcome id entry budget now grace r v top)
