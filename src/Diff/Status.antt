-- ===== src/Diff/Status.antt =====
-- What a comparison says of each path.
use slugaudit.Base.{text_eq, text_eq_sound, apart}
use slugaudit.Base.{
  ℕ, ◌≡◌, refl, ap, subst, ◌∙◌, inl, inr, true, false, Option, none, some, List, [], ◌∷◌, ◌++◌,
  if◌then◌else◌, Bool-cases,
}
use slugaudit.Diff.{
  ChangeStatus, added, modified, deleted, FileChange, path_le, Map, get, cons_change,
  against_stored, against_current, current_changes, stored_changes, place_change, sort_changes,
  compare, collect_onto,
}
use slugaudit.Diff.Paths.{not_le-neq}
use slugaudit.Diff.Maps.{Distinct, collect-Distinct, last_hash, get-collect}

-- The statuses of the changes of a path, in order.
abbrev pub statuses_at : List ℕ → List FileChange → List ChangeStatus
statuses_at p [] = []
statuses_at p (c ∷ changes) =
    let rest = statuses_at p changes in if text_eq c.relative_path p then c.status ∷ rest else rest

-- What the hashes on both sides say, the stored one first.
abbrev pub expected : Option (List ℕ) → Option (List ℕ) → List ChangeStatus
expected none none = []
expected none (some current) = added ∷ []
expected (some stored) none = deleted ∷ []
expected (some stored) (some current) = if text_eq stored current then [] else modified ∷ []

abbrev listed : Option ChangeStatus → List ChangeStatus
listed none = []
listed (some s) = s ∷ []

pub at_append :
    (p : List ℕ) (xs ys : List FileChange)
    → statuses_at p (xs ++ ys) ≡ statuses_at p xs ++ statuses_at p ys
at_append p [] ys = refl
at_append p (c ∷ xs) ys = elim (Bool-cases (text_eq c.relative_path p)) [
  | inl h ↦ rw h (ap (◌∷◌ c.status) (at_append p xs ys))
  | inr h ↦ rw h (at_append p xs ys)
]

swapped :
    (p : List ℕ) (c d : FileChange) (o : List ChangeStatus)
    → text_eq c.relative_path d.relative_path ≡ false
    → (let rest = if text_eq c.relative_path p then c.status ∷ o else o in
        if text_eq d.relative_path p then d.status ∷ rest else rest)
      ≡ (let rest = if text_eq d.relative_path p then d.status ∷ o else o in
          if text_eq c.relative_path p then c.status ∷ rest else rest)
swapped p c d o n = elim (Bool-cases (text_eq c.relative_path p)) [
  | inl h ↦ let k = apart c.relative_path d.relative_path p n h in rw (h, k) refl
  | inr h ↦ rw h refl
]

at_place :
    (p : List ℕ) (c : FileChange) (changes : List FileChange)
    → statuses_at p (place_change c changes) ≡ statuses_at p (c ∷ changes)
unfolding place_change
at_place p c [] = refl
at_place p c (d ∷ changes) = elim (Bool-cases (path_le c.relative_path d.relative_path)) [
  | inl h ↦ rw h refl
  | inr h ↦
      rw (h, at_place p c changes)
        (swapped p c d (statuses_at p changes) (not_le-neq c.relative_path d.relative_path h))
]

pub at_sort :
    (p : List ℕ) (changes : List FileChange)
    → statuses_at p (sort_changes changes) ≡ statuses_at p changes
unfolding sort_changes
at_sort p [] = refl
at_sort p (c ∷ changes) = at_place p c (sort_changes changes) ∙ rw (at_sort p changes) refl

at_cons :
    (p k : List ℕ) (o : Option ChangeStatus) (changes : List FileChange)
    → text_eq k p ≡ false
    → statuses_at p (cons_change k o changes) ≡ statuses_at p changes
at_cons p k none changes h = refl
at_cons p k (some s) changes h = rw h refl

at_head :
    (p k : List ℕ) (o : Option ChangeStatus) (changes : List FileChange)
    → text_eq k p ≡ true
    → statuses_at p changes ≡ []
    → statuses_at p (cons_change k o changes) ≡ listed o
at_head p k none changes h n = n
at_head p k (some s) changes h n = rw (h, n) refl

abbrev stored_side : Option (List ℕ) → Option (List ℕ) → List ChangeStatus
stored_side none current = []
stored_side (some s) current = listed (against_current current)

abbrev current_side : Option (List ℕ) → Option (List ℕ) → List ChangeStatus
current_side stored none = []
current_side stored (some c) = listed (against_stored stored c)

at_current :
    (p : List ℕ) (stored current : Map)
    → Distinct current
    → statuses_at p (current_changes stored current) ≡ current_side (get p stored) (get p current)
unfolding current_changes get
at_current p stored [] d = refl
at_current p stored ((k, v) ∷ current) d = elim (Bool-cases (text_eq k p)) [
  | inl h ↦
      let s = text_eq_sound k p h in
      let n : get p current ≡ none = subst (λ x. get x current ≡ none) s d.0 in
      rw h (
        at_head p k (against_stored (get k stored) v) (current_changes stored current) h
          (at_current p stored current d.1 ∙ ap (current_side (get p stored)) n)
        ∙ ap (λ x. listed (against_stored (get x stored) v)) s)
  | inr h ↦ rw h (
      at_cons p k (against_stored (get k stored) v) (current_changes stored current) h
      ∙ at_current p stored current d.1)
]

at_stored :
    (p : List ℕ) (current stored : Map)
    → Distinct stored
    → statuses_at p (stored_changes current stored) ≡ stored_side (get p stored) (get p current)
unfolding stored_changes get
at_stored p current [] d = refl
at_stored p current ((k, v) ∷ stored) d = elim (Bool-cases (text_eq k p)) [
  | inl h ↦
      let s = text_eq_sound k p h in
      let n : get p stored ≡ none = subst (λ x. get x stored ≡ none) s d.0 in
      rw h (
        at_head p k (against_current (get k current)) (stored_changes current stored) h
          (at_stored p current stored d.1 ∙ ap (λ o. stored_side o (get p current)) n)
        ∙ ap (λ x. listed (against_current (get x current))) s)
  | inr h ↦ rw h (
      at_cons p k (against_current (get k current)) (stored_changes current stored) h
      ∙ at_stored p current stored d.1)
]

sides : (s c : Option (List ℕ)) → current_side s c ++ stored_side s c ≡ expected s c
sides none none = refl
sides (some s) none = refl
sides none (some c) = refl
sides (some s) (some c) = elim (Bool-cases (text_eq s c)) [ inl h ↦ rw h refl | inr h ↦ rw h refl ]

-- A comparison gives each path exactly the changes that its last hash on both sides says: one addition
-- without a stored hash, one deletion without a current one, one modification when they differ, and
-- no change when they agree or the path is on neither side.
pub statuses_at-compare :
    (p : List ℕ) (stored current : List (List ℕ × List ℕ))
    → statuses_at p (compare stored current)
      ≡ expected (last_hash p none stored) (last_hash p none current)
unfolding compare get
statuses_at-compare p stored current =
    let s = collect_onto [] stored in
    let c = collect_onto [] current in
    rw
      (
        at_sort p (current_changes s c ++ stored_changes c s),
        at_append p (current_changes s c) (stored_changes c s),
        at_current p s c (collect-Distinct [] current tt),
        at_stored p c s (collect-Distinct [] stored tt),
        sides (get p s) (get p c),
        get-collect p [] stored,
        get-collect p [] current,
      )
      refl
