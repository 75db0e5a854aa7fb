-- ===== src/Diff/Retries.antt =====
-- Which files a publish reads again although they did not change.
use slugaudit.Base.{text_eq, text_eq_sound, text_in}
use slugaudit.Base.{
  sym, ℕ, ◌≡◌, refl, ap, ◌∙◌, inl, inr, Bool, true, false, not, ◌&&◌, List, [], ◌∷◌, ◌++◌, map,
  if◌then◌else◌, filter, Bool-cases,
}
use slugaudit.Diff.{ChangeStatus, modified, FileChange, add_load_failed_retries}
use slugaudit.Diff.Status.{statuses_at, at_append, at_sort}

abbrev path_of : List ℕ × List ℕ → List ℕ
path_of e = e.0

abbrev retry : List ℕ × List ℕ → FileChange
retry e = record { relative_path = e.0; status = modified }

-- One modification for each listing of the path.
abbrev pub listings : List ℕ → List (List ℕ × List ℕ) → List ChangeStatus
listings p [] = []
listings p (e ∷ current) =
    let rest = listings p current in if text_eq e.0 p then modified ∷ rest else rest

at_retries :
    (p : List ℕ) (picked : List ℕ → Bool) (current : List (List ℕ × List ℕ))
    → statuses_at p (map retry (filter (λ (e : List ℕ × List ℕ). picked e.0) current))
      ≡ (if picked p then listings p current else [])
at_retries p picked [] = elim (Bool-cases (picked p)) [ inl g ↦ rw g refl | inr g ↦ rw g refl ]
at_retries p picked (e ∷ current) = elim (Bool-cases (text_eq e.0 p)) [
  | inl h ↦
      let same : picked e.0 ≡ picked p = ap picked (text_eq_sound e.0 p h) in
      elim (Bool-cases (picked p)) [
        | inl g ↦
            let k : picked e.0 ≡ true = same ∙ g in rw (k, h, at_retries p picked current, g) refl
        | inr g ↦
            let k : picked e.0 ≡ false = same ∙ g in rw (k, at_retries p picked current, g) refl
      ]
  | inr h ↦ elim (Bool-cases (picked e.0)) [
    | inl g ↦ rw (g, h) (at_retries p picked current)
    | inr g ↦ rw (g, h) (at_retries p picked current)
  ]
]

abbrev pub is_changed : List ChangeStatus → Bool
is_changed [] = false
is_changed (s ∷ ss) = true

text_in-statuses_at :
    (p : List ℕ) (changes : List FileChange)
    → text_in p (map FileChange.relative_path changes) ≡ is_changed (statuses_at p changes)
text_in-statuses_at p [] = refl
text_in-statuses_at p (c ∷ changes) = elim (Bool-cases (text_eq c.relative_path p)) [
  | inl h ↦ rw h refl
  | inr h ↦ rw h (text_in-statuses_at p changes)
]

-- A retry leaves every change as it is. A path that has no change and whose grammar failed to load gets
-- a modification for each of its listings on disk; no other path gets one.
pub statuses_at-retries :
    (p : List ℕ) (changes : List FileChange) (current : List (List ℕ × List ℕ))
    (load_failed : List (List ℕ))
    → statuses_at p (add_load_failed_retries changes current load_failed)
      ≡ statuses_at p changes
        ++ (if text_in p load_failed && not (is_changed (statuses_at p changes))
            then listings p current
            else [])
unfolding add_load_failed_retries
statuses_at-retries p changes current [] = sym (append_nil (statuses_at p changes))
  where
    append_nil : (xs : List ChangeStatus) → xs ++ [] ≡ xs
    append_nil [] = refl
    append_nil (x ∷ xs) = ap (◌∷◌ x) (append_nil xs)
statuses_at-retries p changes current (q ∷ load_failed) =
    let already : List (List ℕ) = map FileChange.relative_path changes in
    let picked : List ℕ → Bool = λ x. text_in x (q ∷ load_failed) && not (text_in x already) in
    let retries = map retry (filter (λ (e : List ℕ × List ℕ). picked e.0) current) in
    at_sort p (changes ++ retries)
    ∙ at_append p changes retries
    ∙ ap (λ ss. statuses_at p changes ++ ss) (at_retries p picked current)
    ∙ ap
        (λ b.
          statuses_at p changes
          ++ (if text_in p (q ∷ load_failed) && not b then listings p current else []))
        (text_in-statuses_at p changes)
