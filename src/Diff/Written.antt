-- ===== src/Diff/Written.antt =====
-- What a publish of a comparison writes and deletes.
use slugaudit.Base.{
  ℕ, ◌≡◌, refl, ap, ◌∙◌, inl, inr, Bool, true, false, not, ◌||◌, Option, none, some, List, [], ◌∷◌,
  map, arith, filter, any, Result, ok, All, All-mono, All-of, Bool-cases, text_eq, text_eq_refl,
  text_in,
}
use slugaudit.Diff.{deleted, ChangeStatus, FileChange, same_status, compare}
use slugaudit.Diff.Maps.{last_hash}
use slugaudit.Diff.Status.{statuses_at, expected, statuses_at-compare}
use slugaudit.Diff.Publish.{
  Sample, PublishError, changed_paths, deletions, build_upserts_and_deletions, build_upserts-filter,
}

filter-eq :
    {A : Type 0} (f g : A → Bool) (xs : List A)
    → All (λ x. f x ≡ g x) xs
    → filter f xs ≡ filter g xs
filter-eq f g [] h = refl
filter-eq f g (x ∷ xs) h = rw (h.0, filter-eq f g xs h.1) refl

-- A path is among those of the picked changes exactly when one of its statuses is picked.
text_in-picked :
    (pick : ChangeStatus → Bool) (p : List ℕ) (changes : List FileChange)
    → text_in p (
        map
          (λ (c : FileChange). c.relative_path)
          (filter (λ (c : FileChange). pick c.status) changes))
      ≡ any pick (statuses_at p changes)
text_in-picked pick p [] = refl
text_in-picked pick p (c ∷ changes) = elim (Bool-cases (text_eq c.relative_path p)) [
  | inl h ↦ elim (Bool-cases (pick c.status)) [
    | inl g ↦ rw (g, h, g) refl
    | inr g ↦ rw (g, h, g) (text_in-picked pick p changes)
  ]
  | inr h ↦ elim (Bool-cases (pick c.status)) [
    | inl g ↦ rw (g, h) (text_in-picked pick p changes)
    | inr g ↦ rw (g, h) (text_in-picked pick p changes)
  ]
]

-- The hashes say that the file is new or another.
abbrev pub differs : Option (List ℕ) → Option (List ℕ) → Bool
differs stored none = false
differs none (some current) = true
differs (some stored) (some current) = not (text_eq stored current)

abbrev pub is_gone : Option (List ℕ) → Option (List ℕ) → Bool
is_gone (some stored) none = true
is_gone _ _ = false

expected-differs :
    (s c : Option (List ℕ)) → any (λ x. not (same_status x deleted)) (expected s c) ≡ differs s c
expected-differs none none = refl
expected-differs none (some c) = refl
expected-differs (some s) none = refl
expected-differs (some s) (some c) = elim (Bool-cases (text_eq s c)) [
  | inl h ↦ rw h refl
  | inr h ↦ rw h refl
]

expected-is_gone :
    (s c : Option (List ℕ)) → any (λ x. same_status x deleted) (expected s c) ≡ is_gone s c
expected-is_gone none none = refl
expected-is_gone none (some c) = refl
expected-is_gone (some s) none = refl
expected-is_gone (some s) (some c) = elim (Bool-cases (text_eq s c)) [
  | inl h ↦ rw h refl
  | inr h ↦ rw h refl
]

abbrev path_of : Sample → List ℕ
path_of s = s.relative_path

sampled :
    (samples : List Sample) → All (λ s. text_in (path_of s) (map path_of samples) ≡ true) samples
sampled [] = tt
sampled (s ∷ samples) = (
  rw (text_eq_refl (path_of s)) refl,
  All-mono _ _ samples (λ x h. ground arith) (sampled samples),
)

-- What a sample's path says of it.
abbrev pub is_written : Bool → List (List ℕ × List ℕ) → List (List ℕ × List ℕ) → Sample → Bool
is_written parser_version_changed stored current s =
    parser_version_changed
    || differs (last_hash s.relative_path none stored) (last_hash s.relative_path none current)

changed_paths-is_written :
    (parser : Bool) (stored current : List (List ℕ × List ℕ)) (samples : List Sample)
    → filter
        (λ s. text_in s.relative_path (changed_paths samples (compare stored current) parser))
        samples
      ≡ filter (is_written parser stored current) samples
unfolding changed_paths
changed_paths-is_written true stored current samples = filter-eq _ _ samples (sampled samples)
changed_paths-is_written false stored current samples = filter-eq _ _ samples (
    All-of samples (λ s.
      text_in-picked (λ x. not (same_status x deleted)) s.relative_path (compare stored current)
      ∙ ap (any (λ x. not (same_status x deleted)))
          (statuses_at-compare s.relative_path stored current)
      ∙ expected-differs _ _))

-- Where no check finds the deadline passed and every analysis succeeds, a publish of the comparison of
-- the stored revision with the tree gives, in their order, the records of exactly the samples whose last
-- hash in the tree is new or another than the stored one (all samples after a parser change), and
-- deletes exactly the paths that are stored and not in the tree.
pub build_upserts_and_deletions-compare :
    {E Record : Type 0} (to_file_record : Sample → Result (PublishError E) Record)
    (analyse : Sample → Record) (samples : List Sample) (stored current : List (List ℕ × List ℕ))
    (parser_version_changed : Bool)
    → ((s : Sample) → to_file_record s ≡ ok (analyse s))
    → (gone : List (List ℕ)) × (build_upserts_and_deletions to_file_record
          (λ k. none)
          samples
          (compare stored current)
          parser_version_changed
        ≡ ok
            (map analyse (filter (is_written parser_version_changed stored current) samples), gone))
      × ((p : List ℕ)
          → text_in p gone ≡ is_gone (last_hash p none stored) (last_hash p none current))
unfolding build_upserts_and_deletions deletions
build_upserts_and_deletions-compare to_file_record analyse samples stored current parser t =
    let changes = compare stored current in
    (
      deletions changes,
      rw
          (
            build_upserts-filter to_file_record analyse 0 (changed_paths samples changes parser)
                samples t,
            changed_paths-is_written parser stored current samples,
          )
          refl,
      λ p.
          text_in-picked (λ x. same_status x deleted) p changes
          ∙ ap (any (λ x. same_status x deleted)) (statuses_at-compare p stored current)
          ∙ expected-is_gone _ _,
    )
