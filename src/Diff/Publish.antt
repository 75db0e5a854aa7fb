-- ===== src/Diff/Publish.antt =====
-- src/sync/publish_diff.rs: the diff of a publish, and the records and deletions that it writes.
use slugaudit.Base.{text_eq, text_in}
use slugaudit.Base.{
  ℕ, ◌+◌, ◌≡◌, refl, inl, inr, Bool, not, Option, none, some, List, [], ◌∷◌, ◌++◌, map, String,
  if◌then◌else◌, ℤ, length, filter, sub64, Result, ok, err, ◌>>=◌, Bool-cases,
}
use slugaudit.Diff.{
  added, modified, deleted, FileChange, same_status, count_changes, compare,
  add_load_failed_retries,
}

pub record SourceIdentity : Type 0 where
  pub relative_path : List ℕ
  pub content_hash : List ℕ
  pub hash_algorithm : String

-- A discovered file that was not read.
pub record SkippedRecord : Type 0 where
  pub relative_path : List ℕ
  pub reason : String
  pub identity : SourceIdentity
  pub byte_len : Option ℕ
  pub modified_unix_seconds : Option ℤ

pub record Sample : Type 0 where
  pub relative_path : List ℕ
  pub is_binary : Bool
  pub content : Option (List ℕ)
  pub identity : SourceIdentity
  pub byte_len : ℕ
  pub modified_unix_seconds : Option ℤ

-- The failures of a diff: the budget is spent, or the failure of another step.
pub data PublishError (E : Type 0) : Type 0 where
  time_budget_exceeded : List ℕ → ℕ → PublishError E
  other : E → PublishError E

pub record Diff : Type 0 where
  pub changes : List FileChange
  pub manifest_hash : List ℕ
  pub added : ℕ
  pub modified : ℕ
  pub deleted : ℕ
  pub unchanged : ℕ

-- `Deadline::exceeded` gives the elapsed milliseconds once the budget is spent.
unfoldable pub check_deadline : {E : Type 0} → Option ℕ → Result (PublishError E) (Unit {0})
check_deadline (some elapsed) = err (time_budget_exceeded [] elapsed)
check_deadline none = ok tt

unfoldable pub current_hashes : List SourceIdentity → List SkippedRecord → List (List ℕ × List ℕ)
current_hashes identities skipped =
    map (λ i. (i.relative_path, i.content_hash)) identities
    ++ map (λ r. (r.relative_path, r.identity.content_hash)) skipped

abbrev retried : List FileChange → List (List ℕ × List ℕ) → Bool → List (List ℕ) → List FileChange
retried changes current due load_failed =
    if due then add_load_failed_retries changes current load_failed else changes

-- The database's two queries and the retry gate are given by what they return; `aggregate` is
-- `aggregate_manifest_hash`.
unfoldable pub diff_against_stored :
    {E : Type 0}
    → Option ℕ
    → Result (PublishError E) (List (List ℕ × List ℕ))
    → Result (PublishError E) Bool
    → Result (PublishError E) (List (List ℕ))
    → (List (List ℕ × List ℕ) → List ℕ)
    → List SourceIdentity
    → List SkippedRecord
    → Result (PublishError E) Diff
unfolding check_deadline current_hashes count_changes
diff_against_stored exceeded stored_hashes retry_due load_failed_paths aggregate identities
      skipped =
    do
      _ ← check_deadline exceeded
      stored ← stored_hashes
      due ← retry_due
      load_failed ← if due then load_failed_paths else ok []
      let current = current_hashes identities skipped
      let changes = retried (compare stored current) current due load_failed
      let a = count_changes changes added
      let m = count_changes changes modified
      ok (record {
        changes = changes;
        manifest_hash = aggregate current;
        added = a;
        modified = m;
        deleted = count_changes changes deleted;
        unchanged = sub64 (length identities + length skipped) (a + m);
      })

abbrev pub is_deleted : FileChange → Bool
is_deleted c = same_status c.status deleted

unfoldable pub changed_paths : List Sample → List FileChange → Bool → List (List ℕ)
changed_paths samples changes parser_version_changed =
    if parser_version_changed
    then map (λ s. s.relative_path) samples
    else map (λ c. c.relative_path) (filter (λ c. not (is_deleted c)) changes)

unfoldable pub deletions : List FileChange → List (List ℕ)
deletions changes = map (λ c. c.relative_path) (filter is_deleted changes)

-- " while processing ".
abbrev pub while_processing : List ℕ
while_processing =
    32 ∷ 119 ∷ 104 ∷ 105 ∷ 108 ∷ 101 ∷ 32 ∷ 112 ∷ 114 ∷ 111 ∷ 99 ∷ 101 ∷ 115 ∷ 115 ∷ 105 ∷ 110 ∷ 103
    ∷ 32 ∷ []

module _ {E Record : Type 0} (to_file_record : Sample → Result (PublishError E) Record) where
  -- The loop over the samples; `exceeded` is what each next check of the deadline returns.
  unfoldable pub build_upserts :
      (ℕ → Option ℕ) → ℕ → List (List ℕ) → List Sample → Result (PublishError E) (List Record)
  unfolding text_eq
  build_upserts exceeded n changed [] = ok []
  build_upserts exceeded n changed (s ∷ samples) =
      let later = build_upserts exceeded (n + 1) changed samples in
      let next = build_upserts exceeded n changed samples in
      if text_in s.relative_path changed
      then elim (exceeded n) [
        | some elapsed ↦ err (time_budget_exceeded (while_processing ++ s.relative_path) elapsed)
        | none ↦ to_file_record s >>= λ r. later >>= λ rs. ok (r ∷ rs)
      ]
      else next

  unfoldable pub build_upserts_and_deletions :
      (ℕ → Option ℕ)
      → List Sample
      → List FileChange
      → Bool
      → Result (PublishError E) (List Record × List (List ℕ))
  unfolding build_upserts changed_paths deletions
  build_upserts_and_deletions exceeded samples changes parser_version_changed =
      build_upserts exceeded 0 (changed_paths samples changes parser_version_changed) samples
      >>= λ upserts. ok (upserts, deletions changes)

  -- Where no check finds the budget spent and every analysis succeeds, a build writes the records of
  -- exactly the samples whose path changed, in their order.
  pub build_upserts-filter :
      (analyse : Sample → Record) (n : ℕ) (changed : List (List ℕ)) (samples : List Sample)
      → ((s : Sample) → to_file_record s ≡ ok (analyse s))
      → build_upserts (λ k. none) n changed samples
        ≡ ok (map analyse (filter (λ s. text_in s.relative_path changed) samples))
  unfolding build_upserts
  build_upserts-filter analyse n changed [] t = refl
  build_upserts-filter analyse n changed (s ∷ samples) t =
      elim (Bool-cases (text_in s.relative_path changed)) [
        | inl h ↦ rw (h, t s, build_upserts-filter analyse (n + 1) changed samples t) refl
        | inr h ↦ rw h (build_upserts-filter analyse n changed samples t)
      ]
