-- ===== src/ResultStore/Owner.antt =====
-- src/store/result_store/owner.rs, the startup sweep: the files of owners that are gone are removed.
-- A file is its name, as bytes. What the file system answers during the sweep is a parameter; the
-- sweep's state has, beside its outcome, the names for which it called `remove_file`.
pub mod Safety
use slugaudit.Base.{
  ℕ, zero, suc, ◌+◌, ◌-◌, ◌*◌, ◌/◌, ◌%◌, ◌^◌, ◌≤◌, ◌<◌, min, max, ◌≡◌, refl, sym, ap, subst, ◌∙◌,
  fun_ext, ◌≢◌, ◌↔◌, ◌⊎◌, inl, inr, Bool, true, false, not, ◌&&◌, ◌||◌, Option, none, some, List,
  [], ◌∷◌, ◌++◌, map, String, arith, ltb, leb, ◌==◌, ==_iff, if◌then◌else◌, ℤ, pos, negsuc,
  pos_part, neg_part, leb_ℤ, ◌≤ℤ◌, sub_ℕ, length, length-append, get_elem?, take, drop, filter, any,
  all, add64, sub64, u64_mod, i64_max, saturating_add, Result, ok, err, ok_or, ◌>>=◌, Result-cases,
  bind_ok, is_utf8, saturating_mul, All, All-append, All-mono, All-left, All-right, All-of,
  All-both, Bool-cases, Option-cases, u64_max, Text, text_eq, text_eq_sound, text_eq_refl, apart,
  text_in, strip_prefix, strip_prefix_sound, split_from, split, join, Without, split-append,
  split-alone, join-split, leb→le, le→leb, leb-false, str_eq, eq_iff,
}
use slugaudit.ResultStore.Cursor.{Uuids, canonical_uuid}
use slugaudit.ResultStore.Service.{SweepOutcome}

-- `OpenOptions::open` of a lock file.
pub data Opened : Type 0 where
  opened missing : Opened
  failing : String → Opened

pub data TryLock : Type 0 where
  locked would_block : TryLock
  failing : String → TryLock

pub data Removal : Type 0 where
  removed missing : Removal
  failing : String → Removal

pub record DirEntry : Type 0 where
  pub file_type : Result String Bool
  pub file_name : Option Text

-- `symlink_metadata` of a path: only the kind `NotFound` of an error is told apart.
pub data Metadata : Type 0 where
  present not_found : Metadata
  failing : String → Metadata

-- `describe` is the text of `{context}: {error}`.
pub record FileSystem : Type 0 where
  pub read_dir : Result String (List (Result String DirEntry))
  pub open_lock : Text → Opened
  pub try_lock : Text → TryLock
  pub remove_file : Text → Removal
  pub symlink_metadata : Text → Metadata
  pub describe : String → String → String

pub record Sweep : Type 0 where
  pub outcome : SweepOutcome
  pub calls : List Text

abbrev pub nothing_swept : Sweep
nothing_swept = record {
  outcome = record { removed_files = 0; live_owners_skipped = 0; errors = 0; first_error = none };
  calls = [];
}

-- The file name without its last bytes, where they are the suffix.
unfoldable pub strip_suffix : Text → Text → Option Text
unfolding text_eq
strip_suffix suffix [] = if text_eq [] suffix then some [] else none
strip_suffix suffix (c ∷ cs) =
    let rest : Option Text = elim (strip_suffix suffix cs) [
      | none ↦ none
      | some t ↦ some (c ∷ t)
    ] in
    if text_eq (c ∷ cs) suffix then some [] else rest

abbrev pub dot_lock : Text
dot_lock = b'.' ∷ b'l' ∷ b'o' ∷ b'c' ∷ b'k' ∷ []

abbrev pub dot_db : Text
dot_db = b'.' ∷ b'd' ∷ b'b' ∷ []

abbrev pub or_first : Option String → String → Option String
or_first (some e) message = some e
or_first none message = some message

-- The lock files and the result files of a listing, each with its session.
pub record Listed : Type 0 where
  pub locks : List (ℕ × Text)
  pub dbs : List (ℕ × Text)

module _ (u : Uuids) where
  unfoldable pub parse_lock : Text → Option ℕ
  unfolding strip_suffix canonical_uuid
  parse_lock name = elim (strip_suffix dot_lock name) [
    | none ↦ none
    | some stem ↦ canonical_uuid u stem
  ]

  -- The rest of a result's stem: a hyphen and the result's identifier.
  abbrev pub names_result : Text → Bool
  names_result [] = false
  names_result (c ∷ cs) = elim (canonical_uuid u cs) [ none ↦ false | some id ↦ c == b'-' ]

  unfoldable pub parse_stem : Text → Option ℕ
  unfolding canonical_uuid
  parse_stem stem =
      if ltb (length stem) 36
      then none
      else if names_result (drop 36 stem)
      then canonical_uuid u (take 36 stem)
      else none

  unfoldable pub parse_db : Text → Option ℕ
  unfolding strip_suffix parse_stem
  parse_db name = elim (strip_suffix dot_db name) [ none ↦ none | some stem ↦ parse_stem stem ]

module _ (fs : FileSystem) where
  abbrev pub failed : String → String → Sweep → Sweep
  failed context error s = record s {
    outcome = record (s.outcome) {
      errors = add64 s.outcome.errors 1;
      first_error = or_first s.outcome.first_error (fs.describe context error);
    };
  }

  abbrev pub count_removal : String → Removal → Sweep → Sweep
  count_removal context removed s = record s {
    outcome = record (s.outcome) { removed_files = add64 s.outcome.removed_files 1 };
  }
  count_removal context Removal.missing s = s
  count_removal context (Removal.failing error) s = failed context error s

  -- `SweepOutcome::remove`.
  unfoldable pub remove : Text → String → Sweep → Sweep
  remove path context s =
      count_removal context (fs.remove_file path) (record s { calls = s.calls ++ path ∷ [] })

  unfoldable pub remove_owned : ℕ → List (ℕ × Text) → Sweep → Sweep
  unfolding remove
  remove_owned session [] s = s
  remove_owned session ((owner, path) ∷ dbs) s =
      remove_owned session dbs
        (if owner == session then remove path "remove a dead owner's result file" s else s)

  abbrev pub sweep_locked : ℕ → Text → List (ℕ × Text) → TryLock → Sweep → Sweep
  sweep_locked session lock_path dbs locked s =
      remove lock_path "remove a dead owner's lock file" (remove_owned session dbs s)
  sweep_locked session lock_path dbs would_block s = record s {
    outcome = record (s.outcome) { live_owners_skipped = add64 s.outcome.live_owners_skipped 1 };
  }
  sweep_locked session lock_path dbs (TryLock.failing error) s =
      failed "lock another session's lock" error s

  abbrev pub sweep_opened : ℕ → Text → List (ℕ × Text) → Opened → Sweep → Sweep
  sweep_opened session lock_path dbs opened s =
      sweep_locked session lock_path dbs (fs.try_lock lock_path) s
  sweep_opened session lock_path dbs Opened.missing s = s
  sweep_opened session lock_path dbs (Opened.failing error) s =
      failed "open another session's lock" error s

  unfoldable pub sweep_owner : ℕ → Text → List (ℕ × Text) → Sweep → Sweep
  unfolding remove_owned remove
  sweep_owner session lock_path dbs s =
      sweep_opened session lock_path dbs (fs.open_lock lock_path) s

  unfoldable pub sweep_orphan : Text → Result String Bool → Sweep → Sweep
  unfolding remove
  sweep_orphan path (ok false) s = remove path "remove an orphaned result file" s
  sweep_orphan path (ok true) s = s
  sweep_orphan path (err error) s = failed "check for a lock before removing a result file" error s

  unfoldable pub sweep_owners : ℕ → List (ℕ × Text) → List (ℕ × Text) → Sweep → Sweep
  unfolding sweep_owner
  sweep_owners own dbs [] s = s
  sweep_owners own dbs ((session, lock_path) ∷ locks) s =
      sweep_owners own dbs locks (if session == own then s else sweep_owner session lock_path dbs s)

module _ (u : Uuids) (fs : FileSystem) where
  unfoldable pub lock_presence : Metadata → Result String Bool
  lock_presence present = ok true
  lock_presence not_found = ok false
  lock_presence (Metadata.failing error) = err error

  unfoldable pub lock_exists : ℕ → Result String Bool
  unfolding lock_presence
  lock_exists session = lock_presence (fs.symlink_metadata (u.hyphenated session ++ dot_lock))

  unfoldable pub sweep_orphans : ℕ → List (ℕ × Text) → List (ℕ × Text) → Sweep → Sweep
  unfolding sweep_orphan lock_exists
  sweep_orphans own locks [] s = s
  sweep_orphans own locks ((session, path) ∷ dbs) s = sweep_orphans own locks dbs (
      if session == own || any (λ (owner, lock_path). owner == session) locks
      then s
      else sweep_orphan fs path (lock_exists session) s)

  -- A regular file's name, in its list.
  abbrev pub list_as : Text → Option ℕ → Option ℕ → Listed → Listed
  list_as name (some session) db l = record l { locks = l.locks ++ (session, name) ∷ [] }
  list_as name none (some session) l = record l { dbs = l.dbs ++ (session, name) ∷ [] }
  list_as name none none l = l

  abbrev pub list_name : Text → Listed → Listed
  list_name name l = list_as name (parse_lock u name) (parse_db u name) l

  abbrev pub list_entry : DirEntry → Listed × Sweep → Listed × Sweep
  list_entry entry (l, s) = elim entry.file_type [
    | err error ↦ (l, failed fs "inspect a results directory entry" error s)
    | ok false ↦ (l, s)
    | ok true ↦ elim entry.file_name [ none ↦ (l, s) | some name ↦ (list_name name l, s) ]
  ]

  unfoldable pub list_all : List (Result String DirEntry) → Listed × Sweep → Listed × Sweep
  unfolding parse_lock parse_db
  list_all [] x = x
  list_all (err error ∷ entries) (l, s) =
      list_all entries (l, failed fs "read a results directory entry" error s)
  list_all (ok entry ∷ entries) x = list_all entries (list_entry entry x)

  abbrev pub sweep_listed : ℕ → Listed × Sweep → Sweep
  sweep_listed own (l, s) = sweep_orphans own l.locks l.dbs (sweep_owners fs own l.dbs l.locks s)

  abbrev pub sweep_listing : ℕ → Result String (List (Result String DirEntry)) → Sweep
  sweep_listing own (err error) = failed fs "list the results directory" error nothing_swept
  sweep_listing own (ok entries) =
      sweep_listed own (list_all entries (record { locks = []; dbs = [] }, nothing_swept))

  unfoldable pub sweep : ℕ → Sweep
  unfolding list_all sweep_owners sweep_orphans
  sweep own = sweep_listing own fs.read_dir
