-- ===== src/ResultStore/Owner/Safety.antt =====
-- The sweep removes only what owners that are gone have left.
use slugaudit.Base.{ℕ, ◌≡◌, ◌⊎◌, false, some, ◌++◌, ◌==◌, All, Text}
use slugaudit.ResultStore.Cursor.{Uuids}
use slugaudit.ResultStore.Owner.{
  TryLock, FileSystem, not_found, dot_lock, Sweep, Listed, parse_lock, parse_db,
}

module _ (u : Uuids) (fs : FileSystem) where
  -- The name of a lock file or a result file of the session.
  abbrev pub Belongs : ℕ → Text → Type 0
  Belongs session name = (parse_lock u name ≡ some session) ⊎ (parse_db u name ≡ some session)

  -- Nobody holds the session's lock: the sweep took it from its file, or the file system does not
  -- find the file that has the session's name and the ending of a lock.
  abbrev pub Gone : ℕ → Type 0
  Gone session =
      ((lock_path : Text) × (parse_lock u lock_path ≡ some session)
        × (fs.try_lock lock_path ≡ TryLock.locked))
      ⊎ (fs.symlink_metadata (u.hyphenated session ++ dot_lock) ≡ not_found)

  -- A file that may be removed: of another session, which is gone.
  abbrev pub Leftover : ℕ → Text → Type 0
  Leftover own name =
      (session : ℕ) × ((session == own) ≡ false) × Belongs session name × Gone session

  abbrev Lock : ℕ × Text → Type 0
  Lock (session, name) = parse_lock u name ≡ some session

  abbrev Db : ℕ × Text → Type 0
  Db (session, name) = parse_db u name ≡ some session

  abbrev Safe : ℕ → Sweep → Type 0
  Safe own s = All (Leftover own) s.calls

  -- What the listing collects.
  record Collected (own : ℕ) (x : Listed × Sweep) : Type 0 where
    pub locks_named : All Lock x.0.locks
    pub dbs_named : All Db x.0.dbs
    pub safe : Safe own x.1
