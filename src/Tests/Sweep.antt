-- ===== src/Tests/Sweep.antt =====
-- A sweep by session 3 that finds the files of session 4, whose lock nobody holds.
use slugaudit.Base.{◌≡◌, refl, true, some, [], ◌∷◌, ◌++◌, String, length, Result, ok, Text, text_eq}
use slugaudit.ResultStore.Cursor.{canonical_uuid}
use slugaudit.ResultStore.Owner.{
  Opened, TryLock, Removal, DirEntry, FileSystem, Metadata, sweep, dot_lock, dot_db, list_all,
  parse_lock, parse_db, parse_stem, strip_suffix, sweep_owners, sweep_owner, sweep_orphans,
  remove_owned, remove,
}
use slugaudit.Tests.Ids.{uuids, letters}

abbrev file : Text → Result String DirEntry
file name = ok (record { file_type = ok true; file_name = some name })

abbrev disk : FileSystem
disk = record {
  read_dir = ok (
      file (letters 36 4 ++ dot_lock)
      ∷ file (letters 36 4 ++ b'-' ∷ (letters 36 9 ++ dot_db))
      ∷ []);
  open_lock = λ name. Opened.opened;
  try_lock = λ name. TryLock.locked;
  remove_file = λ name. Removal.removed;
  symlink_metadata = λ path. Metadata.present;
  describe = λ context error. context;
}

-- It removes both files.
both : length (sweep uuids disk 3).calls ≡ 2
unfolding sweep list_all parse_lock parse_db parse_stem strip_suffix canonical_uuid text_eq
    sweep_owners sweep_owner sweep_orphans remove_owned remove
both = refl
