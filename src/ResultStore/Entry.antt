-- ===== src/ResultStore/Entry.antt =====
-- src/store/result_store/registry.rs: one registered result and its class under space pressure.
-- A result's connection and the producer's JSON record come from SQLite and serde_json, so their
-- types are parameters. Identifiers (UUIDs) are numbers.
use slugaudit.Base.{
  ℕ, Bool, true, false, List, String, ltb, leb, if◌then◌else◌, ℤ, pos, negsuc, leb_ℤ,
  saturating_sub_i64,
}

pub data ResultClass : Type 0 where
  active idle delivered : ResultClass

abbrev pub is_active : ResultClass → Bool
is_active active = true
is_active _ = false

abbrev pub is_idle : ResultClass → Bool
is_idle idle = true
is_idle _ = false

abbrev pub is_delivered : ResultClass → Bool
is_delivered delivered = true
is_delivered _ = false

-- What a result is, written once at materialisation.
pub record ResultMeta (Json : Type 0) : Type 0 where
  pub tool : String
  pub project : String
  pub revision_id : String
  pub columns : List String
  pub completeness : Json
  pub row_count : ℕ
  pub created_unix : ℤ

pub record Entry (Conn : Type 0) (Json : Type 0) : Type 0 where
  pub conn : Conn
  pub meta : ResultMeta Json
  pub bytes : ℕ
  pub seq : ℕ
  pub last_access : ℤ
  pub delivered : Bool

-- `u64::try_from(idle_for).is_ok_and(|idle| idle > grace_secs)`.
abbrev pub outlived : ℤ → ℕ → Bool
outlived (pos n) grace_secs = ltb grace_secs n
outlived (negsuc n) grace_secs = false

module _ {Conn Json : Type 0} where
  -- `Entry::new`.
  unfoldable pub new_entry : Conn → ResultMeta Json → ℕ → ℤ → Entry Conn Json
  new_entry conn meta bytes now = record {
    conn = conn;
    meta = meta;
    bytes = bytes;
    seq = 0;
    last_access = now;
    delivered = false;
  }

  unfoldable pub class : Entry Conn Json → ℤ → ℕ → ResultClass
  class e now grace_secs =
      let idle_for = saturating_sub_i64 now e.last_access in
      if e.delivered
      then ResultClass.delivered
      else if outlived idle_for grace_secs
      then ResultClass.idle
      else ResultClass.active

  -- Serving a page renews protection; the last page marks the result delivered.
  unfoldable pub served : Entry Conn Json → ℤ → Bool → Entry Conn Json
  served e now last_page =
      if last_page
      then record e { last_access = now; delivered = true }
      else record e { last_access = now }

  -- `age_key` as the sort compares it: by last access, then by sequence number.
  abbrev pub age_key_le : Entry Conn Json → Entry Conn Json → Bool
  age_key_le a b =
      if leb_ℤ b.last_access a.last_access
      then (if leb_ℤ a.last_access b.last_access then leb a.seq b.seq else false)
      else true
