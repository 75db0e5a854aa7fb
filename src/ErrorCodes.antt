-- ===== src/ErrorCodes.antt =====
-- src/error_codes.rs: the closed set of wire error codes, their payloads, and the mapping of the result
-- store's failures. `ErrorData` is rmcp's error, here its kind and its `data`; the messages for people
-- (`Display` of the errors) are left out.
pub mod Codes
use slugaudit.Base.{
  ℕ, zero, suc, ◌+◌, ◌-◌, ◌*◌, ◌/◌, ◌%◌, ◌^◌, ◌≤◌, ◌<◌, min, max, ◌≡◌, refl, sym, ap, subst, ◌∙◌,
  fun_ext, ◌≢◌, ◌↔◌, ◌⊎◌, inl, inr, Bool, true, false, not, ◌&&◌, ◌||◌, Option, none, some, List,
  [], ◌∷◌, ◌++◌, map, String, arith, ltb, leb, ◌==◌, ==_iff, if◌then◌else◌, ℤ, pos, negsuc,
  pos_part, neg_part, leb_ℤ, ◌≤ℤ◌, sub_ℕ, length, length-append, get_elem?, take, drop, filter, any,
  all, add64, sub64, u64_mod, i64_max, saturating_add, Result, ok, err, ok_or, ◌>>=◌, Result-cases,
  is_utf8, saturating_mul, All, All-append, All-mono, All-left, All-right, All-of, All-both,
  Bool-cases, Option-cases, u64_max, Text, text_eq, text_eq_sound, text_eq_refl, apart, text_in,
  strip_prefix, strip_prefix_sound, split_from, split, join, Without, split-append, split-alone,
  join-split, leb→le, le→leb, leb-false, str_eq, eq_iff,
}
use slugaudit.ResultStore.Cell.{StoreError}

pub data ErrorCode : Type 0 where
  sync_budget_exhausted project_not_enabled stale_revision unknown_mechanic sql_too_large
        file_not_indexed mechanic_budget_exhausted sql_error unknown_language unknown_cursor
        result_expired result_store_full result_too_large result_store_unavailable
        paging_parameter_removed :
      ErrorCode

unfoldable pub as_str : ErrorCode → String
as_str sync_budget_exhausted = "sync_budget_exhausted"
as_str project_not_enabled = "project_not_enabled"
as_str stale_revision = "stale_revision"
as_str unknown_mechanic = "unknown_mechanic"
as_str sql_too_large = "sql_too_large"
as_str file_not_indexed = "file_not_indexed"
as_str mechanic_budget_exhausted = "mechanic_budget_exhausted"
as_str sql_error = "sql_error"
as_str unknown_language = "unknown_language"
as_str unknown_cursor = "unknown_cursor"
as_str result_expired = "result_expired"
as_str result_store_full = "result_store_full"
as_str result_too_large = "result_too_large"
as_str result_store_unavailable = "result_store_unavailable"
as_str paging_parameter_removed = "paging_parameter_removed"

unfoldable pub remedy : ErrorCode → String
remedy sync_budget_exhausted =
    "a permanent limit, not a transient failure — retrying unchanged fails identically; raise SLUGAUDIT_MAX_SYNC_WALL_CLOCK_SECS (seconds), or run SLUGAUDIT_PROFILE=audit (1200 s) instead of the lean profile (120 s)"
remedy project_not_enabled =
    "call project_control with {\"action\":\"on\",\"path\":\"<project directory>\"} to create .planning/slugaudit and index the project"
remedy stale_revision =
    "retry the call — the sync in front of it re-reads the index and pins the new revision"
remedy unknown_mechanic =
    "call leads with only `path` to list every valid mechanic id with its count, then retry with one of them"
remedy sql_too_large = "shorten the SQL, or raise SLUGAUDIT_MAX_QUERY_SQL_BYTES (bytes)"
remedy file_not_indexed =
    "check what is indexed with SELECT path FROM files WHERE path LIKE … — a skipped (oversize/unreadable) or binary file has no content to read"
remedy mechanic_budget_exhausted =
    "a permanent limit for this scan, not a transient failure — retrying unchanged fails identically; remove the named entry with mechanic action remove, narrow leads `pattern`, or raise SLUGAUDIT_MAX_STRUCTURE_EXECUTION_TIME_SECS (seconds)"
remedy sql_error =
    "fix the statement from SQLite's message; list tables with SELECT name FROM sqlite_master WHERE type='table', columns with SELECT name FROM pragma_table_info('<table>'), or read slugaudit://schema.sql"
remedy unknown_language =
    "retry with one of the languages the message lists as indexed in this project, spelled exactly as stored (report lists them under languages)"
remedy unknown_cursor =
    "copy the cursor exactly as returned, or repeat the request without one; a cursor does not survive a server restart"
remedy result_expired = "the result was reclaimed to make room: repeat the request without a cursor"
remedy result_store_full =
    "finish or abandon open paged reads, or narrow the request (LIMIT, filters)"
remedy result_too_large =
    "narrow the request: add LIMIT or filters; the whole result must fit the store budget"
remedy result_store_unavailable =
    "the result store cannot be used on this machine or its disk is full or unwritable; other tools keep working"
remedy paging_parameter_removed =
    "offset and expected_revision were removed; pass the cursor from the previous page's page.cursor, or omit it for a new request"

-- The JSON object that `data` holds.
pub record Payload : Type 0 where
  pub code : String
  pub remedy : String

unfoldable pub payload : ErrorCode → Option Payload
unfolding as_str remedy
payload code = some (record { code = as_str code; remedy = remedy code })

unfoldable pub budget_payload : Option ℕ → Option Payload
unfolding payload
budget_payload (some elapsed_ms) = payload sync_budget_exhausted
budget_payload none = none

-- `INVALID_PARAMS` and `INTERNAL_ERROR` of JSON-RPC.
pub data ErrorKind : Type 0 where
  invalid_params internal_error : ErrorKind

pub record ErrorData : Type 0 where
  pub kind : ErrorKind
  pub data_value : Option Payload

-- The lock's and the clock's errors become internal errors with no code.
unfoldable pub store_error : StoreError → ErrorData
unfolding payload
store_error (StoreError.unavailable context) = record {
  kind = internal_error;
  data_value = payload result_store_unavailable;
}
store_error (StoreError.full active_count) = record {
  kind = invalid_params;
  data_value = payload result_store_full;
}
store_error StoreError.too_large = record {
  kind = invalid_params;
  data_value = payload result_too_large;
}
store_error StoreError.expired = record {
  kind = invalid_params;
  data_value = payload result_expired;
}
store_error StoreError.unknown = record {
  kind = invalid_params;
  data_value = payload unknown_cursor;
}
store_error _ = record { kind = internal_error; data_value = none }
