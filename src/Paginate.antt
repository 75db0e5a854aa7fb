-- ===== src/Paginate.antt =====
-- src/tools/page.rs and src/tools/paginate.rs: the paging contract that the tools share, and the
-- continuation of a stored result by its cursor. An operation on the store takes it and gives the store
-- that it leaves. serde's reading of the stored extras and the closure `accept` are parameters; the
-- closure's own state is made from the page's context.
pub mod Serve
pub mod Follow
pub mod Answers
pub mod RoundTrip
use slugaudit.Base.{
  ℕ, zero, suc, ◌+◌, ◌-◌, ◌*◌, ◌/◌, ◌%◌, ◌^◌, ◌≤◌, ◌<◌, min, max, ◌≡◌, refl, sym, ap, subst, ◌∙◌,
  fun_ext, ◌≢◌, ◌↔◌, ◌⊎◌, inl, inr, Bool, true, false, not, ◌&&◌, ◌||◌, Option, none, some, List,
  [], ◌∷◌, ◌++◌, map, String, arith, ltb, leb, ◌==◌, ==_iff, if◌then◌else◌, ℤ, pos, negsuc,
  pos_part, neg_part, leb_ℤ, ◌≤ℤ◌, sub_ℕ, length, length-append, get_elem?, take, drop, filter, any,
  all, add64, sub64, u64_mod, i64_max, saturating_add, Result, ok, err, ok_or, ◌>>=◌, Result-cases,
  is_utf8, saturating_mul, All, All-append, All-mono, All-left, All-right, All-of, All-both,
  Bool-cases, Option-cases, u64_max, Text, text_eq, text_eq_sound, text_eq_refl, apart, text_in,
  strip_prefix, strip_prefix_sound, split_from, split, join, Without, split-append, split-alone,
  join-split, leb→le, le→leb, leb-false, str_eq, eq_iff,
}
use slugaudit.ResultStore.Entry.{ResultMeta, Entry}
use slugaudit.ResultStore.Cell.{StoreError, Float, Cell, StoredRow, Take}
use slugaudit.ResultStore.Row.{JsonMarks}
use slugaudit.ResultStore.Reader.{PageRows, read_rows}
use slugaudit.ResultStore.Cursor.{Uuids, Cursor, to_string}
use slugaudit.ResultStore.Service.{ResultStore, refuse_cursor, lookup, decode_cursor, meta_of}
use slugaudit.ResultStore.Service
use slugaudit.ResultStore.Service.Reading.{Files, PageRead, read_page}
use slugaudit.ErrorCodes.{ErrorCode, ErrorData, ErrorKind, payload, store_error}

-- `offset` and `expected_revision`, as raw JSON.
pub record LegacyPaging (Json : Type 0) : Type 0 where
  pub offset : Option Json
  pub expected_revision : Option Json

unfoldable pub refuse : {Json : Type 0} → LegacyPaging Json → Result ErrorData (Unit {0})
unfolding payload
refuse l = elim l.offset [
  | some v ↦ refused
  | none ↦ elim l.expected_revision [ some v ↦ refused | none ↦ ok tt ]
]
  where
    refused : Result ErrorData (Unit {0})
    refused = err (record {
      kind = ErrorKind.invalid_params;
      data_value = payload ErrorCode.paging_parameter_removed;
    })

pub data PageLimit : Type 0 where
  nothing limit page_bytes ceiling match_cap scan_window time_budget : PageLimit

pub data Completeness : Type 0 where
  complete : Completeness
  partial : PageLimit → Option String → ℕ → ℕ → Completeness

-- `Discard` is the sync's reason for a rebuilt database.
pub record Page (Discard : Type 0) : Type 0 where
  pub returned : ℕ
  pub total : Option ℕ
  pub complete : Bool
  pub cursor : Option Text
  pub completeness : Option Completeness
  pub page_bytes : ℕ
  pub bytes_used : ℕ
  pub limited_by : PageLimit
  pub revision_id : String
  pub database_discard : Option Discard

pub data PageRequest (Sink : Type 0) : Type 0 where
  fresh : String → Sink → PageRequest Sink
  cursor : Text → PageRequest Sink

pub record PageSpec : Type 0 where
  pub tool : String
  pub columns : List String
  pub page_bytes : ℕ
  pub requested_page_bytes : Option ℕ
  pub ceiling : ℕ

-- `PageSpec::typed`, of the columns of a row type.
abbrev pub typed : List String → String → ℕ → PageSpec
typed columns tool budget = record {
  tool = tool;
  columns = columns;
  page_bytes = budget;
  requested_page_bytes = none;
  ceiling = u64_max;
}

pub record Stored (E : Type 0) : Type 0 where
  pub completeness : Completeness
  pub extra : E
  pub page_bytes : ℕ
  pub ceiling : ℕ

pub record PageContext (E : Type 0) : Type 0 where
  pub page_bytes : ℕ
  pub at_ceiling : Bool
  pub columns : List String
  pub extra : E

pub record Served (F Discard E : Type 0) : Type 0 where
  pub rows : List (StoredRow F)
  pub page : Page Discard
  pub extra : E
  pub columns : List String
  pub at_ceiling : Bool

-- `internal_error` of src/tools/context.rs.
abbrev pub internal : ErrorData
internal = record { kind = ErrorKind.internal_error; data_value = none }

unfoldable pub page_request :
    {Sink : Type 0} → Option Text → Option String → Sink → Result ErrorData (PageRequest Sink)
page_request (some token) path sink = ok (PageRequest.cursor token)
page_request none (some path) sink = ok (fresh path sink)
page_request none none sink = err (record { kind = ErrorKind.invalid_params; data_value = none })

-- `decode_rows`, of `Materialize::from_values`.
unfoldable pub decode_rows :
    {F R : Type 0}
    → (List (Cell F) → Result StoreError R)
    → List (StoredRow F)
    → Result ErrorData (List R)
unfolding store_error
decode_rows from_values [] = ok []
decode_rows from_values (row ∷ rows) = elim (from_values row.cells) [
  | err e ↦ err (store_error e)
  | ok r ↦ decode_rows from_values rows >>= λ rs. ok (r ∷ rs)
]

-- `.map_err(|e| store_error(&e))?` on what an operation of the store returns.
abbrev pub and_then {ℓ κ μ} :
    {St : Type ℓ} {A : Type κ} {B : Type μ}
    → St × Result StoreError A
    → (St → A → St × Result ErrorData B)
    → St × Result ErrorData B
and_then (s, ok a) next = next s a
and_then (s, err e) next = (s, err (store_error e))

-- The effective budget: the requested one, clamped to the ceiling of the first page.
abbrev pub with_requested : {E : Type 0} → Option ℕ → Stored E → Stored E
with_requested none stored = stored
with_requested (some requested) stored = record stored { page_bytes = min requested stored.ceiling }

abbrev pub context_of : {E Json : Type 0} → ResultMeta Json → Stored E → PageContext E
context_of meta stored = record {
  page_bytes = stored.page_bytes;
  at_ceiling = leb stored.ceiling stored.page_bytes;
  columns = meta.columns;
  extra = stored.extra;
}

abbrev pub limit_of : Option ℕ → PageLimit
limit_of none = PageLimit.nothing
limit_of (some n) = PageLimit.page_bytes

abbrev pub is_none {ℓ} : {A : Type ℓ} → Option A → Bool
is_none none = true
is_none (some a) = false

-- The token of the next page.
abbrev pub token_of :
    {Conn Json : Type 0} → Uuids → ResultStore Conn Json → ℕ → Option ℕ → Option Text
token_of u s id none = none
token_of u s id (some ord) = some (to_string u (Service.cursor s id ord))

module _ (u : Uuids) (f : Float) (j : JsonMarks) (files : Files f.F) {Json E S Discard : Type 0}
    (from_value : Json → Option (Stored E)) (accept : S → StoredRow f.F → S × Take)
    (accept_for : PageContext E → S) where
  abbrev pub served_page :
      ℕ → Stored E → ResultStore files.Conn Json → PageRead f.F Json → Served f.F Discard E
  served_page id stored s read = record {
    rows = read.rows;
    page = record {
      returned = length read.rows;
      total = some read.row_count;
      complete = is_none read.next_ord;
      cursor = token_of u s id read.next_ord;
      completeness = some stored.completeness;
      page_bytes = stored.page_bytes;
      bytes_used = 0;
      limited_by = limit_of read.next_ord;
      revision_id = read.meta.revision_id;
      database_discard = none;
    };
    extra = stored.extra;
    columns = read.meta.columns;
    at_ceiling = leb stored.ceiling stored.page_bytes;
  }

  unfoldable pub serve :
      ℕ
      → ℕ
      → Stored E
      → ResultMeta Json
      → Result StoreError ℤ
      → ResultStore files.Conn Json
      → ResultStore files.Conn Json × Result ErrorData (Served f.F Discard E)
  unfolding read_page store_error to_string
  serve id from_ord stored meta now s =
      and_then (read_page f j files accept id (accept_for (context_of meta stored)) from_ord now s)
        (λ s' read. (s', ok (served_page id stored s' read)))

  abbrev pub serve_stored :
      PageSpec
      → Cursor
      → ResultMeta Json
      → Result StoreError ℤ
      → ResultStore files.Conn Json
      → Option (Stored E)
      → ResultStore files.Conn Json × Result ErrorData (Served f.F Discard E)
  serve_stored spec c meta now s none = (s, err internal)
  serve_stored spec c meta now s (some stored) =
      serve c.result c.ord (with_requested spec.requested_page_bytes stored) meta now s

  -- Before any read: a read renews the result, which another tool's cursor must never do.
  abbrev pub checked :
      PageSpec
      → Cursor
      → Result StoreError ℤ
      → ResultStore files.Conn Json
      → ResultMeta Json
      → ResultStore files.Conn Json × Result ErrorData (Served f.F Discard E)
  checked spec c now s meta =
      if str_eq meta.tool spec.tool
      then serve_stored spec c meta now s (from_value meta.completeness)
      else and_then (refuse_cursor {A = Served f.F Discard E} s) (λ t served. (t, ok served))

  -- `continue_page` on the current store.
  unfoldable pub continue_page :
      PageSpec
      → Text
      → Result StoreError ℤ
      → ResultStore files.Conn Json
      → ResultStore files.Conn Json × Result ErrorData (Served f.F Discard E)
  unfolding decode_cursor meta_of refuse_cursor serve store_error
  continue_page spec token now s =
      and_then (decode_cursor u token s)
        (λ s' c. and_then (meta_of c.result s') (checked spec c now))

  -- `manager.result_stores().current()`, whose lock may be poisoned.
  unfoldable pub continue_current :
      PageSpec
      → Text
      → Result StoreError ℤ
      → Result ErrorData (Option (ResultStore files.Conn Json))
      → Result ErrorData (Option (ResultStore files.Conn Json))
        × Result ErrorData (Served f.F Discard E)
  unfolding continue_page store_error
  continue_current spec token now (err e) = (err e, err e)
  continue_current spec token now (ok none) = (ok none, err (store_error StoreError.unknown))
  continue_current spec token now (ok (some s)) =
      (ok (some (continue_page spec token now s).0), (continue_page spec token now s).1)
