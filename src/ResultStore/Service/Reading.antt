-- ===== src/ResultStore/Service/Reading.antt =====
-- src/store/result_store/reader.rs, `read_page`: a page of a registered result.
-- What SQLite answers about a result's file is a parameter.
use slugaudit.Base.{
  String, str_eq, ◌>>=◌, ℕ, Bool, true, false, Option, none, some, List, [], ◌∷◌, ltb, ◌==◌,
  if◌then◌else◌, ℤ, length, Result, ok, err,
}
use slugaudit.ResultStore.Entry.{ResultMeta, Entry, served}
use slugaudit.ResultStore.Registry.{Registry}
use slugaudit.ResultStore.Cell.{StoreError, Float, StoredRow, Take}
use slugaudit.ResultStore.Row.{RawRow, JsonMarks}
use slugaudit.ResultStore.Reader.{PageRows, read_rows}
use slugaudit.ResultStore.Service.{ResultStore, refuse_cursor, lookup}

-- One page of a result.
pub record PageRead (F : Type 0) (Json : Type 0) : Type 0 where
  pub rows : List (StoredRow F)
  pub next_ord : Option ℕ
  pub row_count : ℕ
  pub meta : ResultMeta Json

-- What SQLite answers about the file of a result: whether its lock is poisoned, the value of a key of the
-- table `meta` as a text, and the rows from an ordinal on.
pub record Files (F : Type 0) : Type 1 where
  pub Conn : Type 0
  pub is_poisoned : Conn → Bool
  pub meta_value : String → Conn → Result StoreError (Option String)
  pub select : Conn → ℕ → List (Result StoreError (RawRow F))

abbrev is_state : String → Option String → Bool
is_state name none = false
is_state name (some state) = str_eq state name

unfoldable pub is_complete : {F : Type 0} (files : Files F) → files.Conn → Result StoreError Bool
is_complete files conn = files.meta_value "state" conn >>= λ state. ok (is_state "complete" state)

module _ {Conn Json : Type 0} where
  -- The registered entry is the one that a lookup shares: an update of it is seen in the registry.
  unfoldable pub renew : ℕ → ℤ → Bool → List (ℕ × Entry Conn Json) → List (ℕ × Entry Conn Json)
  unfolding served
  renew id now last_page [] = []
  renew id now last_page ((k, e) ∷ es) =
      (if k == id then (k, served e now last_page) else (k, e)) ∷ renew id now last_page es

  abbrev pub renew_in : ℕ → ℤ → Bool → Option (Registry Conn Json) → Option (Registry Conn Json)
  renew_in id now last_page none = none
  renew_in id now last_page (some r) =
      some (record r { entries = renew id now last_page r.entries })

abbrev pub is_last : Option ℕ → Bool
is_last none = true
is_last (some n) = false

module _ (f : Float) (j : JsonMarks) (files : Files f.F) {Json S : Type 0}
    (accept : S → StoredRow f.F → S × Take) where
  abbrev pub page_of : ResultMeta Json → PageRows f.F → PageRead f.F Json
  page_of meta page = record {
    rows = page.rows;
    next_ord = page.next_ord;
    row_count = meta.row_count;
    meta = meta;
  }

  -- `entry.served(self.now()?, …)` and the page.
  abbrev pub serve_page :
      ℕ
      → ResultMeta Json
      → Result StoreError ℤ
      → ResultStore files.Conn Json
      → Result StoreError (PageRows f.F)
      → ResultStore files.Conn Json × Result StoreError (PageRead f.F Json)
  serve_page id meta now s (err e) = (s, err e)
  serve_page id meta (err e) s (ok page) = (s, err e)
  serve_page id meta (ok now) s (ok page) = (
    record s { registry = renew_in id now (is_last page.next_ord) s.registry },
    ok (page_of meta page),
  )

  abbrev pub read_complete :
      ℕ
      → Entry files.Conn Json
      → S
      → ℕ
      → Result StoreError ℤ
      → ResultStore files.Conn Json
      → Result StoreError Bool
      → ResultStore files.Conn Json × Result StoreError (PageRead f.F Json)
  read_complete id entry a from_ord now s (err e) = (s, err e)
  read_complete id entry a from_ord now s (ok false) = refuse_cursor s
  read_complete id entry a from_ord now s (ok true) =
      serve_page id entry.meta now s
        (read_rows f j accept (files.select entry.conn) (length entry.meta.columns) a from_ord)

  abbrev pub read_entry :
      ℕ
      → S
      → ℕ
      → Result StoreError ℤ
      → ResultStore files.Conn Json × Result StoreError (Entry files.Conn Json)
      → ResultStore files.Conn Json × Result StoreError (PageRead f.F Json)
  read_entry id a from_ord now (s, err e) = (s, err e)
  read_entry id a from_ord now (s, ok entry) =
      if ltb entry.meta.row_count from_ord
      then refuse_cursor s
      else if files.is_poisoned entry.conn
      then (s, err StoreError.lock)
      else read_complete id entry a from_ord now s (is_complete files entry.conn)

  unfoldable pub read_page :
      ℕ
      → S
      → ℕ
      → Result StoreError ℤ
      → ResultStore files.Conn Json
      → ResultStore files.Conn Json × Result StoreError (PageRead f.F Json)
  unfolding lookup read_rows refuse_cursor renew is_complete
  read_page id a from_ord now s = read_entry id a from_ord now (lookup id s)
