-- ===== src/ResultStore/Writer.antt =====
-- src/store/result_store/writer.rs and `measure_bytes` of result_file.rs: one materialisation, from `begin`
-- to `finish`. The connection is a parameter with the statements that the source runs; after a failed
-- statement it is not used again. The writer's id is a random UUID, an argument of `begin`.
pub mod Batches
pub mod Checks
pub mod Runs
pub mod Contents
pub mod Finish
use slugaudit.Base.{
  ℕ, zero, suc, ◌+◌, ◌-◌, ◌*◌, ◌/◌, ◌%◌, ◌^◌, ◌≤◌, ◌<◌, min, max, ◌≡◌, refl, sym, ap, subst, ◌∙◌,
  fun_ext, ◌≢◌, ◌↔◌, ◌⊎◌, inl, inr, Bool, true, false, not, ◌&&◌, ◌||◌, Option, none, some, List,
  [], ◌∷◌, ◌++◌, map, String, arith, ltb, leb, ◌==◌, ==_iff, if◌then◌else◌, ℤ, pos, negsuc,
  pos_part, neg_part, leb_ℤ, ◌≤ℤ◌, sub_ℕ, length, length-append, get_elem?, take, drop, filter, any,
  all, add64, sub64, u64_mod, i64_max, saturating_add, Result, ok, err, ok_or, ◌>>=◌, Result-cases,
  is_utf8, saturating_mul, All, All-append, All-mono, All-left, All-right, All-of, All-both,
  Bool-cases, Option-cases, u64_max, Text, text_eq, text_eq_sound, text_eq_refl, apart, text_in,
  strip_prefix, strip_prefix_sound, split_from, split, join, Without, split-append, split-alone,
  join-split, leb→le, le→leb, leb-false, str_eq, eq_iff,
}
use slugaudit.ResultStore.Entry.{ResultMeta, Entry, new_entry}
use slugaudit.ResultStore.Cell.{StoreError, Float, Cell, payload_len}
use slugaudit.ResultStore.Row.{RawRow, JsonMarks, encode_row}
use slugaudit.ResultStore.Service.{ResultStore, refuse_too_large}
use slugaudit.ResultStore.Service

abbrev pub batch_rows : ℕ
batch_rows = 1000

abbrev pub batch_bytes : ℕ
batch_bytes = 16 * 1024 * 1024

abbrev pub max_columns : ℕ
max_columns = 1000

pub record ResultSpec : Type 0 where
  pub tool : String
  pub project : String
  pub revision_id : String
  pub columns : List String

pub record ResultHandle : Type 0 where
  pub id : ℕ
  pub row_count : ℕ
  pub bytes : ℕ

pub record ResultWriter (Conn : Type 0) : Type 0 where
  pub id : ℕ
  pub conn : Conn
  pub spec : ResultSpec
  pub next_ord : ℕ
  pub rows_since_check : ℕ
  pub bytes_since_check : ℕ
  pub batches : ℕ
  pub failed : Bool

abbrev pub fresh_writer : {Conn : Type 0} → ℕ → ResultSpec → Conn → ResultWriter Conn
fresh_writer id spec conn = record {
  id = id;
  conn = conn;
  spec = spec;
  next_ord = 0;
  rows_since_check = 0;
  bytes_since_check = 0;
  batches = 0;
  failed = false;
}

-- A value of the table `meta`.
pub data MetaValue : Type 0 where
  text : String → MetaValue
  integer : ℤ → MetaValue

-- The statements of a result's file: `result_file::create`, `create_schema`, `BEGIN`, the two `INSERT`s,
-- the `UPDATE` of `bytes`, `COMMIT` and a numeric pragma.
pub record Sql (F Conn : Type 0) : Type 0 where
  pub create : ℕ → ℕ → Result StoreError Conn
  pub create_schema : ℕ → Conn → Result StoreError Conn
  pub begin_transaction : Conn → Result StoreError Conn
  pub insert_row : RawRow F → Conn → Result StoreError Conn
  pub put : String → MetaValue → Conn → Result StoreError Conn
  pub set_bytes : ℕ → Conn → Result StoreError Conn
  pub commit : Conn → Result StoreError Conn
  pub pragma : String → Conn → Result StoreError ℕ

-- `serde_json::to_string` of the column names and of the completeness.
pub record JsonTexts (Json : Type 0) : Type 0 where
  pub columns : List String → Option String
  pub value : Json → Option String

-- The sum of the cells' `payload_len`, in `usize`.
unfoldable pub payload_sum : {F : Type 0} → List (Cell F) → ℕ
unfolding payload_len
payload_sum [] = 0
payload_sum (c ∷ cells) = add64 (payload_len c) (payload_sum cells)

-- The store and the writer, and what the operation returns.
abbrev pub Outcome : Type 0 → Type 0 → Type 0
Outcome Conn Json = ResultStore Conn Json × ResultWriter Conn × Result StoreError (Unit {0})

abbrev pub is_err : {A : Type 0} → Result StoreError A → Bool
is_err (ok a) = false
is_err (err e) = true

abbrev pub already_failed : StoreError
already_failed = StoreError.invalid "the writer already failed"

abbrev pub note_failure : {Conn Json : Type 0} → Outcome Conn Json → Outcome Conn Json
note_failure (s, w, r) = (s, record w { failed = is_err r }, r)

abbrev pub push_next :
    {Conn Json : Type 0}
    → (ResultStore Conn Json → ResultWriter Conn → Outcome Conn Json)
    → Outcome Conn Json
    → Outcome Conn Json
push_next next (t, v, ok u) = next t v
push_next next (t, v, err e) = (t, v, err e)

abbrev pub to_i64 : ℕ → String → Result StoreError ℕ
to_i64 n reason = if leb n i64_max then ok n else err (StoreError.invalid reason)

module _ {F Conn : Type 0} (sql : Sql F Conn) where
  abbrev pub measure_bytes : Conn → Result StoreError ℕ
  measure_bytes conn = sql.pragma "page_count" conn >>= λ page_count.
      sql.pragma "page_size" conn >>= λ page_size. ok (saturating_mul page_count page_size)

  abbrev pub put_all : List (String × MetaValue) → Conn → Result StoreError Conn
  put_all [] conn = ok conn
  put_all ((key, v) ∷ rows) conn = sql.put key v conn >>= λ conn'. put_all rows conn'

module _ (f : Float) (j : JsonMarks) {Conn Json : Type 0} (sql : Sql f.F Conn) where
  -- `ResultStore::begin`.
  unfoldable pub begin :
      ℕ → ResultSpec → ResultStore Conn Json → Result StoreError (ResultWriter Conn)
  begin id spec s =
      if length spec.columns == 0 || ltb max_columns (length spec.columns)
      then err (StoreError.invalid "a result needs between 1 and 1000 columns")
      else sql.create s.session id >>= λ created.
          sql.create_schema (length spec.columns) created >>= λ with_schema.
          sql.begin_transaction with_schema >>= λ begun. ok (fresh_writer id spec begun)

  abbrev pub within_budget :
      ResultStore Conn Json
      → Result StoreError ℕ
      → ResultStore Conn Json × Result StoreError (Unit {0})
  within_budget s (err e) = (s, err e)
  within_budget s (ok bytes) =
      if ltb s.limits.max_bytes bytes then refuse_too_large s else (s, ok tt)

  unfoldable pub checkpoint : ResultStore Conn Json → ResultWriter Conn → Outcome Conn Json
  unfolding refuse_too_large
  checkpoint s w =
      let (t, r) = within_budget s (measure_bytes sql w.conn) in
      (t, record w { batches = add64 w.batches 1; rows_since_check = 0; bytes_since_check = 0 }, r)

  -- The row is in the table: the counters, and the check that is due.
  abbrev pub count_row : ResultStore Conn Json → ResultWriter Conn → ℕ → Conn → Outcome Conn Json
  count_row s w payload conn =
      let w' = record w {
        conn = conn;
        next_ord = add64 w.next_ord 1;
        rows_since_check = add64 w.rows_since_check 1;
        bytes_since_check = add64 w.bytes_since_check payload;
      } in
      if leb batch_rows w'.rows_since_check || leb batch_bytes w'.bytes_since_check
      then checkpoint s w'
      else (s, w', ok tt)

  abbrev pub insert_encoded :
      ResultStore Conn Json → ResultWriter Conn → ℕ → Result StoreError Conn → Outcome Conn Json
  insert_encoded s w payload (err e) = (s, w, err e)
  insert_encoded s w payload (ok conn) = count_row s w payload conn

  unfoldable pub insert :
      List (Cell f.F) → ResultStore Conn Json → ResultWriter Conn → Outcome Conn Json
  unfolding encode_row checkpoint payload_sum
  insert cells s w =
      insert_encoded s w (payload_sum cells) (
        encode_row f j (length w.spec.columns) w.next_ord cells >>= λ raw.
        sql.insert_row raw w.conn)

  unfoldable pub push :
      List (Cell f.F) → ResultStore Conn Json → ResultWriter Conn → Outcome Conn Json
  unfolding insert
  push cells s w = if w.failed then (s, w, err already_failed) else note_failure (insert cells s w)

  -- The rows of `meta`, in the order they are written.
  abbrev pub meta_rows : ResultMeta Json → String → String → ℕ → List (String × MetaValue)
  meta_rows meta columns completeness row_count =
      ("tool", text meta.tool)
      ∷ ("project", text meta.project)
      ∷ ("revision_id", text meta.revision_id)
      ∷ ("columns", text columns)
      ∷ ("completeness", text completeness)
      ∷ ("created_unix", integer meta.created_unix)
      ∷ ("row_count", integer (pos row_count))
      ∷ ("bytes", integer (pos 0))
      ∷ ("state", text "complete")
      ∷ []

  unfoldable pub write_meta : JsonTexts Json → ResultMeta Json → Conn → Result StoreError Conn
  write_meta texts meta conn =
      ok_or (texts.columns meta.columns) (StoreError.json "encode the column names") >>= λ columns.
      ok_or (texts.value meta.completeness) (StoreError.json "encode the completeness")
      >>= λ completeness. to_i64 meta.row_count "too many rows" >>= λ row_count.
          put_all sql (meta_rows meta columns completeness row_count) conn >>= λ written.
          measure_bytes sql written >>= λ measured.
          to_i64 measured "result too large to measure" >>= λ bytes. sql.set_bytes bytes written

  abbrev pub meta_of_writer : ResultWriter Conn → Json → ℤ → ResultMeta Json
  meta_of_writer w completeness created_unix = record {
    tool = w.spec.tool;
    project = w.spec.project;
    revision_id = w.spec.revision_id;
    columns = w.spec.columns;
    completeness = completeness;
    row_count = w.next_ord;
    created_unix = created_unix;
  }

  -- The file as committed, and its size.
  abbrev pub committed : JsonTexts Json → ResultMeta Json → Conn → Result StoreError (Conn × ℕ)
  committed texts meta conn = write_meta texts meta conn >>= λ written.
      sql.commit written >>= λ conn'. measure_bytes sql conn' >>= λ bytes. ok (conn', bytes)

  abbrev pub handed :
      ResultHandle
      → ResultStore Conn Json × Result StoreError (Unit {0})
      → ResultStore Conn Json × Result StoreError ResultHandle
  handed handle (s, ok u) = (s, ok handle)
  handed handle (s, err e) = (s, err e)

  abbrev pub admit_file :
      ℕ
      → ResultMeta Json
      → Result StoreError ℤ
      → ResultStore Conn Json
      → Result StoreError (Conn × ℕ)
      → ResultStore Conn Json × Result StoreError ResultHandle
  admit_file id meta now s (err e) = (s, err e)
  admit_file id meta now s (ok (conn, bytes)) =
      handed (record { id = id; row_count = meta.row_count; bytes = bytes })
        (Service.admit id (new_entry conn meta bytes meta.created_unix) now s)

  abbrev pub finish_at :
      JsonTexts Json
      → Json
      → Result StoreError ℤ
      → ResultStore Conn Json
      → ResultWriter Conn
      → Result StoreError ℤ
      → ResultStore Conn Json × Result StoreError ResultHandle
  finish_at texts completeness now s w (err e) = (s, err e)
  finish_at texts completeness now s w (ok created_unix) =
      let meta = meta_of_writer w completeness created_unix in
      admit_file w.id meta now s (committed texts meta w.conn)

  -- `ResultWriter::finish`: the clock is read once for the metadata and once for the admission.
  unfoldable pub finish :
      JsonTexts Json
      → Json
      → Result StoreError ℤ
      → Result StoreError ℤ
      → ResultStore Conn Json
      → ResultWriter Conn
      → ResultStore Conn Json × Result StoreError ResultHandle
  unfolding write_meta Service.admit new_entry
  finish texts completeness created now s w =
      if w.failed then (s, err already_failed) else finish_at texts completeness now s w created

  -- The loop of `write_all`, which stops at the first failure.
  unfoldable pub push_all :
      List (List (Cell f.F)) → ResultStore Conn Json → ResultWriter Conn → Outcome Conn Json
  unfolding push
  push_all [] s w = (s, w, ok tt)
  push_all (cells ∷ rows) s w = push_next (λ t v. push_all rows t v) (push cells s w)
