-- ===== src/ResultStore/Row.antt =====
-- src/store/result_store/writer.rs (`insert`, `encode_marks`) and reader.rs (`decode_row`,
-- `decode_marks`): how one row goes into a result file and comes back.
-- SQLite keeps a bound value with its storage class; serde_json's two functions are parameters.
pub mod RoundTrip
pub mod Given
use slugaudit.Base.{
  ℕ, zero, suc, ◌+◌, ◌-◌, ◌*◌, ◌/◌, ◌%◌, ◌≤◌, ◌<◌, min, max, ◌≡◌, refl, sym, ap, subst, ◌∙◌,
  fun_ext, ◌≢◌, ◌↔◌, ◌⊎◌, inl, inr, Bool, true, false, not, ◌&&◌, ◌||◌, Option, none, some, List,
  [], ◌∷◌, ◌++◌, map, String, arith, ltb, leb, ◌==◌, ==_iff, if◌then◌else◌, ℤ, pos, negsuc,
  pos_part, neg_part, leb_ℤ, ◌≤ℤ◌, sub_ℕ, length, length-append, get_elem?, take, drop, filter, any,
  all, add64, sub64, u64_mod, i64_max, saturating_add, Result, ok, err, ok_or, ◌>>=◌, Result-cases,
  is_utf8, saturating_mul, All, All-append, All-mono, All-left, All-right, All-of, All-both,
  Bool-cases, Option-cases, u64_max, leb→le, le→leb, leb-false, str_eq, eq_iff,
}
use slugaudit.ResultStore.Cell.{
  StoreError, json, sqlite, corrupt, invalid, Float, NonFinite, nan, infinity, neg_infinity, as_str,
  parse, Cell, StoredRow, mark_of, parse-as_str,
}

-- `rusqlite::types::ValueRef`: a stored value.
pub data ValueRef (F : Type 0) : Type 0 where
  null : ValueRef F
  integer : ℤ → ValueRef F
  real : F → ValueRef F
  text : List ℕ → ValueRef F
  blob : List ℕ → ValueRef F

-- A row of the table `rows`: `ord`, `nonfinite` and the value columns.
pub record RawRow (F : Type 0) : Type 0 where
  pub ord : ℤ
  pub nonfinite : Option String
  pub values : List (ValueRef F)

-- `serde_json::to_string` and `serde_json::from_str` at `[[col, name], ...]`.
pub record JsonMarks : Type 0 where
  pub to_string : List (ℕ × String) → Option String
  pub from_str : String → Option (List (ℕ × String))
  pub round_trip :
      (marks : List (ℕ × String)) (s : String) → to_string marks ≡ some s → from_str s ≡ some marks

-- `Cell::to_sql`.
unfoldable pub to_sql : {F : Type 0} → Cell F → ValueRef F
to_sql Cell.null = ValueRef.null
to_sql (Cell.int v) = ValueRef.integer v
to_sql (Cell.real v) = ValueRef.real v
to_sql (Cell.text bytes) = ValueRef.text bytes
to_sql (Cell.blob bytes) = ValueRef.blob bytes

module _ (f : Float) where
  -- `match cell { Cell::Real(value) if value.is_nan() => &NULL_CELL, other => other }`.
  abbrev pub storable : Cell f.F → Cell f.F
  storable (Cell.real v) = if f.is_nan v then Cell.null else Cell.real v
  storable other = other

  abbrev pub cons_mark : ℕ → Option NonFinite → List (ℕ × NonFinite) → List (ℕ × NonFinite)
  cons_mark index none rest = rest
  cons_mark index (some mark) rest = (index, mark) ∷ rest

  -- The marks of a row's cells, from column `index` on.
  unfoldable pub marks_from : ℕ → List (Cell f.F) → List (ℕ × NonFinite)
  marks_from index [] = []
  marks_from index (Cell.real v ∷ cells) =
      cons_mark index (mark_of f v) (marks_from (suc index) cells)
  marks_from index (cell ∷ cells) = marks_from (suc index) cells

  abbrev pub named : List (ℕ × NonFinite) → List (ℕ × String)
  named [] = []
  named ((i, m) ∷ ms) = (i, as_str m) ∷ named ms

  -- `[[col, "NaN"], ...]`, or NULL when every cell is finite.
  unfoldable pub encode_marks : JsonMarks → List (ℕ × NonFinite) → Result StoreError (Option String)
  encode_marks j [] = ok none
  encode_marks j (m ∷ ms) = do
    s ← ok_or (j.to_string (named (m ∷ ms))) (json "encode non-finite marks")
    ok (some s)

  -- What `insert` binds for the row at ordinal `next_ord`.
  unfoldable pub encode_row : JsonMarks → ℕ → ℕ → List (Cell f.F) → Result StoreError (RawRow f.F)
  unfolding to_sql encode_marks marks_from mark_of
  encode_row j columns next_ord cells =
      if length cells == columns
      then (do
        nonfinite ← encode_marks j (marks_from 0 cells)
        if leb next_ord i64_max
            then ok (record {
              ord = pos next_ord;
              nonfinite = nonfinite;
              values = map (λ c. to_sql (storable c)) cells;
            })
            else err (invalid "too many rows"))
      else err (invalid "row width differs from the column count")

  unfoldable pub decode_cell : ValueRef f.F → Result StoreError (Cell f.F)
  decode_cell ValueRef.null = ok Cell.null
  decode_cell (ValueRef.integer v) = ok (Cell.int v)
  decode_cell (ValueRef.real v) = ok (Cell.real v)
  decode_cell (ValueRef.text bytes) =
      if is_utf8 bytes then ok (Cell.text bytes) else err (corrupt "stored text is not UTF-8")
  decode_cell (ValueRef.blob bytes) = ok (Cell.blob bytes)

  -- The first `columns` values; a column that is not there is a read error.
  unfoldable pub decode_cells : ℕ → List (ValueRef f.F) → Result StoreError (List (Cell f.F))
  unfolding decode_cell
  decode_cells zero values = ok []
  decode_cells (suc n) [] = err (sqlite "read a result row")
  decode_cells (suc n) (v ∷ values) =
      decode_cell v >>= λ cell. decode_cells n values >>= λ cells. ok (cell ∷ cells)

  unfoldable pub parse_marks : List (ℕ × String) → Result StoreError (List (ℕ × NonFinite))
  unfolding parse
  parse_marks [] = ok []
  parse_marks ((i, name) ∷ rest) =
      ok_or (parse name) (corrupt "unknown non-finite mark") >>= λ mark.
      parse_marks rest >>= λ marks. ok ((i, mark) ∷ marks)

  unfoldable pub decode_marks : JsonMarks → Option String → Result StoreError (List (ℕ × NonFinite))
  unfolding parse_marks
  decode_marks j none = ok []
  decode_marks j (some s) = do
    named ← ok_or (j.from_str s) (json "decode non-finite marks")
    parse_marks named

  abbrev pub ordinal : ℤ → Result StoreError ℕ
  ordinal (pos n) = ok n
  ordinal (negsuc n) = err (corrupt "negative row ordinal")

  unfoldable pub decode_row : JsonMarks → ℕ → RawRow f.F → Result StoreError (StoredRow f.F)
  unfolding decode_cells decode_marks
  decode_row j columns raw = do
    ord ← ordinal raw.ord
    cells ← decode_cells columns raw.values
    nonfinite ← decode_marks j raw.nonfinite
    ok (record { ord = ord; cells = cells; nonfinite = nonfinite })
