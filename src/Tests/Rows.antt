-- ===== src/Tests/Rows.antt =====
-- A row with a NaN, and a result of three rows read two at a time.
use slugaudit.Base.{
  ℕ, zero, suc, ◌+◌, ◌≡◌, refl, Option, none, some, List, [], ◌∷◌, String, arith, ltb, ◌==◌,
  if◌then◌else◌, pos, drop, Result, ok, is_utf8,
}
use slugaudit.ResultStore.Cell.{
  StoreError, Float, as_str, Cell, StoredRow, Take, taken, skipped, mark_of,
}
use slugaudit.ResultStore.Row.{
  ValueRef, RawRow, JsonMarks, marks_from, encode_marks, encode_row, decode_row, decode_cell,
  decode_cells, decode_marks, to_sql,
}
use slugaudit.ResultStore.Row.Given.{AsGiven, decode-encode_row-AsGiven}
use slugaudit.ResultStore.Reader.Pages.{Holds, nothing, row, fetched}
use slugaudit.ResultStore.Reader.Coverage.{read_all, read_all-eq-drop}

-- Doubles of which 0 stands for the NaN and 1 and 2 for the infinities.
abbrev few : Float
few = record {
  F = ℕ;
  is_nan = λ v. v == 0;
  is_infinity = λ v. v == 1;
  is_neg_infinity = λ v. v == 2;
}

abbrev to_json : List (ℕ × String) → Option String
to_json ((zero, name) ∷ []) = some name
to_json _ = none

to_json-round_trip :
    (marks : List (ℕ × String)) (s : String)
    → to_json marks ≡ some s
    → some ((0, s) ∷ []) ≡ some marks
to_json-round_trip [] s h = cc
to_json-round_trip ((zero, name) ∷ []) s h = cc
to_json-round_trip ((zero, name) ∷ m ∷ ms) s h = cc
to_json-round_trip ((suc i, name) ∷ []) s h = cc
to_json-round_trip ((suc i, name) ∷ m ∷ ms) s h = cc

-- JSON for the mark of the first column alone.
abbrev one_mark : JsonMarks
one_mark = record {
  to_string = to_json;
  from_str = λ s. some ((0, s) ∷ []);
  round_trip = to_json-round_trip;
}

abbrev cells : List (Cell ℕ)
cells = Cell.real 0 ∷ Cell.text (97 ∷ []) ∷ []

abbrev raw : RawRow ℕ
raw = record {
  ord = pos 7;
  nonfinite = some "NaN";
  values = ValueRef.null ∷ ValueRef.text (97 ∷ []) ∷ [];
}

cells-raw : encode_row few one_mark 2 7 cells ≡ ok raw
unfolding encode_row encode_marks marks_from mark_of as_str to_sql
cells-raw = refl

decode-encode_row-AsGiven_example :
    (row : StoredRow ℕ) × (decode_row few one_mark 2 raw ≡ ok row) × AsGiven few 7 cells row
unfolding is_utf8
decode-encode_row-AsGiven_example =
    decode-encode_row-AsGiven few one_mark 2 7 cells raw (tt, (refl, tt)) cells-raw

abbrev stored : ℕ → RawRow ℕ
stored n = record { ord = pos n; nonfinite = none; values = ValueRef.integer (pos n) ∷ [] }

abbrev table : List (RawRow ℕ)
table = stored 0 ∷ stored 1 ∷ stored 2 ∷ []

abbrev read : ℕ → StoredRow ℕ
read n = record { ord = n; cells = Cell.int (pos n) ∷ []; nonfinite = [] }

abbrev rows : List (StoredRow ℕ)
rows = read 0 ∷ read 1 ∷ read 2 ∷ []

decode-stored : (n : ℕ) → decode_row few one_mark 1 (stored n) ≡ ok (read n)
unfolding decode_row decode_cells decode_cell decode_marks
decode-stored n = refl

table-Holds : Holds few one_mark 1 0 table rows
table-Holds =
    row (decode-stored 0) refl (row (decode-stored 1) refl (row (decode-stored 2) refl nothing))

-- A budget of two rows for each page.
abbrev two : ℕ → StoredRow ℕ → ℕ × Take
two n r = if ltb n 2 then (n + 1, taken) else (n, skipped)

abbrev select : ℕ → List (Result StoreError (RawRow ℕ))
select n = fetched few one_mark (drop n table)

read_all-eq-drop_example : read_all few one_mark two 0 1 select 4 0 ≡ some (ok (drop 0 rows))
read_all-eq-drop_example =
    read_all-eq-drop few one_mark two 0 1 select table rows (λ n. refl) table-Holds (omega arith) 4
      0 (omega arith) (omega arith)
