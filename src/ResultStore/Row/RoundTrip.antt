-- ===== src/ResultStore/Row/RoundTrip.antt =====
-- A row that the writer stores is the row that the reader returns.
use slugaudit.Base.{
  ℕ, ◌≡◌, refl, inl, inr, true, Option, List, [], ◌∷◌, map, String, arith, leb, ◌==◌, pos, length,
  i64_max, ok, Result-cases, is_utf8, All, Bool-cases, Option-cases,
}
use slugaudit.ResultStore.Cell.{Float, NonFinite, Cell, parse-as_str}
use slugaudit.ResultStore.Row.{
  RawRow, JsonMarks, to_sql, storable, marks_from, named, encode_marks, encode_row, decode_cell,
  decode_cells, parse_marks, decode_marks, decode_row,
}

module _ (f : Float) where
  -- Rust's `String` holds valid UTF-8.
  abbrev pub IsText : Cell f.F → Type 0
  IsText (Cell.text bytes) = is_utf8 bytes ≡ true
  IsText _ = Unit

  decode-to_sql :
      (c : Cell f.F) → IsText c → decode_cell f (to_sql (storable f c)) ≡ ok (storable f c)
  unfolding decode_cell to_sql
  decode-to_sql Cell.null h = refl
  decode-to_sql (Cell.int v) h = refl
  decode-to_sql (Cell.real v) h = ground arith
  decode-to_sql (Cell.text bytes) h = rw h
  decode-to_sql (Cell.blob bytes) h = refl

  decode_cells-map :
      (cs : List (Cell f.F))
      → All IsText cs
      → decode_cells f (length cs) (map (λ c. to_sql (storable f c)) cs) ≡ ok (map (storable f) cs)
  unfolding decode_cells
  decode_cells-map [] h = refl
  decode_cells-map (c ∷ cs) h = rw (decode-to_sql c h.0, decode_cells-map cs h.1)

  parse_marks-named : (ms : List (ℕ × NonFinite)) → parse_marks f (named f ms) ≡ ok ms
  unfolding parse_marks
  parse_marks-named [] = refl
  parse_marks-named ((i, m) ∷ ms) = rw (parse-as_str m, parse_marks-named ms)

  module _ (j : JsonMarks) where
    decode-encode_marks :
        (ms : List (ℕ × NonFinite)) (s : Option String)
        → encode_marks f j ms ≡ ok s
        → decode_marks f j s ≡ ok ms
    unfolding encode_marks decode_marks
    decode-encode_marks [] s h = ground arith
    decode-encode_marks (m ∷ ms) s h = elim (Option-cases (j.to_string (named f (m ∷ ms)))) [
      | inl e ↦ absurd (ground arith)
      | inr (t, e) ↦ ground (arith, j.round_trip (named f (m ∷ ms)) t e, parse_marks-named (m ∷ ms))
    ]

    -- A row that the writer encodes and whose texts are valid UTF-8 comes back with its ordinal, with
    -- its cells (a NaN reads as NULL) and with the marks of its non-finite doubles.
    pub decode-encode_row :
        (columns next_ord : ℕ) (cells : List (Cell f.F)) (raw : RawRow f.F)
        → All IsText cells
        → encode_row f j columns next_ord cells ≡ ok raw
        → decode_row f j columns raw
          ≡ ok (record {
            ord = next_ord;
            cells = map (storable f) cells;
            nonfinite = marks_from f 0 cells;
          })
    unfolding encode_row decode_row
    decode-encode_row columns next_ord cells raw h e = elim (Bool-cases (length cells == columns)) [
      | inr w ↦ absurd (ground arith)
      | inl w ↦ elim (Result-cases (encode_marks f j (marks_from f 0 cells))) [
        | inr (x, m) ↦ absurd (ground arith)
        | inl (s, m) ↦ elim (Bool-cases (leb next_ord i64_max)) [
          | inr o ↦ absurd (ground arith)
          | inl o ↦
              let r : raw ≡ record {
                ord = pos next_ord;
                nonfinite = s;
                values = map (λ c. to_sql (storable f c)) cells;
              } =
                ground arith in
              let l : columns ≡ length cells = ground arith in
              rw (r, l, decode_cells-map cells h, decode-encode_marks (marks_from f 0 cells) s m)
        ]
      ]
    ]
