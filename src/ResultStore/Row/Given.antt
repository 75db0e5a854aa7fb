-- ===== src/ResultStore/Row/Given.antt =====
-- What a stored row says of the cells that were given: the contract of the writer and the reader.
use slugaudit.Base.{
  ℕ, zero, suc, ◌+◌, ◌<◌, ◌≡◌, refl, ap, ◌∙◌, inl, inr, true, false, Option, none, some, List, [],
  ◌∷◌, ◌++◌, map, arith, ◌==◌, ==_iff, if◌then◌else◌, length, get_elem?, ok, All, Bool-cases,
}
use mathlib.Core.List.{append-nil}
use slugaudit.ResultStore.Cell.{
  Float, NonFinite, nan, infinity, neg_infinity, Cell, StoredRow, mark_of,
}
use slugaudit.ResultStore.Row.{
  RawRow, JsonMarks, storable, cons_mark, marks_from, encode_row, decode_row,
}
use slugaudit.ResultStore.Row.RoundTrip.{IsText, decode-encode_row}

-- The marks of a column.
abbrev pub marks_at : ℕ → List (ℕ × NonFinite) → List NonFinite
marks_at k [] = []
marks_at k ((i, m) ∷ marks) = let rest = marks_at k marks in if i == k then m ∷ rest else rest

module _ (f : Float) where
  -- A NaN reads as NULL, every other value as itself.
  abbrev pub read_back : Cell f.F → Cell f.F
  read_back Cell.null = Cell.null
  read_back (Cell.int v) = Cell.int v
  read_back (Cell.real v) = if f.is_nan v then Cell.null else Cell.real v
  read_back (Cell.text bytes) = Cell.text bytes
  read_back (Cell.blob bytes) = Cell.blob bytes

  -- The marks that the value of a column asks for: one of a non-finite double, none of another value.
  abbrev pub kinds : Option (Cell f.F) → List NonFinite
  kinds (some (Cell.real v)) =
      if f.is_nan v
      then nan ∷ []
      else if f.is_infinity v
      then infinity ∷ []
      else if f.is_neg_infinity v
      then neg_infinity ∷ []
      else []
  kinds _ = []

  -- The row has the ordinal, the given cells, and in each column the mark of its value.
  pub record AsGiven (ord : ℕ) (cells : List (Cell f.F)) (row : StoredRow f.F) : Type 0 where
    pub at_ord : row.ord ≡ ord
    pub read : row.cells ≡ map read_back cells
    pub marked : (k : ℕ) → marks_at k row.nonfinite ≡ kinds (get_elem? cells k)

  -- One row for each list of cells, at the ordinals from `ord` on.
  abbrev pub AllGiven : ℕ → List (List (Cell f.F)) → List (StoredRow f.F) → Type 0
  AllGiven ord [] [] = Unit
  AllGiven ord (cells ∷ todo) (row ∷ rows) = AsGiven ord cells row × AllGiven (suc ord) todo rows
  AllGiven ord _ _ = ⊥

  pub AllGiven-length :
      (ord : ℕ) (todo : List (List (Cell f.F))) (rows : List (StoredRow f.F))
      → AllGiven ord todo rows
      → length rows ≡ length todo
  AllGiven-length ord [] [] h = refl
  AllGiven-length ord [] (row ∷ rows) h = absurd h
  AllGiven-length ord (cells ∷ todo) [] h = absurd h
  AllGiven-length ord (cells ∷ todo) (row ∷ rows) h =
      ap suc (AllGiven-length (suc ord) todo rows h.1)

  storable-read_back : (cells : List (Cell f.F)) → map (storable f) cells ≡ map read_back cells
  storable-read_back [] = refl
  storable-read_back (Cell.null ∷ cells) = ap (◌∷◌ Cell.null) (storable-read_back cells)
  storable-read_back (Cell.int v ∷ cells) = ap (◌∷◌ (Cell.int v)) (storable-read_back cells)
  storable-read_back (Cell.real v ∷ cells) =
      ap (◌∷◌ (if f.is_nan v then Cell.null else Cell.real v)) (storable-read_back cells)
  storable-read_back (Cell.text v ∷ cells) = ap (◌∷◌ (Cell.text v)) (storable-read_back cells)
  storable-read_back (Cell.blob v ∷ cells) = ap (◌∷◌ (Cell.blob v)) (storable-read_back cells)

  abbrev listed : Option NonFinite → List NonFinite
  listed none = []
  listed (some m) = m ∷ []

  listed-mark_of : (v : f.F) → listed (mark_of f v) ≡ kinds (some (Cell.real v))
  unfolding mark_of
  listed-mark_of v = elim (Bool-cases (f.is_nan v)) [
    | inl h ↦ rw h refl
    | inr h ↦ elim (Bool-cases (f.is_infinity v)) [
      | inl g ↦ rw (h, g) refl
      | inr g ↦ elim (Bool-cases (f.is_neg_infinity v)) [
        | inl e ↦ rw (h, g, e) refl
        | inr e ↦ rw (h, g, e) refl
      ]
    ]
  ]

  at_cons :
      (k i : ℕ) (o : Option NonFinite) (marks : List (ℕ × NonFinite))
      → marks_at k (cons_mark f i o marks)
        ≡ (if i == k then listed o ++ marks_at k marks else marks_at k marks)
  at_cons k i none marks = ground arith
  at_cons k i (some m) marks = refl

  unequal : (i k : ℕ) → k < i → (i == k) ≡ false
  unequal i k h = ground (arith, ==_iff i k)

  equal : (k : ℕ) → (k == k) ≡ true
  equal k = (==_iff k k).1 refl

  behind : (i k : ℕ) → (i == suc i + k) ≡ false
  behind i k = ground (arith, ==_iff i (suc i + k))

  none_below : (k i : ℕ) (cells : List (Cell f.F)) → k < i → marks_at k (marks_from f i cells) ≡ []
  unfolding marks_from
  none_below k i [] h = refl
  none_below k i (Cell.null ∷ cells) h = none_below k (suc i) cells (omega arith)
  none_below k i (Cell.int v ∷ cells) h = none_below k (suc i) cells (omega arith)
  none_below k i (Cell.real v ∷ cells) h =
      at_cons k i (mark_of f v) (marks_from f (suc i) cells)
      ∙ rw (unequal i k h) (none_below k (suc i) cells (omega arith))
  none_below k i (Cell.text v ∷ cells) h = none_below k (suc i) cells (omega arith)
  none_below k i (Cell.blob v ∷ cells) h = none_below k (suc i) cells (omega arith)

  marks_from-kinds :
      (i : ℕ) (cells : List (Cell f.F)) (k : ℕ)
      → marks_at (i + k) (marks_from f i cells) ≡ kinds (get_elem? cells k)
  unfolding marks_from
  marks_from-kinds i [] k = refl
  marks_from-kinds i (c ∷ cells) zero = let here : i + 0 ≡ i = omega arith in rw here (first c)
    where
      first : (c : Cell f.F) → marks_at i (marks_from f i (c ∷ cells)) ≡ kinds (some c)
      first Cell.null = none_below i (suc i) cells (omega arith)
      first (Cell.int v) = none_below i (suc i) cells (omega arith)
      first (Cell.real v) =
          at_cons i i (mark_of f v) (marks_from f (suc i) cells)
          ∙ rw (equal i, none_below i (suc i) cells (omega arith))
              (append-nil (listed (mark_of f v)) ∙ listed-mark_of v)
      first (Cell.text v) = none_below i (suc i) cells (omega arith)
      first (Cell.blob v) = none_below i (suc i) cells (omega arith)
  marks_from-kinds i (c ∷ cells) (suc k) =
      let next : i + suc k ≡ suc i + k = omega arith in
      rw next (later c (marks_from-kinds (suc i) cells k))
    where
      later :
          (c : Cell f.F)
          → marks_at (suc i + k) (marks_from f (suc i) cells) ≡ kinds (get_elem? cells k)
          → marks_at (suc i + k) (marks_from f i (c ∷ cells)) ≡ kinds (get_elem? cells k)
      later Cell.null h = h
      later (Cell.int v) h = h
      later (Cell.real v) h =
          at_cons (suc i + k) i (mark_of f v) (marks_from f (suc i) cells) ∙ rw (behind i k) (h)
      later (Cell.text v) h = h
      later (Cell.blob v) h = h

  pub stored-AsGiven :
      (ord : ℕ) (cells : List (Cell f.F))
      → AsGiven ord cells
          (record { ord = ord; cells = map (storable f) cells; nonfinite = marks_from f 0 cells })
  stored-AsGiven ord cells = record {
    at_ord = refl;
    read = storable-read_back cells;
    marked = λ k. let e : 0 + k ≡ k = omega arith in rw e at (marks_from-kinds 0 cells k);
  }

  -- A row that the writer encodes and whose texts are valid UTF-8 is read back: with its ordinal, with
  -- its cells, where a NaN reads as NULL, and in each column with the mark of a non-finite double, or
  -- with none.
  pub decode-encode_row-AsGiven :
      (j : JsonMarks) (columns next_ord : ℕ) (cells : List (Cell f.F)) (raw : RawRow f.F)
      → All (IsText f) cells
      → encode_row f j columns next_ord cells ≡ ok raw
      → (row : StoredRow f.F) × (decode_row f j columns raw ≡ ok row) × AsGiven next_ord cells row
  decode-encode_row-AsGiven j columns next_ord cells raw h e =
      (_, decode-encode_row f j columns next_ord cells raw h e, stored-AsGiven next_ord cells)
