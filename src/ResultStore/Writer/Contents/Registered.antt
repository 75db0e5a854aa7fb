-- ===== src/ResultStore/Writer/Contents/Registered.antt =====
-- From the rows of a materialisation to the registered result.
use slugaudit.Base.{
  Option, some, str_eq, if◌then◌else◌, ℕ, suc, ◌≤◌, ◌≡◌, refl, sym, ap, subst, ◌∙◌, inl, inr, ◌||◌,
  List, [], ◌∷◌, ◌++◌, String, arith, ltb, leb, ◌==◌, length, length-append, i64_max, Result, ok,
  err, ok_or, ◌>>=◌, bind_ok, All, Bool-cases, leb→le,
}
use mathlib.Core.List.{append-nil, append_assoc}
use slugaudit.ResultStore.Entry.{ResultMeta}
use slugaudit.ResultStore.Cell.{StoreError, Float, Cell, StoredRow}
use slugaudit.ResultStore.Row.{JsonMarks}
use slugaudit.ResultStore.Row.RoundTrip.{IsText}
use slugaudit.ResultStore.Row.Given.{AllGiven, stored-AsGiven}
use slugaudit.ResultStore.Reader.Pages.{nothing}
use slugaudit.ResultStore.Service.{ResultStore}
use slugaudit.ResultStore.Writer.{
  ResultSpec, ResultWriter, Sql, JsonTexts, Outcome, push, push_all, push_next, begin, committed,
  max_columns, fresh_writer, MetaValue, put_all, to_i64, meta_rows, measure_bytes, write_meta,
}
use slugaudit.ResultStore.Writer.Contents.{
  Tables, stored_row, stored_rows, Written, Pushed, push-Pushed,
}

to_i64-fits : (n : ℕ) (reason : String) {m : ℕ} → to_i64 n reason ≡ ok m → n ≤ i64_max
to_i64-fits n reason h = elim (Bool-cases (leb n i64_max)) [
  | inl b ↦ leb→le n i64_max b
  | inr b ↦ absurd (let h' = rw b at h in cc)
]

module _ {F Conn : Type 0} (sql : Sql F Conn) (tables : Tables sql) where
  created_conn :
      (id : ℕ) (spec : ResultSpec) (conn : Result StoreError Conn) {w : ResultWriter Conn}
      → (conn >>= λ created. sql.create_schema (length spec.columns) created >>= λ with_schema.
          sql.begin_transaction with_schema >>= λ begun. ok (fresh_writer id spec begun))
        ≡ ok w
      → (c : Conn) × (tables.table c ≡ []) × (fresh_writer id spec c ≡ w)
  created_conn id spec conn h =
      let (created, p, h1) = bind_ok conn _ h in
      let (c, q, h2) = bind_ok (sql.create_schema (length spec.columns) created) _ h1 in
      let (c', q', h3) = bind_ok (sql.begin_transaction c) _ h2 in
      (c', tables.begin_law c c' q' ∙ tables.schema_law (length spec.columns) created c q, cc)

  put_all-table :
      (rows : List (String × MetaValue)) (c c' : Conn)
      → put_all sql rows c ≡ ok c'
      → tables.table c' ≡ tables.table c
  put_all-table [] c c' h = let same : c ≡ c' = cc in ap tables.table (sym same)
  put_all-table ((key, v) ∷ rows) c c' h =
      let (d, p, h1) = bind_ok (sql.put key v c) _ h in
      put_all-table rows d c' h1 ∙ tables.put_law key v c d p

  -- What a key has after rows of `meta` are put.
  abbrev pub put_over : String → Option MetaValue → List (String × MetaValue) → Option MetaValue
  put_over k v [] = v
  put_over k v ((key, x) ∷ rows) = put_over k (if str_eq key k then some x else v) rows

  put_all-meta :
      (rows : List (String × MetaValue)) (c c' : Conn) (k : String)
      → put_all sql rows c ≡ ok c'
      → tables.meta c' k ≡ put_over k (tables.meta c k) rows
  put_all-meta [] c c' k h = let same : c ≡ c' = cc in ap (λ x. tables.meta x k) (sym same)
  put_all-meta ((key, v) ∷ rows) c c' k h =
      let (d, p, h1) = bind_ok (sql.put key v c) _ h in
      put_all-meta rows d c' k h1 ∙ ap (λ x. put_over k x rows) (tables.put_meta_law key v c d k p)

-- The rows of a list are as many as the lists of cells.
pub length-stored_rows :
    (f : Float) (ord : ℕ) (todo : List (List (Cell f.F)))
    → length (stored_rows f ord todo) ≡ length todo
length-stored_rows f ord [] = refl
length-stored_rows f ord (cells ∷ todo) = ap suc (length-stored_rows f (suc ord) todo)

pub stored_rows-AllGiven :
    (f : Float) (ord : ℕ) (todo : List (List (Cell f.F)))
    → AllGiven f ord todo (stored_rows f ord todo)
stored_rows-AllGiven f ord [] = tt
stored_rows-AllGiven f ord (cells ∷ todo) =
    (stored-AsGiven f ord cells, stored_rows-AllGiven f (suc ord) todo)

module _ (f : Float) (j : JsonMarks) {Conn Json : Type 0} (sql : Sql f.F Conn)
    (tables : Tables sql) where
  push_all-step :
      (rows : List (List (Cell f.F))) (o : Outcome Conn Json) {t : ResultStore Conn Json}
      {v : ResultWriter Conn} {a : Unit {0}}
      → push_next (λ s w. push_all f j sql rows s w) o ≡ (t, v, ok a)
      → (o.2 ≡ ok tt) × (push_all f j sql rows o.0 o.1 ≡ (t, v, ok a))
  push_all-step rows (s, w, ok u) h = (refl, h)
  push_all-step rows (s, w, err e) h = absurd (cc)

  -- Pushing rows that all succeed stores them, in order, after what the file held.
  pub push_all-Pushed :
      (todo : List (List (Cell f.F))) (s : ResultStore Conn Json) (w : ResultWriter Conn)
      (rows : List (StoredRow f.F)) {t : ResultStore Conn Json} {v : ResultWriter Conn}
      {a : Unit {0}}
      → Written f j sql tables w rows
      → All (All (IsText f)) todo
      → push_all f j sql todo s w ≡ (t, v, ok a)
      → Pushed f j sql tables w v (rows ++ stored_rows f (length rows) todo)
  unfolding push_all
  push_all-Pushed [] s w rows {v = v} p x h =
      let same : w ≡ v = ap (λ (o : Outcome Conn Json). o.1) h in
      rw (append-nil rows) (
        subst (λ x. Pushed f j sql tables w x rows) same
          (record { written = p; spec_kept = refl; id_kept = refl }))
  push_all-Pushed (cells ∷ todo) s w rows {v = v} p x h =
      let (o, rest) = push_all-step todo (push f j sql cells s w) h in
      let one = push-Pushed f j sql tables cells s w rows p x.0 (
        ap
          (λ (r : Result StoreError (Unit {0})).
            ((push f j sql cells s w).0, (push f j sql cells s w).1, r))
          o) in
      let more =
        push_all-Pushed todo (push f j sql cells s w).0 (push f j sql cells s w).1 _ one.written x.1
          rest in
      let n : length (rows ++ stored_row f (length rows) cells ∷ []) ≡ suc (length rows) =
        omega (arith, length-append rows (stored_row f (length rows) cells ∷ [])) in
      let held =
        rw
          (
            n,
            append_assoc rows (stored_row f (length rows) cells ∷ [])
                (stored_rows f (suc (length rows)) todo),
          )
          at more.written in
      record {
        written = held;
        spec_kept = more.spec_kept ∙ one.spec_kept;
        id_kept = more.id_kept ∙ one.id_kept;
      }

  -- A new writer's file holds no row.
  pub begin-Written :
      (id : ℕ) (spec : ResultSpec) (s : ResultStore Conn Json) {w : ResultWriter Conn}
      → begin f j sql id spec s ≡ ok w
      → Written f j sql tables w [] × (w.spec ≡ spec) × (w.id ≡ id)
  unfolding begin
  begin-Written id spec s {w} h =
      elim (Bool-cases (length spec.columns == 0 || ltb max_columns (length spec.columns))) [
        | inl b ↦ absurd (let h' = rw b at h in cc)
        | inr b ↦
            let (c, n, same) =
              created_conn sql tables id spec (sql.create s.session id) (rw b at h) in
            subst
              (λ (x : ResultWriter Conn).
                Written f j sql tables x [] × (x.spec ≡ spec) × (x.id ≡ id))
              same (record { held = rw n nothing; size = ap length n; counted = refl }, refl, refl)
      ]

  write_meta-table :
      (texts : JsonTexts Json) (meta : ResultMeta Json) (c c' : Conn)
      → write_meta f j sql texts meta c ≡ ok c'
      → (tables.meta c' "state" ≡ some (MetaValue.text "complete"))
        × (tables.table c' ≡ tables.table c)
        × (meta.row_count ≤ i64_max)
  unfolding write_meta
  write_meta-table texts meta c c' h =
      let (columns, p1, h1) = bind_ok (ok_or (texts.columns meta.columns) _) _ h in
      let (completeness, p2, h2) = bind_ok (ok_or (texts.value meta.completeness) _) _ h1 in
      let (row_count, p3, h3) = bind_ok (to_i64 meta.row_count "too many rows") _ h2 in
      let (written, p4, h4) =
        bind_ok (put_all sql (meta_rows f j sql meta columns completeness row_count) c) _ h3 in
      let (measured, p5, h5) = bind_ok (measure_bytes sql written) _ h4 in
      let (bytes, p6, h6) = bind_ok (to_i64 measured "result too large to measure") _ h5 in
      (
        tables.set_bytes_meta_law bytes written c' "state" h6 refl
            ∙ put_all-meta sql tables (meta_rows f j sql meta columns completeness row_count) c
                written "state" p4,
        tables.set_bytes_law bytes written c' h6
            ∙ put_all-table sql tables (meta_rows f j sql meta columns completeness row_count) c
                written p4,
        to_i64-fits meta.row_count "too many rows" p3,
      )

  pub committed-table :
      (texts : JsonTexts Json) (meta : ResultMeta Json) (conn c : Conn) (bytes : ℕ)
      → committed f j sql texts meta conn ≡ ok (c, bytes)
      → (tables.meta c "state" ≡ some (MetaValue.text "complete"))
        × ((x : Conn) × (sql.commit x ≡ ok c))
        × (tables.table c ≡ tables.table conn)
        × (meta.row_count ≤ i64_max)
  committed-table texts meta conn c bytes h =
      let (written, p, h1) = bind_ok (write_meta f j sql texts meta conn) _ h in
      let (d, q, h2) = bind_ok (sql.commit written) _ h1 in
      let (m, o, h3) = bind_ok (measure_bytes sql d) _ h2 in
      let same : d ≡ c = cc in
      let (complete, kept, fits) = write_meta-table texts meta conn written p in
      (
        ap (λ x. tables.meta x "state") (sym same)
            ∙ tables.commit_meta_law written d "state" q
            ∙ complete,
        (written, q ∙ ap ok same),
        ap tables.table (sym same) ∙ tables.commit_law written d q ∙ kept,
        fits,
      )
