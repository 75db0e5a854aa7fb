-- ===== src/ResultStore/Writer/Contents.antt =====
-- What a writer's file holds: the rows that were pushed, and after `finish` a registered result.
pub mod Registered
use slugaudit.Base.{
  ℕ, zero, suc, ◌+◌, ◌-◌, ◌*◌, ◌/◌, ◌%◌, ◌^◌, ◌≤◌, ◌<◌, min, max, ◌≡◌, refl, sym, ap, subst, ◌∙◌,
  fun_ext, ◌≢◌, ◌↔◌, ◌⊎◌, inl, inr, Bool, true, false, not, ◌&&◌, ◌||◌, Option, none, some, List,
  [], ◌∷◌, ◌++◌, map, String, arith, ltb, leb, ◌==◌, ==_iff, if◌then◌else◌, ℤ, pos, negsuc,
  pos_part, neg_part, leb_ℤ, ◌≤ℤ◌, sub_ℕ, length, length-append, get_elem?, take, drop, filter, any,
  all, add64, sub64, u64_mod, i64_max, saturating_add, Result, ok, err, ok_or, ◌>>=◌, Result-cases,
  is_utf8, saturating_mul, All, All-append, All-mono, All-left, All-right, All-of, All-both,
  Bool-cases, Option-cases, u64_max, Text, text_eq, text_eq_sound, text_eq_refl, apart, text_in,
  strip_prefix, strip_prefix_sound, split_from, split, join, Without, split-append, split-alone,
  join-split, leb→le, le→leb, leb-false, str_eq, eq_iff,
}
use slugaudit.ResultStore.Cell.{StoreError, Float, Cell, StoredRow}
use slugaudit.ResultStore.Row.{
  RawRow, JsonMarks, encode_row, decode_row, storable, marks_from, encode_marks,
}
use slugaudit.ResultStore.Row.RoundTrip.{IsText, decode-encode_row}
use slugaudit.ResultStore.Reader.Pages.{Holds, nothing, row}
use slugaudit.ResultStore.Service.{ResultStore}
use slugaudit.ResultStore.Writer.{
  MetaValue, ResultSpec, ResultWriter, ResultHandle, Sql, Outcome, already_failed, note_failure,
  batch_rows, batch_bytes, payload_sum, checkpoint, count_row, insert_encoded, insert, push,
  push_all, begin,
}
use slugaudit.ResultStore.Writer.Batches.{push-open, push-closed}

-- The tables of a file and what the statements do to them. `table` is the table `rows` in the order of its
-- ordinals: a row is added after those with lower ordinals. `meta` is what a key has in the table `meta`:
-- an `INSERT` gives its key a value, the `UPDATE` is of `bytes` only, and a `COMMIT` keeps all.
pub record Tables {F Conn : Type 0} (sql : Sql F Conn) : Type 0 where
  pub table : Conn → List (RawRow F)
  pub meta : Conn → String → Option MetaValue
  pub schema_law : (columns : ℕ) (c c' : Conn) → sql.create_schema columns c ≡ ok c' → table c' ≡ []
  pub begin_law : (c c' : Conn) → sql.begin_transaction c ≡ ok c' → table c' ≡ table c
  pub insert_law :
      (raw : RawRow F) (c c' : Conn)
      → raw.ord ≡ pos (length (table c))
      → sql.insert_row raw c ≡ ok c'
      → table c' ≡ table c ++ raw ∷ []
  pub put_law :
      (key : String) (v : MetaValue) (c c' : Conn) → sql.put key v c ≡ ok c' → table c' ≡ table c
  pub set_bytes_law : (bytes : ℕ) (c c' : Conn) → sql.set_bytes bytes c ≡ ok c' → table c' ≡ table c
  pub commit_law : (c c' : Conn) → sql.commit c ≡ ok c' → table c' ≡ table c
  pub put_meta_law :
      (key : String) (v : MetaValue) (c c' : Conn) (k : String)
      → sql.put key v c ≡ ok c'
      → meta c' k ≡ (if str_eq key k then some v else meta c k)
  pub set_bytes_meta_law :
      (bytes : ℕ) (c c' : Conn) (k : String)
      → sql.set_bytes bytes c ≡ ok c'
      → str_eq "bytes" k ≡ false
      → meta c' k ≡ meta c k
  pub commit_meta_law : (c c' : Conn) (k : String) → sql.commit c ≡ ok c' → meta c' k ≡ meta c k

module _ (f : Float) where
  -- A row's cells as they are read back, at their ordinal.
  abbrev pub stored_row : ℕ → List (Cell f.F) → StoredRow f.F
  stored_row ord cells = record {
    ord = ord;
    cells = map (storable f) cells;
    nonfinite = marks_from f 0 cells;
  }

  abbrev pub stored_rows : ℕ → List (List (Cell f.F)) → List (StoredRow f.F)
  stored_rows ord [] = []
  stored_rows ord (cells ∷ rows) = stored_row ord cells ∷ stored_rows (suc ord) rows

-- What a counted row leaves of the writer.
record Grown {Conn : Type 0} (w v : ResultWriter Conn) (conn : Conn) : Type 0 where
  pub conn_grown : v.conn ≡ conn
  pub spec_grown : v.spec ≡ w.spec
  pub id_grown : v.id ≡ w.id
  pub ord_grown : v.next_ord ≡ add64 w.next_ord 1

module _ (f : Float) (j : JsonMarks) where
  Holds-append :
      (columns from : ℕ) (raws : List (RawRow f.F)) (rows : List (StoredRow f.F)) (raw : RawRow f.F)
      (r : StoredRow f.F)
      → Holds f j columns from raws rows
      → decode_row f j columns raw ≡ ok r
      → r.ord ≡ from + length rows
      → Holds f j columns from (raws ++ raw ∷ []) (rows ++ r ∷ [])
  Holds-append columns from raws rows raw r nothing d o = row d (omega (arith, o)) nothing
  Holds-append columns from raws rows raw r (row {raws = raws'} {rows = rows'} d' o' h) d o =
      row d' o' (Holds-append columns (suc from) raws' rows' raw r h d (omega (arith, o)))

  encoded_ord :
      (columns next_ord : ℕ) (cells : List (Cell f.F)) (raw : RawRow f.F)
      → encode_row f j columns next_ord cells ≡ ok raw
      → (raw.ord ≡ pos next_ord) × (next_ord ≤ i64_max)
  unfolding encode_row
  encoded_ord columns next_ord cells raw e = elim (Bool-cases (length cells == columns)) [
    | inr w ↦ absurd (ground arith)
    | inl w ↦ elim (Result-cases (encode_marks f j (marks_from f 0 cells))) [
      | inr (x, m) ↦ absurd (ground arith)
      | inl (s, m) ↦ elim (Bool-cases (leb next_ord i64_max)) [
        | inr o ↦ absurd (ground arith)
        | inl o ↦ ground arith
      ]
    ]
  ]

module _ (f : Float) (j : JsonMarks) {Conn : Type 0} (sql : Sql f.F Conn)
    (tables : Tables sql) where
  -- The file holds these rows, and the writer counts them.
  pub record Written (w : ResultWriter Conn) (rows : List (StoredRow f.F)) : Type 0 where
    pub held : Holds f j (length w.spec.columns) 0 (tables.table w.conn) rows
    pub size : length (tables.table w.conn) ≡ length rows
    pub counted : w.next_ord ≡ length rows

  Grown-Written :
      (w v : ResultWriter Conn) (conn : Conn) (cells : List (Cell f.F)) (raw : RawRow f.F)
      (rows : List (StoredRow f.F))
      → Written w rows
      → All (IsText f) cells
      → encode_row f j (length w.spec.columns) w.next_ord cells ≡ ok raw
      → sql.insert_row raw w.conn ≡ ok conn
      → Grown w v conn
      → Written v (rows ++ stored_row f (length rows) cells ∷ [])
  Grown-Written w v conn cells raw rows p t e q g =
      let (o, top) = encoded_ord f j (length w.spec.columns) w.next_ord cells raw e in
      let d = decode-encode_row f j (length w.spec.columns) w.next_ord cells raw t e in
      let l : tables.table v.conn ≡ tables.table w.conn ++ raw ∷ [] =
        ap tables.table g.conn_grown
        ∙ tables.insert_law raw w.conn conn (o ∙ ap pos (p.counted ∙ sym p.size)) q in
      record {
        held =
            rw (l, g.spec_grown)
              (Holds-append f j (length w.spec.columns) 0 (tables.table w.conn) rows raw
                (stored_row f (length rows) cells) p.held (rw p.counted at d) (omega arith));
        size =
            ap length l
            ∙ omega (
              arith,
              length-append (tables.table w.conn) (raw ∷ []),
              length-append rows (stored_row f (length rows) cells ∷ []),
              p.size,
            );
        counted =
            g.ord_grown
            ∙ omega (arith, p.counted, length-append rows (stored_row f (length rows) cells ∷ []));
      }

module _ (f : Float) (j : JsonMarks) {Conn Json : Type 0} (sql : Sql f.F Conn) where
  count_row-Grown :
      (s : ResultStore Conn Json) (w : ResultWriter Conn) (payload : ℕ) (conn : Conn)
      → Grown w (count_row f j sql s w payload conn).1 conn
  unfolding checkpoint
  count_row-Grown s w payload conn =
      elim (Bool-cases (
        leb batch_rows (add64 w.rows_since_check 1)
        || leb batch_bytes (add64 w.bytes_since_check payload))) [
          | inl h ↦
              rw h
                (record { conn_grown = refl; spec_grown = refl; id_grown = refl; ord_grown = refl })
          | inr h ↦
              rw h
                (record { conn_grown = refl; spec_grown = refl; id_grown = refl; ord_grown = refl })
        ]

  insert-row :
      (cells : List (Cell f.F)) (s : ResultStore Conn Json) (w : ResultWriter Conn)
      (raw : RawRow f.F) (conn : Conn)
      → encode_row f j (length w.spec.columns) w.next_ord cells ≡ ok raw
      → sql.insert_row raw w.conn ≡ ok conn
      → insert f j sql cells s w ≡ count_row f j sql s w (payload_sum cells) conn
  unfolding insert
  insert-row cells s w raw conn e q = rw (e, q) refl

  noted_ok :
      (o : Outcome Conn Json) {t : ResultStore Conn Json} {v : ResultWriter Conn} {a : Unit {0}}
      → note_failure o ≡ (t, v, ok a)
      → (v.conn ≡ o.1.conn)
        × (v.spec ≡ o.1.spec)
        × (v.id ≡ o.1.id)
        × (v.next_ord ≡ o.1.next_ord)
        × (v.failed ≡ false)
  noted_ok (s, w, err e) h = absurd (cc)
  noted_ok (s, w, ok u) {t} {v} h =
      let same : record w { failed = false } ≡ v = ap (λ (o : Outcome Conn Json). o.1) h in
      (
        ap (λ (x : ResultWriter Conn). x.conn) (sym same),
        ap (λ (x : ResultWriter Conn). x.spec) (sym same),
        ap (λ (x : ResultWriter Conn). x.id) (sym same),
        ap (λ (x : ResultWriter Conn). x.next_ord) (sym same),
        ap (λ (x : ResultWriter Conn). x.failed) (sym same),
      )

  insert_fails :
      (cells : List (Cell f.F)) (s : ResultStore Conn Json) (w : ResultWriter Conn)
      (r : Result StoreError Conn) (x : StoreError) {t : ResultStore Conn Json}
      {v : ResultWriter Conn} {a : Unit {0}}
      → r ≡ err x
      → note_failure (insert_encoded f j sql s w (payload_sum cells) r) ≡ (t, v, ok a)
      → ⊥
  insert_fails cells s w r x q h = let h' = rw q at h in cc

  -- What an insertion that succeeds did.
  inserted :
      (cells : List (Cell f.F)) (s : ResultStore Conn Json) (w : ResultWriter Conn)
      {t : ResultStore Conn Json} {v : ResultWriter Conn} {a : Unit {0}}
      → note_failure (insert f j sql cells s w) ≡ (t, v, ok a)
      → (raw : RawRow f.F) × (conn : Conn) × (encode_row f j
            (length w.spec.columns)
            w.next_ord
            cells
          ≡ ok raw)
        × (sql.insert_row raw w.conn ≡ ok conn)
        × Grown w v conn
        × (v.failed ≡ false)
  unfolding insert
  inserted cells s w {t} {v} h =
      elim (Result-cases (encode_row f j (length w.spec.columns) w.next_ord cells)) [
        | inr (x, e) ↦ absurd (insert_fails cells s w _ x (rw e refl) h)
        | inl (raw, e) ↦ elim (Result-cases (sql.insert_row raw w.conn)) [
          | inr (x, q) ↦ absurd (insert_fails cells s w _ x (rw (e, q) refl) h)
          | inl (conn, q) ↦
              let g = count_row-Grown s w (payload_sum cells) conn in
              let (c, p, i, o, n) =
                noted_ok (count_row f j sql s w (payload_sum cells) conn)
                  (ap note_failure (sym (insert-row cells s w raw conn e q)) ∙ h) in
              (
                raw,
                conn,
                e,
                q,
                record {
                  conn_grown = c ∙ g.conn_grown;
                  spec_grown = p ∙ g.spec_grown;
                  id_grown = i ∙ g.id_grown;
                  ord_grown = o ∙ g.ord_grown;
                },
                n,
              )
        ]
      ]

module _ (f : Float) (j : JsonMarks) {Conn : Type 0} (sql : Sql f.F Conn)
    (tables : Tables sql) where
  -- The writer after pushes that succeeded: what its file holds, and its identity.
  pub record Pushed (w v : ResultWriter Conn) (rows : List (StoredRow f.F)) : Type 0 where
    pub written : Written f j sql tables v rows
    pub spec_kept : v.spec ≡ w.spec
    pub id_kept : v.id ≡ w.id

module _ (f : Float) (j : JsonMarks) {Conn Json : Type 0} (sql : Sql f.F Conn)
    (tables : Tables sql) where
  pub push-Pushed :
      (cells : List (Cell f.F)) (s : ResultStore Conn Json) (w : ResultWriter Conn)
      (rows : List (StoredRow f.F)) {t : ResultStore Conn Json} {v : ResultWriter Conn}
      {a : Unit {0}}
      → Written f j sql tables w rows
      → All (IsText f) cells
      → push f j sql cells s w ≡ (t, v, ok a)
      → Pushed f j sql tables w v (rows ++ stored_row f (length rows) cells ∷ [])
  push-Pushed cells s w rows {t} {v} p x h = elim (Bool-cases w.failed) [
    | inl b ↦ absurd (let c = push-closed f j sql cells s w b in cc)
    | inr b ↦
        let (raw, conn, e, q, g, n) =
          inserted f j sql cells s w (sym (push-open f j sql cells s w b) ∙ h) in
        record {
          written = Grown-Written f j sql tables w v conn cells raw rows p x e q g;
          spec_kept = g.spec_grown;
          id_kept = g.id_grown;
        }
  ]
