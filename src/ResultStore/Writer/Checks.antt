-- ===== src/ResultStore/Writer/Checks.antt =====
-- How much a writer adds between two checks of its file's size.
use slugaudit.Base.{
  ℕ, ◌+◌, ◌^◌, ◌≤◌, ◌<◌, ◌≡◌, refl, sym, ap, subst, ◌∙◌, ◌⊎◌, inl, inr, Bool, false, ◌||◌, Option,
  none, some, List, [], ◌∷◌, ◌++◌, arith, ltb, leb, length, add64, u64_mod, Result, ok, err, ◌>>=◌,
  Bool-cases,
}
use slugaudit.ResultStore.Cell.{StoreError, Float, Cell, payload_len}
use slugaudit.ResultStore.Row.{JsonMarks, encode_row}
use slugaudit.ResultStore.Registry.{Registry}
use slugaudit.ResultStore.Service.{ResultStore, refuse_too_large, with_registry, count_too_large}
use slugaudit.ResultStore.Writer.{
  ResultWriter, Sql, Outcome, note_failure, batch_rows, batch_bytes, measure_bytes, payload_sum,
  within_budget, checkpoint, count_row, insert_encoded, insert, push, push_all,
}
use slugaudit.ResultStore.Writer.Batches.{Bounded, push-open, push-closed}

module _ {F : Type 0} where
  -- The bytes of a row: those of its texts and blobs, and eight for each other value.
  abbrev pub cell_bytes : Cell F → ℕ
  cell_bytes Cell.null = 8
  cell_bytes (Cell.int v) = 8
  cell_bytes (Cell.real v) = 8
  cell_bytes (Cell.text bytes) = length bytes
  cell_bytes (Cell.blob bytes) = length bytes

  abbrev pub row_bytes : List (Cell F) → ℕ
  row_bytes [] = 0
  row_bytes (c ∷ cells) = cell_bytes c + row_bytes cells

  abbrev pub rows_bytes : List (List (Cell F)) → ℕ
  rows_bytes [] = 0
  rows_bytes (cells ∷ rows) = row_bytes cells + rows_bytes rows

  pub rows_bytes-append :
      (xs ys : List (List (Cell F))) → rows_bytes (xs ++ ys) ≡ rows_bytes xs + rows_bytes ys
  rows_bytes-append [] ys = omega arith
  rows_bytes-append (x ∷ xs) ys = omega (arith, rows_bytes-append xs ys)

  payload_len-cell_bytes : (c : Cell F) → payload_len c ≡ cell_bytes c
  unfolding payload_len
  payload_len-cell_bytes Cell.null = refl
  payload_len-cell_bytes (Cell.int v) = refl
  payload_len-cell_bytes (Cell.real v) = refl
  payload_len-cell_bytes (Cell.text bytes) = refl
  payload_len-cell_bytes (Cell.blob bytes) = refl

  payload_sum-row_bytes :
      (cells : List (Cell F)) → row_bytes cells < u64_mod → payload_sum cells ≡ row_bytes cells
  unfolding payload_sum
  payload_sum-row_bytes [] h = refl
  payload_sum-row_bytes (c ∷ cells) h =
      omega (arith, payload_len-cell_bytes c, payload_sum-row_bytes cells (omega arith))

module _ (f : Float) (j : JsonMarks) {Conn Json : Type 0} (sql : Sql f.F Conn) where
  -- The writer's file was measured, and is within the budget.
  abbrev pub Measured : ResultStore Conn Json → ResultWriter Conn → Type 0
  Measured s w = (size : ℕ) × (measure_bytes sql w.conn ≡ ok size) × (size ≤ s.limits.max_bytes)

  -- The rows that were pushed are those up to a last check, which found the file within the budget, and
  -- fewer than a batch behind it. Before the first check there are only the latter.
  pub record Checked (s0 : ResultStore Conn Json) (w0 : ResultWriter Conn)
      (todo : List (List (Cell f.F))) : Type 0 where
    pub front : List (List (Cell f.F))
    pub back : List (List (Cell f.F))
    pub parts : todo ≡ front ++ back
    pub few_rows : length back < batch_rows
    pub few_bytes : rows_bytes back < batch_bytes
    pub found :
        (front ≡ [])
        ⊎ ((u : ResultWriter Conn) × (push_all f j sql front s0 w0 ≡ (s0, u, ok tt))
            × Measured s0 u)

  -- What a counted row leaves.
  abbrev pub Counted : ResultStore Conn Json → ResultWriter Conn → ℕ → ResultWriter Conn → Type 0
  Counted s w payload v =
      ((v.rows_since_check ≡ w.rows_since_check + 1)
        × (v.bytes_since_check ≡ w.bytes_since_check + payload)
        × (v.rows_since_check < batch_rows)
        × (v.bytes_since_check < batch_bytes))
      ⊎ ((v.rows_since_check ≡ 0) × (v.bytes_since_check ≡ 0) × Measured s v)

  too_large_refused :
      (s : ResultStore Conn Json) (r : Option (Registry Conn Json)) {a : Unit {0}}
      → (with_registry (λ r. (count_too_large r, err StoreError.too_large)) s r).1 ≡ ok a
      → ⊥
  too_large_refused s none h = absurd (cc)
  too_large_refused s (some r) h = absurd (cc)

  checkpoint_ok :
      (s : ResultStore Conn Json) (w : ResultWriter Conn) (m : Result StoreError ℕ) {a : Unit {0}}
      → measure_bytes sql w.conn ≡ m
      → (within_budget f j sql s m).1 ≡ ok a
      → ((within_budget f j sql s m).0 ≡ s) × Measured s w
  unfolding refuse_too_large
  checkpoint_ok s w (err e) q h = absurd (cc)
  checkpoint_ok s w (ok size) q h = elim (Bool-cases (ltb s.limits.max_bytes size)) [
    | inl b ↦ absurd (too_large_refused s s.registry (rw b at h))
    | inr b ↦ (rw b refl, (size, q, ground arith))
  ]

  noted :
      (o : Outcome Conn Json) {t : ResultStore Conn Json} {v : ResultWriter Conn} {a : Unit {0}}
      → note_failure o ≡ (t, v, ok a)
      → (o.0 ≡ t) × (o.2 ≡ ok a) × (record (o.1) { failed = false } ≡ v)
  noted (s, w, err e) h = absurd (cc)
  noted (s, w, ok u) h = (
    ap (λ (o : Outcome Conn Json). o.0) h,
    ap (λ (o : Outcome Conn Json). o.2) h,
    ap (λ (o : Outcome Conn Json). o.1) h,
  )

  count_row-Counted :
      (s : ResultStore Conn Json) (w : ResultWriter Conn) (payload : ℕ) (conn : Conn)
      {t : ResultStore Conn Json} {v : ResultWriter Conn} {a : Unit {0}}
      → Bounded w
      → payload < 2 ^ 63
      → note_failure (count_row f j sql s w payload conn) ≡ (t, v, ok a)
      → (t ≡ s) × Counted s w payload v
  unfolding checkpoint
  count_row-Counted s w payload conn {t} {v} {a} b p h = elim (Bool-cases due) [
    | inl e ↦
        let w' = record w {
          conn = conn;
          next_ord = add64 w.next_ord 1;
          rows_since_check = add64 w.rows_since_check 1;
          bytes_since_check = add64 w.bytes_since_check payload;
        } in
        let (p1, p2, same) = noted (checkpoint f j sql s w') (rw e at h) in
        let (kept, measured) = checkpoint_ok s w' (measure_bytes sql conn) refl p2 in
        (
          sym p1 ∙ kept,
          inr (
            ap (λ (x : ResultWriter Conn). x.rows_since_check) (sym same),
            ap (λ (x : ResultWriter Conn). x.bytes_since_check) (sym same),
            subst (λ (x : ResultWriter Conn). Measured s x) same measured,
          ),
        )
    | inr e ↦
        let h' = rw e at h in
        let same = ap (λ (o : Outcome Conn Json). o.1) h' in
        let rows = ap (λ (x : ResultWriter Conn). x.rows_since_check) same in
        let bytes = ap (λ (x : ResultWriter Conn). x.bytes_since_check) same in
        (
          ap (λ (o : Outcome Conn Json). o.0) (sym h'),
          inl (
            omega (arith, rows, b.0),
            omega (arith, bytes, b.1, p),
            ground (arith, rows),
            ground (arith, bytes),
          ),
        )
  ]
    where
      due : Bool
      due =
          leb batch_rows (add64 w.rows_since_check 1)
          || leb batch_bytes (add64 w.bytes_since_check payload)

  pub push-Counted :
      (cells : List (Cell f.F)) (s : ResultStore Conn Json) (w : ResultWriter Conn)
      {t : ResultStore Conn Json} {v : ResultWriter Conn} {a : Unit {0}}
      → Bounded w
      → row_bytes cells < 2 ^ 63
      → push f j sql cells s w ≡ (t, v, ok a)
      → (t ≡ s) × Counted s w (row_bytes cells) v
  unfolding insert
  push-Counted cells s w {t} {v} {a} b p h = elim (Bool-cases w.failed) [
    | inl q ↦ absurd (let c = push-closed f j sql cells s w q in cc)
    | inr q ↦
        by_result
          (encode_row f j (length w.spec.columns) w.next_ord cells >>= λ raw.
            sql.insert_row raw w.conn)
          (sym (push-open f j sql cells s w q) ∙ h)
  ]
    where
      by_result :
          (r : Result StoreError Conn)
          → note_failure (insert_encoded f j sql s w (payload_sum cells) r) ≡ (t, v, ok a)
          → (t ≡ s) × Counted s w (row_bytes cells) v
      by_result (err e) k = absurd (cc)
      by_result (ok conn) k =
          let same = payload_sum-row_bytes cells (omega (arith, p)) in
          count_row-Counted s w (row_bytes cells) conn b p (rw same at k)
