-- ===== src/ResultStore/Writer/Runs.antt =====
-- The size checks of a run of pushes.
use slugaudit.Base.{
  ℕ, ◌^◌, ◌<◌, ◌≡◌, refl, sym, ap, subst, ◌∙◌, inl, inr, ◌||◌, List, [], ◌∷◌, ◌++◌, arith, ltb,
  ◌==◌, length, length-append, Result, ok, err, bind_ok, All, Bool-cases,
}
use mathlib.Core.List.{append-nil, append_assoc}
use slugaudit.ResultStore.Cell.{StoreError, Float, Cell}
use slugaudit.ResultStore.Row.{JsonMarks}
use slugaudit.ResultStore.Service.{ResultStore}
use slugaudit.ResultStore.Writer.{
  ResultSpec, ResultWriter, Sql, Outcome, push_next, push, push_all, begin, max_columns,
  fresh_writer,
}
use slugaudit.ResultStore.Writer.Batches.{Bounded}
use slugaudit.ResultStore.Writer.Checks.{
  row_bytes, rows_bytes, rows_bytes-append, Checked, push-Counted,
}

module _ (f : Float) (j : JsonMarks) {Conn Json : Type 0} (sql : Sql f.F Conn) where
  push_all-step :
      (rows : List (List (Cell f.F))) (o : Outcome Conn Json) {t : ResultStore Conn Json}
      {v : ResultWriter Conn} {a : Unit {0}}
      → push_next (λ s w. push_all f j sql rows s w) o ≡ (t, v, ok a)
      → (o.2 ≡ ok tt) × (push_all f j sql rows o.0 o.1 ≡ (t, v, ok a))
  push_all-step rows (s, w, ok u) h = (refl, h)
  push_all-step rows (s, w, err e) h = absurd (cc)

  next_ok :
      (next : ResultStore Conn Json → ResultWriter Conn → Outcome Conn Json) (o : Outcome Conn Json)
      → o.2 ≡ ok tt
      → push_next next o ≡ next o.0 o.1
  next_ok next (s, w, ok u) h = refl
  next_ok next (s, w, err e) h = absurd (cc)

  run-snoc :
      (done : List (List (Cell f.F))) (cells : List (Cell f.F)) (s : ResultStore Conn Json)
      (w : ResultWriter Conn) {s' t : ResultStore Conn Json} {w' v : ResultWriter Conn}
      → push_all f j sql done s w ≡ (s', w', ok tt)
      → push f j sql cells s' w' ≡ (t, v, ok tt)
      → push_all f j sql (done ++ cells ∷ []) s w ≡ (t, v, ok tt)
  unfolding push_all
  run-snoc [] cells s w {s'} {t} {w'} {v} r h =
      let p : s' ≡ s = ap (λ (o : Outcome Conn Json). o.0) (sym r) in
      let q : w' ≡ w = ap (λ (o : Outcome Conn Json). o.1) (sym r) in
      let k : push f j sql cells s w ≡ (t, v, ok tt) =
        ap (λ x. push f j sql cells x w) (sym p) ∙ ap (push f j sql cells s') (sym q) ∙ h in
      ap (push_next (λ x y. push_all f j sql [] x y)) k
  run-snoc (c ∷ done) cells s w r h =
      let (o, rest) = push_all-step done (push f j sql c s w) r in
      next_ok (λ x y. push_all f j sql (done ++ cells ∷ []) x y) (push f j sql c s w) o
      ∙ run-snoc done cells (push f j sql c s w).0 (push f j sql c s w).1 rest h

  -- What holds after the pushes `done`.
  record Running (s0 : ResultStore Conn Json) (w0 : ResultWriter Conn)
      (done : List (List (Cell f.F))) (w : ResultWriter Conn) : Type 0 where
    pub run : push_all f j sql done s0 w0 ≡ (s0, w, ok tt)
    pub so_far : Checked f j sql s0 w0 done
    pub rows : w.rows_since_check ≡ length so_far.back
    pub bytes : w.bytes_since_check ≡ rows_bytes so_far.back

  push-Running :
      (s0 : ResultStore Conn Json) (w0 : ResultWriter Conn) (done : List (List (Cell f.F)))
      (w : ResultWriter Conn) (cells : List (Cell f.F)) {t : ResultStore Conn Json}
      {v : ResultWriter Conn}
      → Running s0 w0 done w
      → row_bytes cells < 2 ^ 63
      → push f j sql cells s0 w ≡ (t, v, ok tt)
      → (t ≡ s0) × Running s0 w0 (done ++ cells ∷ []) v
  push-Running s0 w0 done w cells {t} {v} x p h =
      let before = x.so_far in
      let b : Bounded w =
        (omega (arith, x.rows, before.few_rows), omega (arith, x.bytes, before.few_bytes)) in
      let (same, counted) = push-Counted f j sql cells s0 w b p h in
      let run : push_all f j sql (done ++ cells ∷ []) s0 w0 ≡ (s0, v, ok tt) =
        run-snoc done cells s0 w0 x.run h
        ∙ ap (λ (y : ResultStore Conn Json). (y, v, ok tt)) same in
      (
        same,
        elim counted [
          | inl (r, k, r', k') ↦
              let rows : v.rows_since_check ≡ length (before.back ++ cells ∷ []) =
                omega (arith, r, x.rows, length-append before.back (cells ∷ [])) in
              let bytes : v.bytes_since_check ≡ rows_bytes (before.back ++ cells ∷ []) =
                omega (arith, k, x.bytes, rows_bytes-append before.back (cells ∷ [])) in
              record {
                run = run;
                so_far = record {
                  front = before.front;
                  back = before.back ++ cells ∷ [];
                  parts =
                      ap (λ y. y ++ cells ∷ []) before.parts
                      ∙ append_assoc before.front before.back (cells ∷ []);
                  few_rows = omega (arith, rows, r');
                  few_bytes = omega (arith, bytes, k');
                  found = before.found;
                };
                rows = rows;
                bytes = bytes;
              }
          | inr (r, k, measured) ↦ record {
            run = run;
            so_far = record {
              front = done ++ cells ∷ [];
              back = [];
              parts = sym (append-nil (done ++ cells ∷ []));
              few_rows = omega arith;
              few_bytes = omega arith;
              found = inr (v, run, measured);
            };
            rows = r;
            bytes = k;
          }
        ],
      )

  push_all-Running :
      (s0 : ResultStore Conn Json) (w0 : ResultWriter Conn) (done todo : List (List (Cell f.F)))
      (s : ResultStore Conn Json) (w : ResultWriter Conn) {t : ResultStore Conn Json}
      {v : ResultWriter Conn} {a : Unit {0}}
      → s ≡ s0
      → Running s0 w0 done w
      → All (λ cells. row_bytes cells < 2 ^ 63) todo
      → push_all f j sql todo s w ≡ (t, v, ok a)
      → Checked f j sql s0 w0 (done ++ todo)
  unfolding push_all
  push_all-Running s0 w0 done [] s w q x small h = rw (append-nil done) x.so_far
  push_all-Running s0 w0 done (cells ∷ todo) s w q x small h =
      let (o, rest) = push_all-step todo (push f j sql cells s w) h in
      let pushed : push f j sql cells s0 w
          ≡ ((push f j sql cells s w).0, (push f j sql cells s w).1, ok tt) =
        ap (λ y. push f j sql cells y w) (sym q)
        ∙ ap
            (λ (r : Result StoreError (Unit {0})).
              ((push f j sql cells s w).0, (push f j sql cells s w).1, r))
            o in
      let (same, x') = push-Running s0 w0 done w cells x small.0 pushed in
      subst (Checked f j sql s0 w0) (append_assoc done (cells ∷ []) todo)
        (push_all-Running s0 w0 (done ++ cells ∷ []) todo _ _ same x' small.1 rest)

  begun_fresh :
      (id : ℕ) (spec : ResultSpec) (s : ResultStore Conn Json) {w : ResultWriter Conn}
      → begin f j sql id spec s ≡ ok w
      → (w.rows_since_check ≡ 0) × (w.bytes_since_check ≡ 0)
  unfolding begin
  begun_fresh id spec s {w} h =
      elim (Bool-cases (length spec.columns == 0 || ltb max_columns (length spec.columns))) [
        | inl b ↦ absurd (let h' = rw b at h in cc)
        | inr b ↦
            let (created, p, h1) = bind_ok (sql.create s.session id) _ (rw b at h) in
            let (c, q, h2) = bind_ok (sql.create_schema (length spec.columns) created) _ h1 in
            let (c', q', h3) = bind_ok (sql.begin_transaction c) _ h2 in
            let same : fresh_writer id spec c' ≡ w = cc in
            (
              ap (λ (x : ResultWriter Conn). x.rows_since_check) (sym same),
              ap (λ (x : ResultWriter Conn). x.bytes_since_check) (sym same),
            )
      ]

  -- A materialisation whose `begin` and pushes succeed, each row under 2^63 bytes: the rows fall into
  -- those up to a last check, when the file was measured and was within the budget of the store, and
  -- those behind it, which are fewer than `BATCH_ROWS` and have fewer than `BATCH_BYTES` bytes; without
  -- a check all rows are of the latter.
  pub push_all-Checked :
      (id : ℕ) (spec : ResultSpec) (todo : List (List (Cell f.F))) (s : ResultStore Conn Json)
      {w v : ResultWriter Conn} {t : ResultStore Conn Json}
      → begin f j sql id spec s ≡ ok w
      → All (λ cells. row_bytes cells < 2 ^ 63) todo
      → push_all f j sql todo s w ≡ (t, v, ok tt)
      → Checked f j sql s w todo
  unfolding push_all
  push_all-Checked id spec todo s {w} b small h =
      let (rows, bytes) = begun_fresh id spec s b in
      push_all-Running s w [] todo s w refl
        (record {
          run = refl;
          so_far = record {
            front = [];
            back = [];
            parts = refl;
            few_rows = omega arith;
            few_bytes = omega arith;
            found = inl refl;
          };
          rows = rows;
          bytes = bytes;
        })
        small h
