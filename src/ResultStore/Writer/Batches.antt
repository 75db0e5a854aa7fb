-- ===== src/ResultStore/Writer/Batches.antt =====
-- The guard of a push, and what follows a failure.
use slugaudit.Base.{
  ◌<◌, ◌≡◌, sym, ap, ◌∙◌, inl, inr, true, false, List, if◌then◌else◌, ℤ, Result, ok, err,
  Bool-cases,
}
use slugaudit.ResultStore.Cell.{StoreError, Float, Cell}
use slugaudit.ResultStore.Row.{JsonMarks}
use slugaudit.ResultStore.Service.{ResultStore}
use slugaudit.ResultStore.Writer.{
  ResultWriter, Sql, JsonTexts, Outcome, already_failed, note_failure, batch_rows, batch_bytes,
  insert, push, finish, finish_at,
}

-- Neither batch bound is reached.
abbrev pub Bounded : {Conn : Type 0} → ResultWriter Conn → Type 0
Bounded w = (w.rows_since_check < batch_rows) × (w.bytes_since_check < batch_bytes)

module _ (f : Float) (j : JsonMarks) {Conn Json : Type 0} (sql : Sql f.F Conn) where
  -- The guard of `push`.
  pub push-open :
      (cells : List (Cell f.F)) (s : ResultStore Conn Json) (w : ResultWriter Conn)
      → w.failed ≡ false
      → push f j sql cells s w ≡ note_failure (insert f j sql cells s w)
  unfolding push
  push-open cells s w h =
      ap (λ b. if b then (s, w, err already_failed) else note_failure (insert f j sql cells s w)) h

  pub push-closed :
      (cells : List (Cell f.F)) (s : ResultStore Conn Json) (w : ResultWriter Conn)
      → w.failed ≡ true
      → push f j sql cells s w ≡ (s, w, err already_failed)
  unfolding push
  push-closed cells s w h =
      ap (λ b. if b then (s, w, err already_failed) else note_failure (insert f j sql cells s w)) h

  noted :
      (o : Outcome Conn Json) {t : ResultStore Conn Json} {v : ResultWriter Conn} {e : StoreError}
      → note_failure o ≡ (t, v, err e)
      → v.failed ≡ true
  noted (s, w, ok u) h = absurd (cc)
  noted (s, w, err x) {t} {v} h = sym (ap (λ (o : Outcome Conn Json). o.1.failed) h)

  push-failed :
      (cells : List (Cell f.F)) (s : ResultStore Conn Json) (w : ResultWriter Conn)
      {t : ResultStore Conn Json} {v : ResultWriter Conn} {e : StoreError}
      → push f j sql cells s w ≡ (t, v, err e)
      → v.failed ≡ true
  push-failed cells s w {t} {v} h = elim (Bool-cases w.failed) [
    | inl q ↦
        let same : w ≡ v =
          ap (λ (o : Outcome Conn Json). o.1) (sym (push-closed cells s w q) ∙ h) in
        ap (λ (x : ResultWriter Conn). x.failed) (sym same) ∙ q
    | inr q ↦ noted (insert f j sql cells s w) (sym (push-open cells s w q) ∙ h)
  ]

  -- After a push that failed, the writer refuses every further row and the end of the result; neither
  -- changes the writer or the store.
  pub push-finality :
      (texts : JsonTexts Json) (cells : List (Cell f.F)) (s : ResultStore Conn Json)
      (w : ResultWriter Conn) {t : ResultStore Conn Json} {v : ResultWriter Conn} {e : StoreError}
      → push f j sql cells s w ≡ (t, v, err e)
      → (more_cells : List (Cell f.F)) (completeness : Json) (created now : Result StoreError ℤ)
        (s' : ResultStore Conn Json)
      → (push f j sql more_cells s' v ≡ (s', v, err already_failed))
        × (finish f j sql texts completeness created now s' v ≡ (s', err already_failed))
  unfolding finish
  push-finality texts cells s w {v = v} h more_cells completeness created now s' =
      let q : v.failed ≡ true = push-failed cells s w h in
      (
        push-closed more_cells s' v q,
        ap
            (λ b.
              if b
              then (s', err already_failed)
              else finish_at f j sql texts completeness now s' v created)
            q,
      )
