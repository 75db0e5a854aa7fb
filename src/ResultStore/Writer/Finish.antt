-- ===== src/ResultStore/Writer/Finish.antt =====
-- A materialisation that succeeds is a registered result with exactly the pushed rows.
use slugaudit.Base.{
  ℕ, ◌≤◌, ◌≡◌, refl, sym, ap, ◌∙◌, inl, inr, some, List, [], arith, if◌then◌else◌, ℤ, length,
  i64_max, Result, ok, err, All, Bool-cases,
}
use slugaudit.ResultStore.Entry.{Entry, new_entry}
use slugaudit.ResultStore.Cell.{StoreError, Float, Cell, StoredRow}
use slugaudit.ResultStore.Row.{JsonMarks}
use slugaudit.ResultStore.Row.RoundTrip.{IsText}
use slugaudit.ResultStore.Row.Given.{AllGiven}
use slugaudit.ResultStore.Reader.Pages.{Holds}
use slugaudit.ResultStore.Registry.{Registry, find}
use slugaudit.ResultStore.Service.{ResultStore}
use slugaudit.ResultStore.Service.Admitted.{admit-Entered}
use slugaudit.ResultStore.Writer.{
  MetaValue, ResultSpec, ResultWriter, ResultHandle, Sql, JsonTexts, push_all, begin, finish,
  finish_at, handed, admit_file, committed, meta_of_writer, already_failed,
}
use slugaudit.ResultStore.Writer.Contents.{Tables, stored_rows, Written}
use slugaudit.ResultStore.Writer.Contents.Registered.{
  committed-table, begin-Written, push_all-Pushed, length-stored_rows, stored_rows-AllGiven,
}

module _ (f : Float) (j : JsonMarks) {Conn Json : Type 0} (sql : Sql f.F Conn)
    (tables : Tables sql) where
  -- The store holds the rows as a result, under the id and with the metadata of the materialisation.
  pub record Registered (s : ResultStore Conn Json) (id : ℕ) (spec : ResultSpec)
      (completeness : Json) (rows : List (StoredRow f.F)) : Type 0 where
    pub registry : Registry Conn Json
    pub entry : Entry Conn Json
    pub is_registry : s.registry ≡ some registry
    pub found : find id registry.entries ≡ some entry
    pub uncommitted : Conn
    pub is_committed : sql.commit uncommitted ≡ ok entry.conn
    pub complete : tables.meta entry.conn "state" ≡ some (MetaValue.text "complete")
    pub held : Holds f j (length entry.meta.columns) 0 (tables.table entry.conn) rows
    pub counted : entry.meta.row_count ≡ length rows
    pub tool_kept : entry.meta.tool ≡ spec.tool
    pub completeness_kept : entry.meta.completeness ≡ completeness
    pub fits : length rows ≤ i64_max

  handed_ok :
      (handle : ResultHandle) (x : ResultStore Conn Json × Result StoreError (Unit {0}))
      {t : ResultStore Conn Json} {h : ResultHandle}
      → handed f j sql handle x ≡ (t, ok h)
      → (x ≡ (t, ok tt)) × (handle ≡ h)
  handed_ok handle (s, err e) q = absurd (cc)
  handed_ok handle (s, ok u) q = (cc, cc)

  admit_file-Registered :
      (texts : JsonTexts Json) (completeness : Json) (created : ℤ) (now : Result StoreError ℤ)
      (s : ResultStore Conn Json) (w : ResultWriter Conn) (rows : List (StoredRow f.F))
      (file : Result StoreError (Conn × ℕ)) {t : ResultStore Conn Json} {handle : ResultHandle}
      → Written f j sql tables w rows
      → committed f j sql texts (meta_of_writer f j sql w completeness created) w.conn ≡ file
      → admit_file f j sql w.id (meta_of_writer f j sql w completeness created) now s file
        ≡ (t, ok handle)
      → Registered t w.id w.spec completeness rows
        × (handle.id ≡ w.id)
        × (handle.row_count ≡ length rows)
  unfolding new_entry
  admit_file-Registered texts completeness created now s w rows (err e) p c h = absurd (cc)
  admit_file-Registered texts completeness created now s w rows (ok (conn, bytes)) p c h =
      let meta = meta_of_writer f j sql w completeness created in
      let (complete, (x, end), kept, top) =
        committed-table f j sql tables texts meta w.conn conn bytes c in
      let (done, same) =
        handed_ok (record { id = w.id; row_count = w.next_ord; bytes = bytes }) _ h in
      let (r, q, (seq, found)) =
        admit-Entered w.id (new_entry conn meta bytes created) now s done in
      (
        record {
          registry = r;
          entry = record (new_entry conn meta bytes created) { seq = seq };
          is_registry = q;
          found = found;
          uncommitted = x;
          is_committed = end;
          complete = complete;
          held = rw kept p.held;
          counted = p.counted;
          tool_kept = refl;
          completeness_kept = refl;
          fits = omega (arith, p.counted);
        },
        ap (λ (x : ResultHandle). x.id) (sym same),
        ap (λ (x : ResultHandle). x.row_count) (sym same) ∙ p.counted,
      )

  finish_at-Registered :
      (texts : JsonTexts Json) (completeness : Json) (now : Result StoreError ℤ)
      (s : ResultStore Conn Json) (w : ResultWriter Conn) (rows : List (StoredRow f.F))
      (created : Result StoreError ℤ) {t : ResultStore Conn Json} {handle : ResultHandle}
      → Written f j sql tables w rows
      → finish_at f j sql texts completeness now s w created ≡ (t, ok handle)
      → Registered t w.id w.spec completeness rows
        × (handle.id ≡ w.id)
        × (handle.row_count ≡ length rows)
  finish_at-Registered texts completeness now s w rows (err e) p h = absurd (cc)
  finish_at-Registered texts completeness now s w rows (ok created) p h =
      admit_file-Registered texts completeness created now s w rows _ p refl h

  finish-Registered :
      (texts : JsonTexts Json) (completeness : Json) (created now : Result StoreError ℤ)
      (s : ResultStore Conn Json) (w : ResultWriter Conn) (rows : List (StoredRow f.F))
      {t : ResultStore Conn Json} {handle : ResultHandle}
      → Written f j sql tables w rows
      → finish f j sql texts completeness created now s w ≡ (t, ok handle)
      → Registered t w.id w.spec completeness rows
        × (handle.id ≡ w.id)
        × (handle.row_count ≡ length rows)
  unfolding finish
  finish-Registered texts completeness created now s w rows p h = elim (Bool-cases w.failed) [
    | inl b ↦
        let c : finish f j sql texts completeness created now s w ≡ (s, err already_failed) =
          ap
            (λ x.
              if x
              then (s, err already_failed)
              else finish_at f j sql texts completeness now s w created)
            b in
        absurd (cc)
    | inr b ↦
        let c : finish f j sql texts completeness created now s w
            ≡ finish_at f j sql texts completeness now s w created =
          ap
            (λ x.
              if x
              then (s, err already_failed)
              else finish_at f j sql texts completeness now s w created)
            b in
        finish_at-Registered texts completeness now s w rows created p (sym c ∙ h)
  ]

  -- A materialisation whose `begin`, pushes and `finish` all succeed, of rows whose texts are valid
  -- UTF-8: the result is registered under the writer's id and the spec's tool, its file is
  -- complete and holds exactly one row for each push, in order, at the ordinals from 0 on, with the
  -- pushed cells, where a NaN reads as NULL, and the marks of their non-finite doubles; the metadata
  -- and the handle count the rows.
  pub write_all-Registered :
      (texts : JsonTexts Json) (id : ℕ) (spec : ResultSpec) (todo : List (List (Cell f.F)))
      (completeness : Json) (created now : Result StoreError ℤ) (s : ResultStore Conn Json)
      {w v : ResultWriter Conn} {t t' : ResultStore Conn Json} {handle : ResultHandle}
      → All (All (IsText f)) todo
      → begin f j sql id spec s ≡ ok w
      → push_all f j sql todo s w ≡ (t, v, ok tt)
      → finish f j sql texts completeness created now t v ≡ (t', ok handle)
      → (rows : List (StoredRow f.F)) × AllGiven f 0 todo rows
        × Registered t' id spec completeness rows
        × (handle.id ≡ id)
        × (handle.row_count ≡ length todo)
  write_all-Registered texts id spec todo completeness created now s {w} {v} {t} {t'} {handle} x b p
        q =
      let (p0, is, ii) = begin-Written f j sql tables id spec s b in
      let done = push_all-Pushed f j sql tables todo s w [] p0 x p in
      let spec_same : v.spec ≡ spec = done.spec_kept ∙ is in
      let id_same : v.id ≡ id = done.id_kept ∙ ii in
      let (registered, same, counted) =
        rw (spec_same, id_same) at
          (finish-Registered texts completeness created now t v (stored_rows f 0 todo) done.written
            q) in
      (
        stored_rows f 0 todo,
        stored_rows-AllGiven f 0 todo,
        registered,
        same,
        counted ∙ length-stored_rows f 0 todo,
      )
