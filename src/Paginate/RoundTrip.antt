-- ===== src/Paginate/RoundTrip.antt =====
-- From the rows that a tool stores to the rows that its client reads.
use slugaudit.Base.{
  String, refl, ℕ, ◌<◌, ◌≡◌, true, false, Option, some, List, arith, ℤ, length, drop, Result, ok,
  All, str_eq,
}
use slugaudit.ResultStore.Cell.{StoreError, Float, Cell, StoredRow, Take}
use slugaudit.ResultStore.Row.{JsonMarks}
use slugaudit.ResultStore.Row.RoundTrip.{IsText}
use slugaudit.ResultStore.Row.Given.{AllGiven, AllGiven-length}
use slugaudit.ResultStore.Reader.Pages.{fetched}
use slugaudit.ResultStore.Cursor.{Uuids, uuid_bound, to_string}
use slugaudit.ResultStore.Service
use slugaudit.ResultStore.Service.{ResultStore}
use slugaudit.ResultStore.Service.Reading.{Files, is_complete}
use slugaudit.ResultStore.Writer.{
  MetaValue, ResultSpec, ResultWriter, ResultHandle, Sql, JsonTexts, push_all, begin, finish,
}
use slugaudit.ResultStore.Writer.Contents.{Tables}
use slugaudit.ResultStore.Writer.Finish.{Registered, write_all-Registered}
use slugaudit.Paginate.{PageSpec, Stored, PageContext}
use slugaudit.Paginate.Follow.{follow, follow-Followed}

module _ (f : Float) (j : JsonMarks) (files : Files f.F) (sql : Sql f.F files.Conn)
    (tables : Tables sql) where
  -- What SQLite answers about a file that a commit has finished: its lock is not poisoned, the
  -- query of a key of `meta` yields its text, and a selection yields the rows of its table from the
  -- ordinal on.
  pub record Answering : Type 0 where
    pub open_law : (c c' : files.Conn) → sql.commit c ≡ ok c' → files.is_poisoned c' ≡ false
    pub meta_law :
        (c c' : files.Conn) (key value : String)
        → sql.commit c ≡ ok c'
        → tables.meta c' key ≡ some (MetaValue.text value)
        → files.meta_value key c' ≡ ok (some value)
    pub select_law :
        (c c' : files.Conn) (n : ℕ)
        → sql.commit c ≡ ok c'
        → files.select c' n ≡ fetched f j (drop n (tables.table c'))

module _ (u : Uuids) (f : Float) (j : JsonMarks) (files : Files f.F) (sql : Sql f.F files.Conn)
    (tables : Tables sql) {Json E S : Type 0} (Discard : Type 0)
    (from_value : Json → Option (Stored E)) (accept : S → StoredRow f.F → S × Take)
    (accept_for : PageContext E → S) (specs : ℕ → PageSpec) (clock : ℕ → ℤ) where
  complete_from :
      (conn : files.Conn)
      → files.meta_value "state" conn ≡ ok (some "complete")
      → is_complete files conn ≡ ok true
  unfolding is_complete
  complete_from conn h = rw h refl

  Registered-follow :
      (s : ResultStore files.Conn Json) (id : ℕ) (spec : ResultSpec) (completeness : Json)
      (stored : Stored E) (rows : List (StoredRow f.F)) (fuel : ℕ)
      → id < uuid_bound
      → s.nonce < uuid_bound
      → Answering f j files sql tables
      → Registered f j sql tables s id spec completeness rows
      → from_value completeness ≡ some stored
      → ((k : ℕ) → str_eq spec.tool (specs k).tool ≡ true)
      → length rows < fuel
      → (t : ResultStore files.Conn Json) × (follow u f j files Discard from_value accept accept_for
            specs clock fuel
            (to_string u (Service.cursor s id 0))
            s
          ≡ (t, some (ok rows)))
  Registered-follow s id spec completeness stored rows fuel b n a p d tools h =
      let e = p.entry in
      let c = p.uncommitted in
      let (t, now, q, _) =
        follow-Followed u f j files Discard from_value accept accept_for specs clock id e stored
          (tables.table e.conn) rows b (a.open_law c e.conn p.is_committed)
          (complete_from e.conn (a.meta_law c e.conn "state" "complete" p.is_committed p.complete))
          (λ n. a.select_law c e.conn n p.is_committed) p.held p.counted p.fits
          (rw p.completeness_kept d) (λ k. rw p.tool_kept (tools k)) fuel 0 s e.last_access
          e.delivered (omega arith) (omega arith) (n, p.registry, p.is_registry, p.found) in
      (t, q)

  -- A tool's rows, with valid UTF-8 texts, whose materialisation succeeds, where the ids of the result
  -- and of the store fit 128 bits: a client that starts at the first token and follows the tokens of the
  -- pages reads exactly one row for each, in order, at the ordinals from 0 on, with the tool's cells,
  -- where a NaN reads as NULL, and the marks of their non-finite doubles, with at most one call for
  -- each row and one more, whatever the page sizes and times are.
  pub follow-write_all :
      (texts : JsonTexts Json) (id : ℕ) (spec : ResultSpec) (todo : List (List (Cell f.F)))
      (completeness : Json) (stored : Stored E) (created now : Result StoreError ℤ)
      (s : ResultStore files.Conn Json) {w v : ResultWriter files.Conn}
      {t t' : ResultStore files.Conn Json} {handle : ResultHandle} (fuel : ℕ)
      → id < uuid_bound
      → t'.nonce < uuid_bound
      → Answering f j files sql tables
      → All (All (IsText f)) todo
      → begin f j sql id spec s ≡ ok w
      → push_all f j sql todo s w ≡ (t, v, ok tt)
      → finish f j sql texts completeness created now t v ≡ (t', ok handle)
      → from_value completeness ≡ some stored
      → ((k : ℕ) → str_eq spec.tool (specs k).tool ≡ true)
      → length todo < fuel
      → (rows : List (StoredRow f.F)) × AllGiven f 0 todo rows
        × (end_state : ResultStore files.Conn Json) × (follow u f j files Discard from_value accept
              accept_for specs clock fuel
              (to_string u (Service.cursor t' handle.id 0))
              t'
            ≡ (end_state, some (ok rows)))
  follow-write_all texts id spec todo completeness stored created now s {t' = t'} {handle} fuel i n
        a x b p q d tools h =
      let (rows, given, r, same, counted) =
        write_all-Registered f j sql tables texts id spec todo completeness created now s x b p q in
      let all : length rows ≡ length todo = AllGiven-length f 0 todo rows given in
      let (end_state, read) =
        Registered-follow t' id spec completeness stored rows fuel i n a r d tools
          (omega (arith, all, h)) in
      (rows, given, end_state, rw same read)
