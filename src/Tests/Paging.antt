-- ===== src/Tests/Paging.antt =====
-- A result of three rows that is stored, paged two rows at a time, and continued by its tokens.
use slugaudit.Base.{
  ap, str_eq, ℕ, ◌-◌, ◌≡◌, refl, true, false, Option, none, some, List, [], ◌∷◌, ◌++◌, String,
  arith, ltb, ◌==◌, if◌then◌else◌, pos, length, drop, Result, ok, err, is_utf8, All, Text,
}
use slugaudit.ResultStore.Entry.{Entry, is_active, new_entry}
use slugaudit.ResultStore.Registry
use slugaudit.ResultStore.Registry.{
  Registry, empty_registry, find, insert, remove, enter, plan_reclaim, reclaim_all, count_class,
}
use slugaudit.ResultStore.Registry.Outcome.{IsValid}
use slugaudit.ResultStore.Registry.Candidates.{active_bytes}
use slugaudit.ResultStore.Cell.{
  StoreError, Float, Cell, StoredRow, Take, taken, skipped, mark_of, payload_len,
}
use slugaudit.ResultStore.Row.{
  ValueRef, RawRow, JsonMarks, to_sql, encode_marks, marks_from, encode_row, decode_row,
  decode_cells, decode_cell, decode_marks,
}
use slugaudit.ResultStore.Row.RoundTrip.{IsText}
use slugaudit.ResultStore.Reader.Pages.{fetched, row, nothing}
use slugaudit.ResultStore.Cursor.{to_string}
use slugaudit.Tests.Ids.{uuids}
use slugaudit.ResultStore.Service
use slugaudit.ResultStore.Service.{ResultStore, SweepOutcome, decode_cursor, cursor, refuse_cursor}
use slugaudit.ResultStore.Service.Stats.{snapshot}
use slugaudit.ResultStore.Service.Stats.Totals.{snapshot-totals, results_of, bytes_of}
use slugaudit.ResultStore.Service.Reading.{Files}
use slugaudit.ResultStore.Service.Keeps.{StoreValid}
use slugaudit.ResultStore.Service.Issued.{decode_cursor_sound}
use slugaudit.ResultStore.Service.Reachability.{
  Reachable, here, after, admitting, refusing, Reachable-StoreValid, decode_cursor-Reachable,
}
use slugaudit.ResultStore.Writer.{
  ResultSpec, ResultWriter, ResultHandle, Sql, JsonTexts, Outcome, push, push_all,
  insert as insert_cells, begin, finish, fresh_writer, write_meta, payload_sum, already_failed,
}
use slugaudit.ResultStore.Writer.Batches.{push-finality}
use slugaudit.ResultStore.Writer.Checks.{Checked}
use slugaudit.ResultStore.Writer.Runs.{push_all-Checked}
use slugaudit.ResultStore.Row.Given.{AllGiven}
use slugaudit.ResultStore.Service.Reading.{is_complete}
use slugaudit.ResultStore.Writer.{MetaValue}
use slugaudit.ResultStore.Writer.Contents.{Tables}
use slugaudit.ResultStore.Writer.Finish.{Registered, write_all-Registered}
use slugaudit.Paginate.{PageSpec, Stored, PageContext, Completeness, continue_page}
use slugaudit.Paginate.Follow.{follow, Followed, Standing, follow-Followed}
use slugaudit.Paginate.Answers.{Answer, continue_page-Answer}
use slugaudit.Paginate.RoundTrip.{Answering, follow-write_all}

abbrev few : Float
few = record {
  F = ℕ;
  is_nan = λ v. v == 0;
  is_infinity = λ v. v == 1;
  is_neg_infinity = λ v. v == 2;
}

no_text : (marks : List (ℕ × String)) (s : String) → none ≡ some s → none ≡ some marks
no_text marks s h = cc

-- JSON that has no text for marks; the rows here have none.
abbrev no_marks : JsonMarks
no_marks = record { to_string = λ marks. none; from_str = λ s. none; round_trip = no_text }

-- A file is its rows and what was put into `meta`, the last first.
abbrev File : Type 0
File = List (RawRow ℕ) × List (String × MetaValue)

abbrev look : String → List (String × MetaValue) → Option MetaValue
look k [] = none
look k ((key, v) ∷ meta) = if str_eq key k then some v else look k meta

abbrev text_of : Option MetaValue → Option String
text_of none = none
text_of (some (MetaValue.text s)) = some s
text_of (some (MetaValue.integer n)) = none

abbrev files : Files ℕ
files = record {
  Conn = File;
  is_poisoned = λ c. false;
  meta_value = λ key c. ok (text_of (look key c.1));
  select = λ c n. fetched few no_marks (drop n c.0);
}

abbrev sql : Sql ℕ File
sql = record {
  create = λ session id. ok ([], []);
  create_schema = λ columns c. ok ([], []);
  begin_transaction = λ c. ok c;
  insert_row = λ raw c. ok (c.0 ++ raw ∷ [], c.1);
  put = λ key v c. ok (c.0, (key, v) ∷ c.1);
  set_bytes = λ bytes c. ok c;
  commit = λ c. ok c;
  pragma = λ name c. ok 4;
}

same_file : (c c' : File) → ◌≡◌ {A = Result StoreError File} (ok c) (ok c') → c' ≡ c
same_file c c' h = cc

same_rows : (c c' : File) → ◌≡◌ {A = Result StoreError File} (ok c) (ok c') → c'.0 ≡ c.0
same_rows c c' h = ap (λ (x : File). x.0) (same_file c c' h)

abbrev tables : Tables sql
tables = record {
  table = λ c. c.0;
  meta = λ c k. look k c.1;
  schema_law = λ columns c c' h. same_rows ([], []) c' h;
  begin_law = same_rows;
  insert_law = λ raw c c' o h. same_rows (c.0 ++ raw ∷ [], c.1) c' h;
  put_law = λ key v c c' h. same_rows (c.0, (key, v) ∷ c.1) c' h;
  set_bytes_law = λ bytes c c' h. same_rows c c' h;
  commit_law = same_rows;
  put_meta_law =
      λ key v c c' k h. ap (λ (x : File). look k x.1) (same_file (c.0, (key, v) ∷ c.1) c' h);
  set_bytes_meta_law = λ bytes c c' k h n. ap (λ (x : File). look k x.1) (same_file c c' h);
  commit_meta_law = λ c c' k h. ap (λ (x : File). look k x.1) (same_file c c' h);
}

abbrev swept : SweepOutcome
swept = record { removed_files = 0; live_owners_skipped = 0; errors = 0; first_error = none }

abbrev store : ResultStore File ℕ
store = record {
  session = 3;
  nonce = 7;
  limits = record { max_bytes = 1000; active_grace_secs = 900 };
  registry = some empty_registry;
  sweep = swept;
}

store-StoreValid : StoreValid store
store-StoreValid = record { distinct = tt; counted = refl; within = omega arith }

abbrev spec : ResultSpec
spec = record { tool = "query"; project = "p"; revision_id = "r"; columns = "n" ∷ [] }

abbrev todo : List (List (Cell ℕ))
todo = (Cell.int (pos 5) ∷ []) ∷ (Cell.text (97 ∷ []) ∷ []) ∷ (Cell.int (pos 6) ∷ []) ∷ []

abbrev texts : JsonTexts ℕ
texts = record { columns = λ names. some "names"; value = λ v. some "value" }

abbrev writer : ResultWriter File
writer = fresh_writer 5 spec ([], [])

begun : begin few no_marks sql 5 spec store ≡ ok writer
unfolding begin
begun = refl

abbrev pushed : Outcome File ℕ
pushed = push_all few no_marks sql todo store writer

pushed_ok : push_all few no_marks sql todo store writer ≡ (pushed.0, pushed.1, ok tt)
unfolding push_all push insert_cells encode_row encode_marks marks_from mark_of to_sql payload_sum
    payload_len
pushed_ok = refl

abbrev handle : ResultHandle
handle = record { id = 5; row_count = 3; bytes = 16 }

abbrev finished : ResultStore File ℕ × Result StoreError ResultHandle
finished = finish few no_marks sql texts 0 (ok (pos 100)) (ok (pos 101)) pushed.0 pushed.1

finished_ok :
    finish few no_marks sql texts 0 (ok (pos 100)) (ok (pos 101)) pushed.0 pushed.1
    ≡ (finished.0, ok handle)
unfolding push_all push insert_cells encode_row encode_marks marks_from mark_of to_sql payload_sum
    payload_len finish write_meta Service.admit Registry.admit plan_reclaim reclaim_all enter insert
    remove new_entry
finished_ok = refl

nonce_kept : finished.0.nonce ≡ 7
unfolding push_all push insert_cells encode_row encode_marks marks_from mark_of to_sql payload_sum
    payload_len finish write_meta Service.admit Registry.admit plan_reclaim reclaim_all enter insert
    remove new_entry
nonce_kept = refl

todo-texts : All (All (IsText few)) todo
unfolding is_utf8
todo-texts = ((tt, tt), ((refl, tt), ((tt, tt), tt)))

write_all-Registered_example :
    (rows : List (StoredRow ℕ)) × AllGiven few 0 todo rows
    × Registered few no_marks sql tables finished.0 5 spec 0 rows
    × (handle.id ≡ 5)
    × (handle.row_count ≡ length todo)
write_all-Registered_example =
    write_all-Registered few no_marks sql tables texts 5 spec todo 0 (ok (pos 100)) (ok (pos 101))
      store todo-texts begun pushed_ok finished_ok

abbrev answering : Answering few no_marks files sql tables
answering = record {
  open_law = λ c c' p. refl;
  meta_law = λ c c' key value p h. ap (λ (v : Option MetaValue). ok (text_of v)) h;
  select_law = λ c c' n p. refl;
}

abbrev stored : Stored ℕ
stored = record { completeness = Completeness.complete; extra = 0; page_bytes = 2; ceiling = 9 }

abbrev decode : ℕ → Option (Stored ℕ)
decode v = some stored

-- The budget of a page counts rows; calls ask for other sizes.
abbrev two : ℕ → StoredRow ℕ → ℕ × Take
two left r = if ltb 0 left then (left - 1, taken) else (left, skipped)

abbrev budget : PageContext ℕ → ℕ
budget context = context.page_bytes

abbrev specs : ℕ → PageSpec
specs k = record {
  tool = "query";
  columns = [];
  page_bytes = 0;
  requested_page_bytes = some k;
  ceiling = 0;
}

abbrev token : Text
token = to_string uuids (cursor finished.0 handle.id 0)

follow-write_all_example :
    (rows : List (StoredRow ℕ)) × AllGiven few 0 todo rows
    × (end_state : ResultStore File ℕ) × (follow uuids few no_marks files ℕ decode two budget specs
          (λ k. pos k)
          4
          token
          finished.0
        ≡ (end_state, some (ok rows)))
follow-write_all_example =
    follow-write_all uuids few no_marks files sql tables ℕ decode two budget specs (λ k. pos k)
      texts 5 spec todo 0 stored (ok (pos 100)) (ok (pos 101)) store 4 (omega arith)
      (rw nonce_kept (omega arith)) answering todo-texts begun pushed_ok finished_ok refl
      (λ k. refl) (omega arith)

continue_page-Answer_example :
    Answer uuids few no_marks files ℕ decode two budget finished.0 token (specs 2) (
      continue_page uuids few no_marks files {Discard = ℕ} decode two budget
        (specs 2)
        token
        (ok (pos 200))
        finished.0)
continue_page-Answer_example =
    continue_page-Answer uuids few no_marks files ℕ decode two budget (specs 2) token (ok (pos 200))
      finished.0

-- An admission, a refused cursor, and a panic.
abbrev entry : Entry File ℕ
entry =
    new_entry ([], [])
      (record {
        tool = "query";
        project = "p";
        revision_id = "r";
        columns = [];
        completeness = 0;
        row_count = 0;
        created_unix = pos 0;
      })
      40 (pos 0)

abbrev one : ResultStore File ℕ
one = (Service.admit 5 entry (ok (pos 1)) store).0

reached : Reachable few no_marks files two store (refuse_cursor {A = Unit {0}} one).0
unfolding find
reached = after (after here (admitting 5 entry (ok (pos 1)) refl)) refusing

Reachable-StoreValid_example :
    ((refuse_cursor {A = Unit {0}} one).0.limits ≡ store.limits)
    × StoreValid (refuse_cursor {A = Unit {0}} one).0
Reachable-StoreValid_example =
    Reachable-StoreValid few no_marks files two (omega arith) store-StoreValid reached

decode_cursor-Reachable_example :
    decode_cursor uuids (to_string uuids (cursor store 5 2)) (refuse_cursor {A = Unit {0}} one).0
    ≡ ((refuse_cursor {A = Unit {0}} one).0, ok (cursor store 5 2))
decode_cursor-Reachable_example =
    decode_cursor-Reachable few no_marks files two uuids 5 2 (omega arith, omega arith, omega arith)
      reached

decoded :
    decode_cursor uuids (to_string uuids (cursor store 5 2)) store ≡ (store, ok (cursor store 5 2))
decoded =
    decode_cursor-Reachable few no_marks files two uuids 5 2 (omega arith, omega arith, omega arith)
      here

decode_cursor-sound_example :
    (to_string uuids (cursor store 5 2) ≡ to_string uuids (cursor store 5 2))
    × ((cursor store 5 2).nonce ≡ store.nonce)
    × (store ≡ store)
decode_cursor-sound_example =
    decode_cursor_sound uuids (to_string uuids (cursor store 5 2)) store decoded

abbrev registry : Registry File ℕ
registry = record empty_registry { entries = (5, entry) ∷ []; admitted_bytes = 40 }

registry-IsValid : IsValid 1000 registry
unfolding find new_entry
registry-IsValid = record { distinct = (refl, tt); counted = refl; within = omega arith }

snapshot-totals_example :
    (results_of (snapshot 1000 (pos 2) 900 swept registry) ≡ length registry.entries)
    × (bytes_of (snapshot 1000 (pos 2) 900 swept registry) ≡ registry.admitted_bytes)
    × ((snapshot 1000 (pos 2) 900 swept registry).active.results
        ≡ count_class is_active (pos 2) 900 registry.entries)
    × ((snapshot 1000 (pos 2) 900 swept registry).active.bytes
        ≡ active_bytes (pos 2) 900 registry.entries)
snapshot-totals_example =
    snapshot-totals (pos 2) 900 1000 swept registry registry-IsValid (omega arith)

push_all-Checked_example : Checked few no_marks sql store writer todo
push_all-Checked_example =
    push_all-Checked few no_marks sql 5 spec todo store begun
      (omega arith, (omega arith, (omega arith, tt))) pushed_ok

-- A row of the wrong width.
narrow : push few no_marks sql [] store writer ≡ (
  store,
  record writer { failed = true },
  err (StoreError.invalid "row width differs from the column count"),
)
unfolding push insert_cells encode_row payload_sum
narrow = refl

push-finality_example :
    (push few no_marks sql (Cell.int (pos 5) ∷ []) store (record writer { failed = true })
      ≡ (store, record writer { failed = true }, err already_failed))
    × (finish few no_marks sql texts 0
          (ok (pos 1))
          (ok (pos 2))
          store
          (record writer { failed = true })
        ≡ (store, err already_failed))
push-finality_example =
    push-finality few no_marks sql texts [] store writer narrow (Cell.int (pos 5) ∷ []) 0
      (ok (pos 1)) (ok (pos 2)) store

-- Two stored rows, from the second on.
abbrev raw : ℕ → RawRow ℕ
raw n = record { ord = pos n; nonfinite = none; values = ValueRef.integer (pos n) ∷ [] }

abbrev read : ℕ → StoredRow ℕ
read n = record { ord = n; cells = Cell.int (pos n) ∷ []; nonfinite = [] }

decode-raw : (n : ℕ) → decode_row few no_marks 1 (raw n) ≡ ok (read n)
unfolding decode_row decode_cells decode_cell decode_marks
decode-raw n = refl

abbrev held_entry : Entry File ℕ
held_entry = record {
  conn = (raw 0 ∷ raw 1 ∷ [], ("state", MetaValue.text "complete") ∷ []);
  meta = record {
    tool = "query";
    project = "p";
    revision_id = "r";
    columns = "n" ∷ [];
    completeness = 0;
    row_count = 2;
    created_unix = pos 0;
  };
  bytes = 40;
  seq = 0;
  last_access = pos 0;
  delivered = false;
}

abbrev held_store : ResultStore File ℕ
held_store = record store {
  registry = some (record empty_registry { entries = (5, held_entry) ∷ []; admitted_bytes = 40 });
}

held_entry-complete : is_complete files held_entry.conn ≡ ok true
unfolding is_complete
held_entry-complete = refl

held_store-Standing : Standing 5 held_entry held_store (pos 0) false
unfolding find
held_store-Standing = (omega arith, _, refl, refl)

follow-Followed_example :
    Followed uuids few no_marks files ℕ decode two budget specs
      (λ k. pos k)
      5
      held_entry
      stored
      (raw 0 ∷ raw 1 ∷ [])
      (read 0 ∷ read 1 ∷ [])
      (omega arith)
      refl
      held_entry-complete
      (λ n. refl)
      (row (decode-raw 0) refl (row (decode-raw 1) refl nothing))
      refl
      (omega arith)
      refl
      (λ k. refl)
      held_store
      2
      1
follow-Followed_example =
    follow-Followed uuids few no_marks files ℕ decode two budget specs (λ k. pos k) 5 held_entry
      stored (raw 0 ∷ raw 1 ∷ []) (read 0 ∷ read 1 ∷ []) (omega arith) refl held_entry-complete
      (λ n. refl) (row (decode-raw 0) refl (row (decode-raw 1) refl nothing)) refl (omega arith)
      refl (λ k. refl) 2 1 held_store (pos 0) false (omega arith) (omega arith) held_store-Standing
