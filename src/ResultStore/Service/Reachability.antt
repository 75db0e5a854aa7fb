-- ===== src/ResultStore/Service/Reachability.antt =====
-- The store as a state machine: what every sequence of its operations keeps.
use slugaudit.Base.{ℕ, ◌<◌, ◌≡◌, refl, sym, true, none, ◌==◌, ==_iff, ℤ, Result, ok, u64_max, Text}
use slugaudit.ResultStore.Entry.{Entry}
use slugaudit.ResultStore.Cell.{StoreError, Float, StoredRow, Take}
use slugaudit.ResultStore.Row.{JsonMarks}
use slugaudit.ResultStore.Cursor.{Uuids, Fits, to_string}
use slugaudit.ResultStore.Cursor.Codec.{parse-to_string}
use slugaudit.ResultStore.Service.{
  ResultStore, refuse_cursor, lookup, decode_cursor, admit, refuse_too_large, cursor,
}
use slugaudit.ResultStore.Service.Stats.{stats}
use slugaudit.ResultStore.Service.Reading.{Files, read_page}
use slugaudit.ResultStore.Service.Keeps.{
  StoreValid, Unused, Keeps, Keeps-refl, Keeps-trans, lookup-Keeps, refuse_cursor-Keeps,
  refuse_too_large-Keeps, stats-Keeps, admit-Keeps, decode_cursor-Keeps, read_page-Keeps,
}

module _ (f : Float) (j : JsonMarks) (files : Files f.F) {Json S : Type 0}
    (accept : S → StoredRow f.F → S × Take) where
  -- One operation of the store. A registered id is fresh (it is a random UUID), and a panic may poison
  -- the lock at any point.
  pub data Step (s : ResultStore files.Conn Json) : ResultStore files.Conn Json → Type 0 where
    admitting :
        (id : ℕ) (entry : Entry files.Conn Json) (now : Result StoreError ℤ)
        → Unused id s.registry
        → Step s (admit id entry now s).0
    looking_up : (id : ℕ) → Step s (lookup id s).0
    decoding : (u : Uuids) (token : Text) → Step s (decode_cursor u token s).0
    refusing : Step s (refuse_cursor {A = Unit {0}} s).0
    outgrowing : Step s (refuse_too_large {A = Unit {0}} s).0
    stating : (now : Result StoreError ℤ) → Step s (stats now s).0
    reading :
        (id : ℕ) (a : S) (from_ord : ℕ) (now : Result StoreError ℤ)
        → Step s (read_page f j files accept id a from_ord now s).0
    poisoning : Step s (record s { registry = none })

  -- The states that a sequence of operations leads to.
  pub data Reachable (s : ResultStore files.Conn Json) : ResultStore files.Conn Json → Type 0 where
    here : Reachable s s
    after : {t w : ResultStore files.Conn Json} → Reachable s t → Step t w → Reachable s w

  Step-Keeps : {s t : ResultStore files.Conn Json} → Step s t → Keeps s t
  Step-Keeps {s} (admitting id entry now n) = admit-Keeps id entry now s n
  Step-Keeps {s} (looking_up id) = lookup-Keeps id s
  Step-Keeps {s} (decoding u token) = decode_cursor-Keeps u token s
  Step-Keeps {s} refusing = refuse_cursor-Keeps _ s
  Step-Keeps {s} outgrowing = refuse_too_large-Keeps _ s
  Step-Keeps {s} (stating now) = stats-Keeps now s
  Step-Keeps {s} (reading id a from_ord now) = read_page-Keeps f j files accept id a from_ord now s
  Step-Keeps {s} poisoning = record { nonce = refl; limits = refl; valid = λ b v. tt }

  Reachable-Keeps : {s t : ResultStore files.Conn Json} → Reachable s t → Keeps s t
  Reachable-Keeps {s} here = Keeps-refl s
  Reachable-Keeps {s} (after {t} {w} r p) = Keeps-trans s t w (Reachable-Keeps r) (Step-Keeps p)

  -- From a store whose registry is valid and whose budget is below the largest `u64`, every sequence of
  -- operations (admissions under fresh ids, lookups, cursors, page reads, refusals, statistics, a
  -- poisoned lock) leads to a store whose registry, unless its lock is poisoned, is valid for the same
  -- budget: the bytes held are the sum of the entries' and never above it.
  pub Reachable-StoreValid :
      {s t : ResultStore files.Conn Json}
      → s.limits.max_bytes < u64_max
      → StoreValid s
      → Reachable s t
      → (t.limits ≡ s.limits) × StoreValid t
  Reachable-StoreValid b v r = let k = Reachable-Keeps r in (k.limits, k.valid b v)

  -- The cursor that a store issues, its UUIDs within 128 bits and its ordinal within 64, is accepted from its token in every
  -- state that the store can reach afterwards, and accepting it changes nothing.
  pub decode_cursor-Reachable :
      (u : Uuids) {s t : ResultStore files.Conn Json} (id ord : ℕ)
      → Fits (cursor s id ord)
      → Reachable s t
      → decode_cursor u (to_string u (cursor s id ord)) t ≡ (t, ok (cursor s id ord))
  unfolding decode_cursor
  decode_cursor-Reachable u {s} {t} id ord h r =
      let k = Reachable-Keeps r in
      let n : (s.nonce == t.nonce) ≡ true = (==_iff s.nonce t.nonce).1 (sym k.nonce) in
      rw (parse-to_string u (cursor s id ord) h, n) refl
