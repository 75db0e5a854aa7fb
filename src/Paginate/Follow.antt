-- ===== src/Paginate/Follow.antt =====
-- A client that follows the tokens of the pages reads the stored result, whatever the page sizes.
use mathlib.Core.Option
use mathlib.Core.List.{append-nil}
use slugaudit.Base.{
  ℕ, zero, suc, ◌+◌, ◌-◌, ◌≤◌, ◌<◌, ◌≡◌, refl, sym, ap, ◌∙◌, ◌≢◌, Bool, true, false, ◌||◌, Option,
  none, some, List, [], ◌++◌, arith, ==_iff, ℤ, length, length-append, drop, i64_max, Result, ok,
  err, ◌>>=◌, Text, str_eq,
}
use slugaudit.ResultStore.Entry.{Entry, served}
use slugaudit.ResultStore.Registry.{Registry, find}
use slugaudit.ResultStore.Cell.{Float, StoredRow, Take}
use slugaudit.ResultStore.Row.{RawRow, JsonMarks}
use slugaudit.ResultStore.Reader.{PageRows, read_rows}
use slugaudit.ResultStore.Reader.Pages.{Holds, fetched, Cut, last, more}
use slugaudit.ResultStore.Reader.Coverage.{IsPage-at, none_left, drop-append, length-drop}
use slugaudit.ResultStore.Cursor.{Uuids, uuid_bound, to_string}
use slugaudit.ResultStore.Service
use slugaudit.ResultStore.Service.{ResultStore}
use slugaudit.ResultStore.Service.Reading.{is_complete, Files}
use slugaudit.ResultStore.Service.Renewal.{find-renew}
use slugaudit.ErrorCodes.{ErrorData}
use slugaudit.Paginate.{
  PageSpec, Stored, PageContext, Served, continue_page, with_requested, context_of,
}
use slugaudit.Paginate.Serve.{renewed, continue_page-found}

module _ {Conn Json : Type 0} (id : ℕ) (base : Entry Conn Json) where
  -- The entry after pages of it were served.
  abbrev pub stand : ℤ → Bool → Entry Conn Json
  stand now delivered = record base { last_access = now; delivered = delivered }

  -- The store holds the result under its id.
  abbrev pub Standing : ResultStore Conn Json → ℤ → Bool → Type 0
  Standing s now delivered =
      (s.nonce < uuid_bound)
      × (r : Registry Conn Json) × (s.registry ≡ some r)
      × (find id r.entries ≡ some (stand now delivered))

  served-stand :
      (x now : ℤ) (delivered last_page : Bool)
      → served (stand x delivered) now last_page ≡ stand now (last_page || delivered)
  unfolding served
  served-stand x now delivered true = refl
  served-stand x now delivered false = refl

  renewed-Standing :
      (s : ResultStore Conn Json) (r : Registry Conn Json) (x now : ℤ) (delivered last_page : Bool)
      → s.nonce < uuid_bound
      → find id r.entries ≡ some (stand x delivered)
      → Standing (renewed s r id now last_page) now (last_page || delivered)
  renewed-Standing s r x now delivered last_page b h = (
    b,
    _,
    refl,
    find-renew id now last_page id r.entries
        ∙ rw ((==_iff id id).1 refl, h) (ap some (served-stand x now delivered last_page)),
  )

abbrev join_rows :
    {F St : Type 0}
    → List (StoredRow F)
    → St × Option (Result ErrorData (List (StoredRow F)))
    → St × Option (Result ErrorData (List (StoredRow F)))
join_rows rows (s, o) = (s, Option.map (λ rest. rest >>= λ more_rows. ok (rows ++ more_rows)) o)

module _ {F Discard E St : Type 0} where
  -- What the client does with an answer.
  abbrev next_page :
      (Text → St → St × Option (Result ErrorData (List (StoredRow F))))
      → St × Result ErrorData (Served F Discard E)
      → St × Option (Result ErrorData (List (StoredRow F)))
  next_page follow_on (s, err e) = (s, some (err e))
  next_page follow_on (s, ok served) = elim served.page.cursor [
    | none ↦ (s, some (ok served.rows))
    | some token ↦ join_rows served.rows (follow_on token s)
  ]

module _ (u : Uuids) (f : Float) (j : JsonMarks) (files : Files f.F) {Json E S : Type 0}
    (Discard : Type 0) (from_value : Json → Option (Stored E))
    (accept : S → StoredRow f.F → S × Take) (accept_for : PageContext E → S) (specs : ℕ → PageSpec)
    (clock : ℕ → ℤ) where
  -- Asks for page after page with the token that the last page carried, and joins the rows; `none` when
  -- the fuel ends. Each call has its own spec and time.
  unfoldable pub follow :
      ℕ
      → Text
      → ResultStore files.Conn Json
      → ResultStore files.Conn Json × Option (Result ErrorData (List (StoredRow f.F)))
  follow zero token s = (s, none)
  follow (suc fuel) token s =
      next_page (λ t s'. follow fuel t s')
        (continue_page u f j files {Discard = Discard} from_value accept accept_for (specs fuel)
          token (ok (clock fuel)) s)

  module _ (id : ℕ) (base : Entry files.Conn Json) (stored : Stored E) (table : List (RawRow f.F))
      (rows : List (StoredRow f.F)) (bounded : id < uuid_bound)
      (open_ : files.is_poisoned base.conn ≡ false)
      (complete : is_complete files base.conn ≡ ok true)
      (selects : (n : ℕ) → files.select base.conn n ≡ fetched f j (drop n table))
      (holds : Holds f j (length base.meta.columns) 0 table rows)
      (counts : base.meta.row_count ≡ length rows) (fits : length rows ≤ i64_max)
      (decodes : from_value base.meta.completeness ≡ some stored)
      (tools : (k : ℕ) → str_eq base.meta.tool (specs k).tool ≡ true) where
    -- The client read all rows from the ordinal on, and the result is then marked delivered.
    abbrev pub Followed : ResultStore files.Conn Json → ℕ → ℕ → Type 0
    Followed s fuel from =
        (t : ResultStore files.Conn Json) × (now : ℤ) × (follow fuel
            (to_string u (Service.cursor s id from)) s
          ≡ (t, some (ok (drop from rows))))
        × Standing id base t now true

    answer :
        (fuel from : ℕ) (s : ResultStore files.Conn Json) (x : ℤ) (delivered : Bool)
        → from ≤ length rows
        → length rows - from < suc fuel
        → Standing id base s x delivered
        → ((n : ℕ) (s' : ResultStore files.Conn Json) (y : ℤ) (d : Bool)
            → n ≤ length rows
            → length rows - n < fuel
            → Standing id base s' y d
            → Followed s' fuel n)
        → (front back : List (StoredRow f.F)) {next : Option ℕ} → drop from rows ≡ front ++ back
        → read_rows f j accept
            (files.select base.conn)
            (length base.meta.columns)
            (accept_for
              (context_of base.meta (with_requested (specs fuel).requested_page_bytes stored)))
            from
          ≡ ok (record { rows = front; next_ord = next })
        → (drop from rows ≢ [] → 0 < length front)
        → Cut f j from front back next
        → Followed s (suc fuel) from
    unfolding follow
    answer fuel from s x delivered h k (b, r, q, e) ih front back d res adv (last w) =
        let page : PageRows f.F = record { rows = front; next_ord = none } in
        let shown =
          continue_page-found u f j files {Discard = Discard} from_value accept accept_for s r id
            (stand id base x delivered) (specs fuel) stored from (clock fuel) page q e
            (omega (arith, counts)) (b, bounded, omega arith) open_ complete (tools fuel) decodes
            res in
        (
          renewed s r id (clock fuel) true,
          clock fuel,
          rw shown (cc (d, w, append-nil front)),
          renewed-Standing id base s r x (clock fuel) delivered true b e,
        )
    answer fuel from s x delivered h k (b, r, q, e) ih front back d res adv (more {n = n} ne w) =
        let page : PageRows f.F = record { rows = front; next_ord = some n } in
        let shown =
          continue_page-found u f j files {Discard = Discard} from_value accept accept_for s r id
            (stand id base x delivered) (specs fuel) stored from (clock fuel) page q e
            (omega (arith, counts)) (b, bounded, omega arith) open_ complete (tools fuel) decodes
            res in
        let full : drop from rows ≢ [] = λ z. ne (
          none_left f j accept (accept_for (context_of base.meta stored)) 0 front back
            (sym z ∙ d)) in
        let size : length front + length back ≡ length rows - from =
          sym (length-append front back)
          ∙ ap length (sym d)
          ∙ length-drop f j accept (accept_for (context_of base.meta stored)) 0 from rows in
        let (t, now, done, held) =
          ih n (renewed s r id (clock fuel) false) (clock fuel) delivered (omega (arith, size))
            (omega (arith, size, adv full))
            (renewed-Standing id base s r x (clock fuel) delivered false b e) in
        (
          t,
          now,
          rw (shown, done)
              (cc (
                d,
                drop-append f j accept (accept_for (context_of base.meta stored)) 0 from n rows
                    front back w d,
              )),
          held,
        )

    -- Where a registered result's UUID and the store's fit 128 bits, and its file answers, is complete and holds its rows at the ordinals from 0 on
    -- (as many as its metadata counts, at most `i64::MAX`), and the calls name the result's tool: a
    -- client that starts at an ordinal of the result and follows the token of each page, with page sizes
    -- and times that change from call to call, reads exactly the stored rows from there on, in order and
    -- within one call for each row left and one more; the result is then marked delivered.
    pub follow-Followed :
        (fuel from : ℕ) (s : ResultStore files.Conn Json) (x : ℤ) (delivered : Bool)
        → from ≤ length rows
        → length rows - from < fuel
        → Standing id base s x delivered
        → Followed s fuel from
    follow-Followed zero from s x delivered h k e = absurd (omega arith)
    follow-Followed (suc fuel) from s x delivered h k e =
        let p =
          IsPage-at f j accept
            (accept_for
              (context_of base.meta (with_requested (specs fuel).requested_page_bytes stored)))
            (length base.meta.columns) (files.select base.conn) table rows selects holds fits from
            h in
        answer fuel from s x delivered h k e
          (λ n s' y d l m e'. follow-Followed fuel n s' y d l m e') p.front p.back p.parts p.result
          (p.advances refl) p.cut
