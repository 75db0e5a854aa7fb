-- ===== src/Paginate/Serve.antt =====
-- What a continuation serves where the result can be read, and what a refused one leaves alone.
use slugaudit.Base.{
  ℕ, ◌≤◌, ◌≡◌, refl, ap, ◌∙◌, Bool, true, false, Option, some, arith, ltb, ◌==◌, ==_iff, ℤ, length,
  ok, str_eq,
}
use slugaudit.ResultStore.Entry.{Entry}
use slugaudit.ResultStore.Registry.{Registry, find}
use slugaudit.ResultStore.Cell.{Float, StoredRow, Take}
use slugaudit.ResultStore.Row.{JsonMarks}
use slugaudit.ResultStore.Reader.{PageRows, read_rows}
use slugaudit.ResultStore.Cursor.{Uuids, Fits, to_string}
use slugaudit.ResultStore.Cursor.Codec.{parse-to_string}
use slugaudit.ResultStore.Service
use slugaudit.ResultStore.Service.{
  ResultStore, with_registry, found_entry, refuse_cursor, lookup, decode_cursor, meta_of,
  issued_here,
}
use slugaudit.ResultStore.Service.Reading.{is_complete, Files, read_page, renew, is_last, page_of}
use slugaudit.Paginate.{
  checked, and_then, PageSpec, Stored, PageContext, continue_page, serve, served_page,
  with_requested, context_of,
}

module _ {Conn Json : Type 0} where
  -- The store after a page of the result was served.
  abbrev pub renewed :
      ResultStore Conn Json → Registry Conn Json → ℕ → ℤ → Bool → ResultStore Conn Json
  renewed s r id now last_page = record s {
    registry = some (record r { entries = renew id now last_page r.entries });
  }

  pub lookup-found :
      (s : ResultStore Conn Json) (r : Registry Conn Json) (id : ℕ) (e : Entry Conn Json)
      → s.registry ≡ some r
      → find id r.entries ≡ some e
      → lookup id s ≡ (s, ok e)
  unfolding lookup
  lookup-found s r id e q h = rw (q, h) refl

  pub meta_of-found :
      (s : ResultStore Conn Json) (r : Registry Conn Json) (id : ℕ) (e : Entry Conn Json)
      → s.registry ≡ some r
      → find id r.entries ≡ some e
      → meta_of id s ≡ (s, ok e.meta)
  unfolding meta_of
  meta_of-found s r id e q h = rw (lookup-found s r id e q h) refl

module _ (f : Float) (j : JsonMarks) (files : Files f.F) {Json S : Type 0}
    (accept : S → StoredRow f.F → S × Take) where
  -- A page of a registered result whose file answers and is complete.
  pub read_page-found :
      (s : ResultStore files.Conn Json) (r : Registry files.Conn Json) (id : ℕ)
      (e : Entry files.Conn Json) (a : S) (from_ord : ℕ) (now : ℤ) (page : PageRows f.F)
      → s.registry ≡ some r
      → find id r.entries ≡ some e
      → from_ord ≤ e.meta.row_count
      → files.is_poisoned e.conn ≡ false
      → is_complete files e.conn ≡ ok true
      → read_rows f j accept (files.select e.conn) (length e.meta.columns) a from_ord ≡ ok page
      → read_page f j files accept id a from_ord (ok now) s
        ≡ (renewed s r id now (is_last page.next_ord), ok (page_of f j files accept e.meta page))
  unfolding read_page
  read_page-found s r id e a from_ord now page q h w p c k =
      let m : ltb e.meta.row_count from_ord ≡ false = ground arith in
      rw (lookup-found s r id e q h, m, p, c, k, q) refl

module _ (u : Uuids) (f : Float) (j : JsonMarks) (files : Files f.F) {Json E S Discard : Type 0}
    (from_value : Json → Option (Stored E)) (accept : S → StoredRow f.F → S × Take)
    (accept_for : PageContext E → S) where
  -- The page that the token of a stored result's ordinal serves.
  pub continue_page-found :
      (s : ResultStore files.Conn Json) (r : Registry files.Conn Json) (id : ℕ)
      (e : Entry files.Conn Json) (spec : PageSpec) (stored : Stored E) (from_ord : ℕ) (now : ℤ)
      (page : PageRows f.F)
      → s.registry ≡ some r
      → find id r.entries ≡ some e
      → from_ord ≤ e.meta.row_count
      → Fits (Service.cursor s id from_ord)
      → files.is_poisoned e.conn ≡ false
      → is_complete files e.conn ≡ ok true
      → str_eq e.meta.tool spec.tool ≡ true
      → from_value e.meta.completeness ≡ some stored
      → read_rows f j accept
          (files.select e.conn)
          (length e.meta.columns)
          (accept_for (context_of e.meta (with_requested spec.requested_page_bytes stored)))
          from_ord
        ≡ ok page
      → continue_page u f j files {Discard = Discard} from_value accept accept_for spec
          (to_string u (Service.cursor s id from_ord))
          (ok now)
          s
        ≡ (
          renewed s r id now (is_last page.next_ord),
          ok (
              served_page u f j files {S = S} from_value accept accept_for id
                (with_requested spec.requested_page_bytes stored)
                (renewed s r id now (is_last page.next_ord))
                (page_of f j files accept e.meta page)),
        )
  unfolding continue_page decode_cursor serve
  continue_page-found s r id e spec stored from_ord now page q h w top p c t v k =
      let n : (s.nonce == s.nonce) ≡ true = (==_iff s.nonce s.nonce).1 refl in
      rw (parse-to_string u (Service.cursor s id from_ord) top, n)
        (ap
            (λ x. and_then x (
              checked u f j files {Discard = Discard} from_value accept accept_for spec
                (Service.cursor s id from_ord) (ok now)))
            (meta_of-found s r id e q h)
          ∙ rw (t, v, read_page-found f j files accept s r id e _ from_ord now page q h w p c k)
              refl)
