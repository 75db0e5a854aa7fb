-- ===== src/Paginate/Answers.antt =====
-- What a continuation may touch: an answer serves the one result that its cursor names, to the tool
-- that made it, and a refusal renews nothing.
use slugaudit.Base.{
  ℕ, ◌≡◌, refl, sym, ap, subst, ◌∙◌, inl, inr, Bool, true, false, Option, none, some, List, ltb,
  ◌==◌, ℤ, Result, ok, err, Bool-cases, Option-cases, Text, str_eq, eq_iff,
}
use slugaudit.ResultStore.Entry.{ResultMeta, Entry}
use slugaudit.ResultStore.Registry.{Registry, find}
use slugaudit.ResultStore.Cell.{StoreError, Float, StoredRow, Take}
use slugaudit.ResultStore.Row.{JsonMarks}
use slugaudit.ResultStore.Reader.{PageRows}
use slugaudit.ResultStore.Cursor.{Uuids, Cursor, to_string, parse}
use slugaudit.ResultStore.Service.{
  ResultStore, with_registry, found_entry, count_unknown, refuse_cursor, lookup, decode_cursor,
  meta_of, map_ok, issued_here,
}
use slugaudit.ResultStore.Service.Reading.{
  is_complete, Files, PageRead, read_page, read_entry, read_complete, serve_page, renew_in, is_last,
}
use slugaudit.ResultStore.Service.Renewal.{find-renew}
use slugaudit.ResultStore.Service.Issued.{refuse_cursor-err, decode_cursor_sound}
use slugaudit.ErrorCodes.{ErrorData}
use slugaudit.Paginate.{
  PageSpec, Stored, PageContext, Served, continue_page, checked, serve, serve_stored, served_page,
  and_then,
}

module _ {Conn Json : Type 0} where
  abbrev pub entries_in : Option (Registry Conn Json) → Option (List (ℕ × Entry Conn Json))
  entries_in none = none
  entries_in (some r) = some r.entries

  abbrev pub find_entry : ℕ → Option (List (ℕ × Entry Conn Json)) → Option (Entry Conn Json)
  find_entry id none = none
  find_entry id (some es) = find id es

  -- What the store has registered under an id.
  abbrev pub registered : ℕ → ResultStore Conn Json → Option (Entry Conn Json)
  registered id s = find_entry id (entries_in s.registry)

  -- No entry was changed, added or removed.
  abbrev pub Still : ResultStore Conn Json → ResultStore Conn Json → Type 0
  Still s t = entries_in t.registry ≡ entries_in s.registry

  -- A failure changes no entry; a success none but the one under the id.
  abbrev pub Touch {ℓ} :
      {A : Type ℓ}
      → ℕ
      → ResultStore Conn Json
      → ResultStore Conn Json × Result StoreError A
      → Type 0
  Touch id s (t, err e) = Still s t
  Touch id s (t, ok a) = (j : ℕ) → (id == j) ≡ false → registered j t ≡ registered j s

  Still-Touch {ℓ} :
      {A : Type ℓ} (id : ℕ) (s : ResultStore Conn Json)
      (x : ResultStore Conn Json × Result StoreError A)
      → Still s x.0
      → Touch id s x
  Still-Touch id s (t, err e) h = h
  Still-Touch id s (t, ok a) h = λ j n. ap (find_entry j) h

  Touch-after {ℓ} :
      {A : Type ℓ} (id : ℕ) (s t : ResultStore Conn Json)
      (x : ResultStore Conn Json × Result StoreError A)
      → Still s t
      → Touch id t x
      → Touch id s x
  Touch-after id s t (w, err e) h k = k ∙ h
  Touch-after id s t (w, ok a) h k = λ j n. k j n ∙ ap (find_entry j) h

  with_registry-Still {ℓ} :
      {A : Type ℓ} (change : Registry Conn Json → Registry Conn Json × Result StoreError A)
      (s : ResultStore Conn Json) (o : Option (Registry Conn Json))
      → s.registry ≡ o
      → ((r : Registry Conn Json) → (change r).0.entries ≡ r.entries)
      → Still s (with_registry change s o).0
  with_registry-Still change s none e h = refl
  with_registry-Still change s (some r) e h = ap some (h r) ∙ ap entries_in (sym e)

  found_entry-entries :
      (r : Registry Conn Json) (o : Option (Entry Conn Json))
      → (found_entry r o).0.entries ≡ r.entries
  found_entry-entries r none = refl
  found_entry-entries r (some e) = refl

  lookup-Still : (id : ℕ) (s : ResultStore Conn Json) → Still s (lookup id s).0
  unfolding lookup
  lookup-Still id s =
      with_registry-Still (λ r. found_entry r (find id r.entries)) s s.registry refl
        (λ r. found_entry-entries r (find id r.entries))

  refuse_cursor-Still {ℓ} :
      (A : Type ℓ) (s : ResultStore Conn Json) → Still s (refuse_cursor {A = A} s).0
  unfolding refuse_cursor
  refuse_cursor-Still A s =
      with_registry-Still (λ r. (count_unknown r, err StoreError.unknown)) s s.registry refl
        (λ r. refl)

  issued_here-Still : (s : ResultStore Conn Json) (o : Option Cursor) → Still s (issued_here s o).0
  issued_here-Still s none = refuse_cursor-Still _ s
  issued_here-Still s (some c) = elim (Bool-cases (c.nonce == s.nonce)) [
    | inl h ↦ rw h refl
    | inr h ↦ rw h (refuse_cursor-Still _ s)
  ]

  decode_cursor-Still :
      (u : Uuids) (token : Text) (s : ResultStore Conn Json) → Still s (decode_cursor u token s).0
  unfolding decode_cursor
  decode_cursor-Still u token s = issued_here-Still s (parse u token)

  map_ok-store {ℓ κ} :
      {A : Type ℓ} {B : Type κ} (g : A → B) (x : ResultStore Conn Json × Result StoreError A)
      → (map_ok g x).0 ≡ x.0
  map_ok-store g (s, ok a) = refl
  map_ok-store g (s, err e) = refl

  meta_of-Still : (id : ℕ) (s : ResultStore Conn Json) → Still s (meta_of id s).0
  unfolding meta_of
  meta_of-Still id s =
      ap (λ (t : ResultStore Conn Json). entries_in t.registry)
        (map_ok-store (λ e. e.meta) (lookup id s))
      ∙ lookup-Still id s

  found_entry_sound :
      (s : ResultStore Conn Json) (r : Registry Conn Json) (o : Option (Entry Conn Json))
      {t : ResultStore Conn Json} {meta : ResultMeta Json}
      → map_ok (λ e. e.meta) (record s { registry = some (found_entry r o).0 }, (found_entry r o).1)
        ≡ (t, ok meta)
      → (e : Entry Conn Json) × (o ≡ some e)
        × (e.meta ≡ meta)
        × (record s { registry = some r } ≡ t)
  found_entry_sound s r none h = absurd (cc)
  found_entry_sound s r (some e) h = (e, refl, cc, cc)

  meta_of_sound :
      (id : ℕ) (s : ResultStore Conn Json) {t : ResultStore Conn Json} {meta : ResultMeta Json}
      → meta_of id s ≡ (t, ok meta)
      → (e : Entry Conn Json) × (registered id s ≡ some e) × (e.meta ≡ meta)
  unfolding meta_of lookup
  meta_of_sound id s {t} {meta} h = elim (Option-cases s.registry) [
    | inl n ↦ absurd (let h' = rw n at h in cc)
    | inr (r, n) ↦
        let h' = rw n at h in
        let (e, p, q, w) = found_entry_sound s r (find id r.entries) h' in
        (e, ap (λ o. find_entry id (entries_in o)) n ∙ p, q)
  ]

module _ (f : Float) (j : JsonMarks) (files : Files f.F) {Json S : Type 0}
    (accept : S → StoredRow f.F → S × Take) where
  renew_in-registered :
      (id : ℕ) (now : ℤ) (last_page : Bool) (o : Option (Registry files.Conn Json)) (k : ℕ)
      → (id == k) ≡ false
      → find_entry k (entries_in (renew_in id now last_page o)) ≡ find_entry k (entries_in o)
  renew_in-registered id now last_page none k n = refl
  renew_in-registered id now last_page (some r) k n =
      find-renew id now last_page k r.entries ∙ rw n refl

  serve_page-Touch :
      (id : ℕ) (meta : ResultMeta Json) (now : Result StoreError ℤ)
      (s : ResultStore files.Conn Json) (page : Result StoreError (PageRows f.F))
      → Touch id s (serve_page f j files accept id meta now s page)
  serve_page-Touch id meta now s (err e) = refl
  serve_page-Touch id meta (err e) s (ok page) = refl
  serve_page-Touch id meta (ok now) s (ok page) =
      λ k n. renew_in-registered id now (is_last page.next_ord) s.registry k n

  read_complete-Touch :
      (id : ℕ) (entry : Entry files.Conn Json) (a : S) (from_ord : ℕ) (now : Result StoreError ℤ)
      (s : ResultStore files.Conn Json) (complete : Result StoreError Bool)
      → Touch id s (read_complete f j files accept id entry a from_ord now s complete)
  read_complete-Touch id entry a from_ord now s (err e) = refl
  read_complete-Touch id entry a from_ord now s (ok false) =
      Still-Touch id s (refuse_cursor {A = PageRead f.F Json} s) (refuse_cursor-Still _ s)
  read_complete-Touch id entry a from_ord now s (ok true) = serve_page-Touch id entry.meta now s _

  read_entry-Touch :
      (id : ℕ) (a : S) (from_ord : ℕ) (now : Result StoreError ℤ) (s : ResultStore files.Conn Json)
      (found : Result StoreError (Entry files.Conn Json))
      → Touch id s (read_entry f j files accept id a from_ord now (s, found))
  read_entry-Touch id a from_ord now s (err e) = refl
  read_entry-Touch id a from_ord now s (ok entry) =
      elim (Bool-cases (ltb entry.meta.row_count from_ord)) [
        | inl h ↦
            rw h
              (Still-Touch id s (refuse_cursor {A = PageRead f.F Json} s) (refuse_cursor-Still _ s))
        | inr h ↦ elim (Bool-cases (files.is_poisoned entry.conn)) [
          | inl p ↦ rw (h, p) refl
          | inr p ↦
              rw (h, p)
                (read_complete-Touch id entry a from_ord now s (is_complete files entry.conn))
        ]
      ]

  pub read_page-Touch :
      (id : ℕ) (a : S) (from_ord : ℕ) (now : Result StoreError ℤ) (s : ResultStore files.Conn Json)
      → Touch id s (read_page f j files accept id a from_ord now s)
  unfolding read_page
  read_page-Touch id a from_ord now s =
      Touch-after id s (lookup id s).0 (read_entry f j files accept id a from_ord now (lookup id s))
        (lookup-Still id s) (read_entry-Touch id a from_ord now (lookup id s).0 (lookup id s).1)

module _ (u : Uuids) (f : Float) (j : JsonMarks) (files : Files f.F) {Json E S : Type 0}
    (Discard : Type 0) (from_value : Json → Option (Stored E))
    (accept : S → StoredRow f.F → S × Take) (accept_for : PageContext E → S) where
  -- What an answer may be: a refusal that leaves every entry as it was, or a page of the result that the
  -- exact token of this store's cursor names and the calling tool made; no other entry is changed.
  abbrev pub Answer :
      ResultStore files.Conn Json
      → Text
      → PageSpec
      → ResultStore files.Conn Json × Result ErrorData (Served f.F Discard E)
      → Type 0
  Answer s token spec (t, err e) = Still s t
  Answer s token spec (t, ok page) =
      (c : Cursor) × (e : Entry files.Conn Json) × (to_string u c ≡ token)
      × (c.nonce ≡ s.nonce)
      × (registered c.result s ≡ some e)
      × (e.meta.tool ≡ spec.tool)
      × ((k : ℕ) → (c.result == k) ≡ false → registered k t ≡ registered k s)

  -- The same, once the cursor is known.
  Part :
      ResultStore files.Conn Json
      → Cursor
      → ResultStore files.Conn Json × Result ErrorData (Served f.F Discard E)
      → Type 0
  Part s c (t, err e) = Still s t
  Part s c (t, ok page) = (k : ℕ) → (c.result == k) ≡ false → registered k t ≡ registered k s

  serve-Part :
      (s t : ResultStore files.Conn Json) (c : Cursor) (stored : Stored E)
      (x : ResultStore files.Conn Json × Result StoreError (PageRead f.F Json))
      → Still s t
      → Touch c.result t x
      → Part s c (
          and_then x (λ s' read. (
            s',
            ok (
                served_page u f j files {S = S} from_value accept accept_for c.result stored s'
                  read),
          )))
  unfolding Part
  serve-Part s t c stored (w, err e) h k = k ∙ h
  serve-Part s t c stored (w, ok a) h k = λ i n. k i n ∙ ap (find_entry i) h

  serve_stored-Part :
      (spec : PageSpec) (c : Cursor) (meta : ResultMeta Json) (now : Result StoreError ℤ)
      (s t : ResultStore files.Conn Json) (o : Option (Stored E))
      → Still s t
      → Part s c (serve_stored u f j files from_value accept accept_for spec c meta now t o)
  unfolding Part serve
  serve_stored-Part spec c meta now s t none h = h
  serve_stored-Part spec c meta now s t (some stored) h =
      serve-Part s t c _ _ h (read_page-Touch f j files accept c.result _ c.ord now t)

  -- From a part of an answer to the answer, where the cursor and its result are known.
  Part-Answer :
      (token : Text) (spec : PageSpec) (s : ResultStore files.Conn Json) (c : Cursor)
      (e : Entry files.Conn Json)
      (x : ResultStore files.Conn Json × Result ErrorData (Served f.F Discard E))
      → to_string u c ≡ token
      → c.nonce ≡ s.nonce
      → registered c.result s ≡ some e
      → e.meta.tool ≡ spec.tool
      → Part s c x
      → Answer s token spec x
  unfolding Part
  Part-Answer token spec s c e (t, err z) p n q w h = h
  Part-Answer token spec s c e (t, ok page) p n q w h = (c, e, p, n, q, w, h)

  refused_tool :
      (token : Text) (spec : PageSpec) (s t : ResultStore files.Conn Json)
      (x : ResultStore files.Conn Json × Result StoreError (Served f.F Discard E))
      → refuse_cursor t ≡ x
      → Still s x.0
      → Answer s token spec (and_then x (λ w page. (w, ok page)))
  refused_tool token spec s t (w, err e) r h = h
  refused_tool token spec s t (w, ok a) r h = absurd (refuse_cursor-err t r)

  checked-Answer :
      (token : Text) (spec : PageSpec) (now : Result StoreError ℤ)
      (s t : ResultStore files.Conn Json) (c : Cursor) (e : Entry files.Conn Json)
      → to_string u c ≡ token
      → c.nonce ≡ s.nonce
      → registered c.result s ≡ some e
      → Still s t
      → Answer s token spec (checked u f j files from_value accept accept_for spec c now t e.meta)
  checked-Answer token spec now s t c e p n q h = elim (Bool-cases (str_eq e.meta.tool spec.tool)) [
    | inl b ↦ rw b (
        Part-Answer token spec s c e _ p n q ((eq_iff e.meta.tool spec.tool).0 b)
          (serve_stored-Part spec c e.meta now s t (from_value e.meta.completeness) h))
    | inr b ↦
        rw b (refused_tool token spec s t (refuse_cursor t) refl (refuse_cursor-Still _ t ∙ h))
  ]

  meta-Answer :
      (token : Text) (spec : PageSpec) (now : Result StoreError ℤ) (s : ResultStore files.Conn Json)
      (c : Cursor) (x : ResultStore files.Conn Json × Result StoreError (ResultMeta Json))
      → to_string u c ≡ token
      → c.nonce ≡ s.nonce
      → meta_of c.result s ≡ x
      → Still s x.0
      → Answer s token spec
          (and_then x (checked u f j files from_value accept accept_for spec c now))
  meta-Answer token spec now s c (t, err z) p n m h = h
  meta-Answer token spec now s c (t, ok meta) p n m h =
      let (e, q, w) = meta_of_sound c.result s m in
      subst
        (λ y. Answer s token spec (checked u f j files from_value accept accept_for spec c now t y))
        w (checked-Answer token spec now s t c e p n q h)

  cursor-Answer :
      (token : Text) (spec : PageSpec) (now : Result StoreError ℤ) (s : ResultStore files.Conn Json)
      (x : ResultStore files.Conn Json × Result StoreError Cursor)
      → decode_cursor u token s ≡ x
      → Still s x.0
      → Answer s token spec (
          and_then x (λ t c.
            and_then
              (meta_of c.result t)
              (checked u f j files from_value accept accept_for spec c now)))
  cursor-Answer token spec now s (t, err z) d h = h
  cursor-Answer token spec now s (t, ok c) d h =
      let (p, n, e) = decode_cursor_sound u token s d in
      rw e (meta-Answer token spec now s c (meta_of c.result s) p n refl (meta_of-Still c.result s))

  -- Every continuation, whatever its token, its tool and the state of the store: a refusal leaves every
  -- entry of the registry as it was, and a page is served only for the exact token of a cursor of this
  -- store, only from a registered result, only to the tool that made it, and changes no other entry.
  pub continue_page-Answer :
      (spec : PageSpec) (token : Text) (now : Result StoreError ℤ) (s : ResultStore files.Conn Json)
      → Answer s token spec
          (continue_page u f j files from_value accept accept_for spec token now s)
  unfolding continue_page
  continue_page-Answer spec token now s =
      cursor-Answer token spec now s (decode_cursor u token s) refl (decode_cursor-Still u token s)
