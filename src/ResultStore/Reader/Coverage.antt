-- ===== src/ResultStore/Reader/Coverage.antt =====
-- A client that follows the cursors reads the whole result.
use mathlib.Core.Option
use slugaudit.Base.{
  ℕ, zero, suc, ◌+◌, ◌-◌, ◌≤◌, ◌<◌, ◌≡◌, refl, sym, ap, ◌∙◌, ◌≢◌, Option, none, some, List, [], ◌∷◌,
  ◌++◌, arith, length, length-append, drop, i64_max, Result, ok, err, ◌>>=◌, le→leb,
}
use mathlib.Core.List.{append-nil}
use slugaudit.ResultStore.Cell.{StoreError, Float, StoredRow, Take}
use slugaudit.ResultStore.Row.{RawRow, JsonMarks}
use slugaudit.ResultStore.Reader.{read_rows}
use slugaudit.ResultStore.Reader.Pages.{
  Holds, nothing, row, fetched, Cut, last, more, IsPage, read_loop-IsPage,
}

module _ (f : Float) (j : JsonMarks) {S : Type 0} (accept : S → StoredRow f.F → S × Take) (s : S)
    (columns : ℕ) where
  -- Reads page after page, each with a fresh budget, and joins the rows; `none` when the fuel ends.
  pub read_all :
      (ℕ → List (Result StoreError (RawRow f.F)))
      → ℕ
      → ℕ
      → Option (Result StoreError (List (StoredRow f.F)))
  read_all select zero from = none
  read_all select (suc fuel) from = elim (read_rows f j accept select columns s from) [
    | err e ↦ some (err e)
    | ok page ↦ elim page.next_ord [
      | none ↦ some (ok page.rows)
      | some n ↦
          Option.map (λ rest. rest >>= λ more_rows. ok (page.rows ++ more_rows))
            (read_all select fuel n)
    ]
  ]

  Holds-drop :
      (n k m : ℕ) (raws : List (RawRow f.F)) (rows : List (StoredRow f.F))
      → m ≡ k + n
      → Holds f j columns k raws rows
      → Holds f j columns m (drop n raws) (drop n rows)
  Holds-drop zero k m raws rows e h = let e' : m ≡ k = omega arith in rw e' h
  Holds-drop (suc n) k m raws rows e nothing = nothing
  Holds-drop (suc n) k m raws rows e (row {raws = raws'} {rows = rows'} d o h) =
      Holds-drop n (suc k) m raws' rows' (omega arith) h

  drop_prefix : (front back : List (StoredRow f.F)) → drop (length front) (front ++ back) ≡ back
  drop_prefix [] back = refl
  drop_prefix (x ∷ front) back = drop_prefix front back

  drop_none : (m : ℕ) → drop {A = StoredRow f.F} m [] ≡ []
  drop_none zero = refl
  drop_none (suc m) = refl

  pub none_left : (front back : List (StoredRow f.F)) → [] ≡ front ++ back → back ≡ []
  none_left [] back e = sym e
  none_left (x ∷ front) back e = cc

  pub drop-append :
      (n m : ℕ) (rows front back : List (StoredRow f.F))
      → m ≡ n + length front
      → drop n rows ≡ front ++ back
      → drop m rows ≡ back
  drop-append zero m rows front back e d =
      let e' : m ≡ length front = omega arith in rw (e', d) (drop_prefix front back)
  drop-append (suc n) m [] front back e d = drop_none m ∙ sym (none_left front back d)
  drop-append (suc n) zero (x ∷ rows) front back e d = absurd (omega arith)
  drop-append (suc n) (suc m) (x ∷ rows) front back e d =
      drop-append n m rows front back (omega arith) d

  pub length-drop : (n : ℕ) (rows : List (StoredRow f.F)) → length (drop n rows) ≡ length rows - n
  length-drop zero rows = omega arith
  length-drop (suc n) [] = omega arith
  length-drop (suc n) (x ∷ rows) = omega (arith, length-drop n rows)

  module _ (select : ℕ → List (Result StoreError (RawRow f.F))) (table : List (RawRow f.F))
      (rows : List (StoredRow f.F)) (selects : (n : ℕ) → select n ≡ fetched f j (drop n table))
      (holds : Holds f j columns 0 table rows) (fits : length rows ≤ i64_max) where
    pub IsPage-at :
        (from : ℕ)
        → from ≤ length rows
        → IsPage f j from (drop from rows) [] (read_rows f j accept select columns s from)
    unfolding read_rows
    IsPage-at from h =
        rw (le→leb from i64_max (omega arith), selects from)
          (read_loop-IsPage f j accept columns from (drop from table) (drop from rows) s []
            (Holds-drop from 0 from table rows (omega arith) holds))

    -- One step of the client, from what is known of its page.
    step :
        (fuel from : ℕ)
        → from ≤ length rows
        → length rows - from < suc fuel
        → ((n : ℕ)
            → n ≤ length rows
            → length rows - n < fuel
            → read_all select fuel n ≡ some (ok (drop n rows)))
        → (front back : List (StoredRow f.F)) {next : Option ℕ} → drop from rows ≡ front ++ back
        → read_rows f j accept select columns s from ≡ ok (record { rows = front; next_ord = next })
        → (drop from rows ≢ [] → 0 < length front)
        → Cut f j from front back next
        → read_all select (suc fuel) from ≡ some (ok (drop from rows))
    unfolding read_all
    step fuel from h k ih front back d r adv (last e) =
        rw (r, read_all) (cc (d, e, append-nil front))
    step fuel from h k ih front back d r adv (more {n = n} ne e) =
        let full : drop from rows ≢ [] = λ q. ne (none_left front back (sym q ∙ d)) in
        let size : length front + length back ≡ length rows - from =
          sym (length-append front back) ∙ ap length (sym d) ∙ length-drop from rows in
        let rest : read_all select fuel n ≡ some (ok (drop n rows)) =
          ih n (omega (arith, size)) (omega (arith, size, adv full)) in
        rw (r, read_all, rest) (cc (d, drop-append from n rows front back e d))

    -- Where the table holds rows that decode, at the ordinals from 0 on and at most `i64::MAX` of
    -- them, and the statement yields those from its ordinal on: whatever the page budgets accept,
    -- following the cursors from `from` returns exactly the stored rows from there on, in order, and
    -- ends within one page for each row left and one more.
    pub read_all-eq-drop :
        (fuel from : ℕ)
        → from ≤ length rows
        → length rows - from < fuel
        → read_all select fuel from ≡ some (ok (drop from rows))
    read_all-eq-drop zero from h k = absurd (omega arith)
    read_all-eq-drop (suc fuel) from h k =
        let p = IsPage-at from h in
        step fuel from h k (λ n. read_all-eq-drop fuel n) p.front p.back p.parts p.result
          (p.advances refl) p.cut
