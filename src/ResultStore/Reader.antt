-- ===== src/ResultStore/Reader.antt =====
-- src/store/result_store/reader.rs, `read_rows`: one page of a result.
-- The statement's rows arrive as a list, each a row or a failure of `cursor.next()`. `accept` is a
-- closure with a state of its own (its byte count).
pub mod Pages
pub mod Coverage
use slugaudit.Base.{
  ℕ, zero, suc, ◌+◌, ◌-◌, ◌*◌, ◌/◌, ◌%◌, ◌^◌, ◌≤◌, ◌<◌, min, max, ◌≡◌, refl, sym, ap, subst, ◌∙◌,
  fun_ext, ◌≢◌, ◌↔◌, ◌⊎◌, inl, inr, Bool, true, false, not, ◌&&◌, ◌||◌, Option, none, some, List,
  [], ◌∷◌, ◌++◌, map, String, arith, ltb, leb, ◌==◌, ==_iff, if◌then◌else◌, ℤ, pos, negsuc,
  pos_part, neg_part, leb_ℤ, ◌≤ℤ◌, sub_ℕ, length, length-append, get_elem?, take, drop, filter, any,
  all, add64, sub64, u64_mod, i64_max, saturating_add, Result, ok, err, ok_or, ◌>>=◌, Result-cases,
  is_utf8, saturating_mul, All, All-append, All-mono, All-left, All-right, All-of, All-both,
  Bool-cases, Option-cases, u64_max, leb→le, le→leb, leb-false, str_eq, eq_iff,
}
use slugaudit.ResultStore.Cell.{StoreError, Float, StoredRow, Take, taken, skipped}
use slugaudit.ResultStore.Row.{RawRow, JsonMarks, decode_row}

-- The rows of the page, and where the next page starts.
pub record PageRows (F : Type 0) : Type 0 where
  pub rows : List (StoredRow F)
  pub next_ord : Option ℕ

-- `!first && take == Take::No`.
abbrev pub ends_page : {F : Type 0} → List (StoredRow F) → Take → Bool
ends_page rows taken = false
ends_page [] skipped = false
ends_page (r ∷ rows) skipped = true

module _ (f : Float) (j : JsonMarks) {S : Type 0} (accept : S → StoredRow f.F → S × Take) where
  unfoldable pub read_loop :
      ℕ
      → S
      → List (StoredRow f.F)
      → List (Result StoreError (RawRow f.F))
      → Result StoreError (PageRows f.F)
  read_loop columns s rows [] = ok (record { rows = rows; next_ord = none })
  read_loop columns s rows (err e ∷ fetched) = err e
  read_loop columns s rows (ok raw ∷ fetched) = elim (decode_row f j columns raw) [
    | err e ↦ err e
    | ok row ↦ elim (ends_page rows (accept s row).1) [
      | true ↦ ok (record { rows = rows; next_ord = some row.ord })
      | false ↦ read_loop columns (accept s row).0 (rows ++ row ∷ []) fetched
    ]
  ]

  -- `select` is the statement `SELECT … WHERE ord >= ?1 ORDER BY ord` on the result's file.
  unfoldable pub read_rows :
      (ℕ → List (Result StoreError (RawRow f.F))) → ℕ → S → ℕ → Result StoreError (PageRows f.F)
  unfolding read_loop
  read_rows select columns s from_ord =
      if leb from_ord i64_max
      then read_loop columns s [] (select from_ord)
      else err StoreError.unknown
