-- ===== src/ResultStore/Reader/Pages.antt =====
-- Paging through a result: the pages are the stored rows, each once and in order.
use slugaudit.Base.{
  ℕ, suc, ◌+◌, ◌<◌, ◌≡◌, refl, ap, ◌∙◌, ◌≢◌, inl, inr, true, Option, none, some, List, [], ◌∷◌,
  ◌++◌, arith, length, Result, ok, Bool-cases,
}
use mathlib.Core.List.{append-nil, append_assoc}
use slugaudit.ResultStore.Cell.{StoreError, Float, StoredRow, Take, taken, skipped}
use slugaudit.ResultStore.Row.{RawRow, JsonMarks, decode_row}
use slugaudit.ResultStore.Reader.{PageRows, ends_page, read_loop}

module _ (f : Float) (j : JsonMarks) where
  -- The table holds these rows, at ordinals that count up from `from`.
  pub data Holds (columns : ℕ) : ℕ → List (RawRow f.F) → List (StoredRow f.F) → Type 0 where
    nothing : {from : ℕ} → Holds columns from [] []
    row :
        {from : ℕ} {raw : RawRow f.F} {r : StoredRow f.F} {raws : List (RawRow f.F)}
        {rows : List (StoredRow f.F)}
        → decode_row f j columns raw ≡ ok r
        → r.ord ≡ from
        → Holds columns (suc from) raws rows
        → Holds columns from (raw ∷ raws) (r ∷ rows)

  abbrev pub fetched : List (RawRow f.F) → List (Result StoreError (RawRow f.F))
  fetched [] = []
  fetched (raw ∷ raws) = ok raw ∷ fetched raws

  -- A page that has `front` and leaves `back`; `next` is the ordinal of the first row left.
  pub data Cut (from : ℕ) (front back : List (StoredRow f.F)) : Option ℕ → Type 0 where
    last : back ≡ [] → Cut from front back none
    more : {n : ℕ} → back ≢ [] → n ≡ from + length front → Cut from front back (some n)

  pub record IsPage (from : ℕ) (rows : List (StoredRow f.F)) (got : List (StoredRow f.F))
      (res : Result StoreError (PageRows f.F)) : Type 0 where
    pub front : List (StoredRow f.F)
    pub back : List (StoredRow f.F)
    pub next : Option ℕ
    pub parts : rows ≡ front ++ back
    pub result : res ≡ ok (record { rows = got ++ front; next_ord = next })
    pub cut : Cut from front back next
    pub advances : (got ≡ []) → (rows ≢ []) → 0 < length front

  IsPage-cons :
      (from : ℕ) (r : StoredRow f.F) (rows got : List (StoredRow f.F))
      {res : Result StoreError (PageRows f.F)}
      → IsPage (suc from) rows (got ++ r ∷ []) res
      → IsPage from (r ∷ rows) got res
  IsPage-cons from r rows got p = record {
    front = r ∷ p.front;
    back = p.back;
    next = p.next;
    parts = ap (◌∷◌ r) p.parts;
    result =
        p.result
        ∙ ap (λ x. ok (record { rows = x; next_ord = p.next })) (append_assoc got (r ∷ []) p.front);
    cut = shift p.cut;
    advances = λ e n. omega arith;
  }
    where
      shift :
          {next : Option ℕ}
          → Cut (suc from) p.front p.back next
          → Cut from (r ∷ p.front) p.back next
      shift (last e) = last e
      shift (more n e) = more n (omega arith)

  ends_first : (got : List (StoredRow f.F)) (t : Take) → ends_page got t ≡ true → got ≡ [] → ⊥
  ends_first [] taken e q = cc
  ends_first [] skipped e q = cc
  ends_first (r ∷ got) t e q = cc

  module _ {S : Type 0} (accept : S → StoredRow f.F → S × Take) where
    pub read_loop-IsPage :
        (columns from : ℕ) (raws : List (RawRow f.F)) (rows : List (StoredRow f.F)) (s : S)
        (got : List (StoredRow f.F))
        → Holds columns from raws rows
        → IsPage from rows got (read_loop f j accept columns s got (fetched raws))
    unfolding read_loop
    read_loop-IsPage columns from raws rows s got nothing = record {
      front = [];
      back = [];
      next = none;
      parts = refl;
      result = rw append-nil;
      cut = last refl;
      advances = λ e n. absurd (n refl);
    }
    read_loop-IsPage columns from raws rows s got
          (row {raw = raw} {r = r} {raws = raws'} {rows = rows'} d o h) =
        rw (d, read_loop)
          (elim (Bool-cases (ends_page got (accept s r).1)) [
            | inl e ↦
                rw (e, read_loop)
                  (record {
                    front = [];
                    back = r ∷ rows';
                    next = some r.ord;
                    parts = refl;
                    result = rw append-nil;
                    cut = more (λ q. cc) (omega arith);
                    advances = λ q n. absurd (ends_first got (accept s r).1 e q);
                  })
            | inr e ↦
                rw (e, read_loop)
                  (IsPage-cons from r rows' got (
                    read_loop-IsPage columns (suc from) raws' rows' (accept s r).0 (got ++ r ∷ [])
                      h))
          ])
