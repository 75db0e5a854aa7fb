-- ===== src/ResultStore/Cell.antt =====
-- src/store/result_store/cell.rs and error.rs: stored values, the marks of non-finite doubles, rows,
-- and the failures of the store. Doubles are a parameter with the tests that the code makes of them.
use slugaudit.Base.{
  ℕ, ◌≡◌, refl, Bool, Option, none, some, List, String, if◌then◌else◌, ℤ, length, str_eq,
}

-- The failures, each with its static context where the source has one.
pub data StoreError : Type 0 where
  unavailable : String → StoreError
  full : ℕ → StoreError
  too_large expired lock clock unknown : StoreError
  invalid : String → StoreError
  io sqlite json corrupt : String → StoreError

-- A double: the source's tests on it.
pub record Float : Type 1 where
  pub F : Type 0
  pub is_nan : F → Bool
  pub is_infinity : F → Bool
  pub is_neg_infinity : F → Bool

pub data NonFinite : Type 0 where
  nan infinity neg_infinity : NonFinite

-- `NonFinite::as_str` and `NonFinite::parse`.
unfoldable pub as_str : NonFinite → String
as_str nan = "NaN"
as_str infinity = "Infinity"
as_str neg_infinity = "-Infinity"

unfoldable pub parse : String → Option NonFinite
parse name =
    if str_eq name "NaN"
    then some nan
    else if str_eq name "Infinity"
    then some infinity
    else if str_eq name "-Infinity"
    then some neg_infinity
    else none

-- Text and blobs are lists of bytes here; `text` holds what `String` holds, its UTF-8 bytes.
pub data Cell (F : Type 0) : Type 0 where
  null : Cell F
  int : ℤ → Cell F
  real : F → Cell F
  text : List ℕ → Cell F
  blob : List ℕ → Cell F

pub record StoredRow (F : Type 0) : Type 0 where
  pub ord : ℕ
  pub cells : List (Cell F)
  pub nonfinite : List (ℕ × NonFinite)

-- A caller's verdict on one row.
pub data Take : Type 0 where
  taken skipped : Take

unfoldable pub payload_len : {F : Type 0} → Cell F → ℕ
payload_len null = 8
payload_len (int _) = 8
payload_len (real _) = 8
payload_len (text bytes) = length bytes
payload_len (blob bytes) = length bytes

-- `NonFinite::of`.
unfoldable pub mark_of : (f : Float) → f.F → Option NonFinite
mark_of f v =
    if f.is_nan v
    then some nan
    else if f.is_infinity v
    then some infinity
    else if f.is_neg_infinity v
    then some neg_infinity
    else none

-- Reading back a mark's name gives the mark.
pub parse-as_str : (m : NonFinite) → parse (as_str m) ≡ some m
unfolding parse as_str
parse-as_str nan = refl
parse-as_str infinity = refl
parse-as_str neg_infinity = refl
