-- ===== src/Diff.antt =====
-- src/sync/manifest.rs and src/sync/publish_diff.rs: how the files on disk differ from the stored
-- revision. Paths and hashes are their UTF-8 bytes, which Rust compares. The database's rows, the
-- deadline's clock and the analysis of a file are parameters.
pub mod Paths
pub mod Maps
pub mod Status
pub mod Retries
pub mod Publish
pub mod Written
use slugaudit.Base.{text_eq, text_eq_sound, text_eq_refl, apart, text_in}
use slugaudit.Base.{
  ℕ, zero, suc, ◌+◌, ◌-◌, ◌*◌, ◌/◌, ◌%◌, ◌^◌, ◌≤◌, ◌<◌, min, max, ◌≡◌, refl, sym, ap, subst, ◌∙◌,
  fun_ext, ◌≢◌, ◌↔◌, ◌⊎◌, inl, inr, Bool, true, false, not, ◌&&◌, ◌||◌, Option, none, some, List,
  [], ◌∷◌, ◌++◌, map, String, arith, ltb, leb, ◌==◌, ==_iff, if◌then◌else◌, ℤ, pos, negsuc,
  pos_part, neg_part, leb_ℤ, ◌≤ℤ◌, sub_ℕ, length, length-append, get_elem?, take, drop, filter, any,
  all, add64, sub64, u64_mod, i64_max, saturating_add, Result, ok, err, ok_or, ◌>>=◌, Result-cases,
  is_utf8, saturating_mul, All, All-append, All-mono, All-left, All-right, All-of, All-both,
  Bool-cases, Option-cases, u64_max, leb→le, le→leb, leb-false, str_eq, eq_iff,
}

pub data ChangeStatus : Type 0 where
  added modified deleted : ChangeStatus

pub record FileChange : Type 0 where
  pub relative_path : List ℕ
  pub status : ChangeStatus

-- The order of two paths.
unfoldable pub path_le : List ℕ → List ℕ → Bool
path_le [] ys = true
path_le (x ∷ xs) [] = false
path_le (x ∷ xs) (y ∷ ys) = let rest = path_le xs ys in if x == y then rest else ltb x y

-- A `BTreeMap` from paths to hashes, its entries in the order of their keys.
abbrev pub Map : Type 0
Map = List (List ℕ × List ℕ)

unfoldable pub get : List ℕ → Map → Option (List ℕ)
unfolding text_eq
get path [] = none
get path ((k, v) ∷ m) = let rest = get path m in if text_eq k path then some v else rest

unfoldable pub remove : List ℕ → Map → Map
unfolding text_eq
remove path [] = []
remove path ((k, v) ∷ m) =
    let rest = remove path m in if text_eq k path then rest else (k, v) ∷ rest

unfoldable pub place : List ℕ × List ℕ → Map → Map
unfolding path_le
place e [] = e ∷ []
place e (f ∷ m) = let rest = place e m in if path_le e.0 f.0 then e ∷ f ∷ m else f ∷ rest

unfoldable pub insert : List ℕ × List ℕ → Map → Map
unfolding remove place
insert e m = place e (remove e.0 m)

-- `collect`: the pairs are inserted in their order.
unfoldable pub collect_onto : Map → List (List ℕ × List ℕ) → Map
unfolding insert
collect_onto m [] = m
collect_onto m (e ∷ pairs) = collect_onto (insert e m) pairs

abbrev pub cons_change : List ℕ → Option ChangeStatus → List FileChange → List FileChange
cons_change path none changes = changes
cons_change path (some status) changes = record { relative_path = path; status = status } ∷ changes

-- The arms of the first loop of `compare`.
abbrev pub against_stored : Option (List ℕ) → List ℕ → Option ChangeStatus
against_stored none hash = some added
against_stored (some stored_hash) hash =
    if not (text_eq stored_hash hash) then some modified else none

unfoldable pub current_changes : Map → Map → List FileChange
unfolding get
current_changes stored [] = []
current_changes stored ((path, hash) ∷ current) =
    cons_change path (against_stored (get path stored) hash) (current_changes stored current)

abbrev pub against_current : Option (List ℕ) → Option ChangeStatus
against_current none = some deleted
against_current (some hash) = none

unfoldable pub stored_changes : Map → Map → List FileChange
unfolding get
stored_changes current [] = []
stored_changes current ((path, hash) ∷ stored) =
    cons_change path (against_current (get path current)) (stored_changes current stored)

-- The stable `sort_by` of the changes by path.
unfoldable pub place_change : FileChange → List FileChange → List FileChange
unfolding path_le
place_change c [] = c ∷ []
place_change c (d ∷ changes) =
    let rest = place_change c changes in
    if path_le c.relative_path d.relative_path then c ∷ d ∷ changes else d ∷ rest

unfoldable pub sort_changes : List FileChange → List FileChange
unfolding place_change
sort_changes [] = []
sort_changes (c ∷ changes) = place_change c (sort_changes changes)

unfoldable pub compare : List (List ℕ × List ℕ) → List (List ℕ × List ℕ) → List FileChange
unfolding collect_onto current_changes stored_changes sort_changes
compare stored current =
    let s = collect_onto [] stored in
    let c = collect_onto [] current in sort_changes (current_changes s c ++ stored_changes c s)

abbrev pub same_status : ChangeStatus → ChangeStatus → Bool
same_status added added = true
same_status modified modified = true
same_status deleted deleted = true
same_status _ _ = false

unfoldable pub count_changes : List FileChange → ChangeStatus → ℕ
count_changes changes status = length (filter (λ c. same_status c.status status) changes)

-- `add_load_failed_retries`.
unfoldable pub add_load_failed_retries :
    List FileChange → List (List ℕ × List ℕ) → List (List ℕ) → List FileChange
unfolding text_eq sort_changes
add_load_failed_retries changes current [] = changes
add_load_failed_retries changes current (p ∷ load_failed) =
    let already = map FileChange.relative_path changes in
    sort_changes (
      changes
      ++ map (λ e. record { relative_path = e.0; status = modified })
          (filter
            (λ (e : List ℕ × List ℕ). text_in e.0 (p ∷ load_failed) && not (text_in e.0 already))
            current))
