-- ===== src/Diff/Maps.antt =====
-- Maps from paths to hashes: what a key finds after an insertion.
use slugaudit.Base.{text_eq, text_eq_sound, text_eq_refl, apart}
use slugaudit.Base.{
  ℕ, ◌≡◌, refl, ap, ◌∙◌, inl, inr, false, Option, none, some, List, [], ◌∷◌, arith, if◌then◌else◌,
  Bool-cases,
}
use slugaudit.Diff.{path_le, Map, get, remove, place, insert, collect_onto}
use slugaudit.Diff.Paths.{not_le-neq}

-- One entry for each key.
abbrev pub Distinct : Map → Type 0
Distinct [] = Unit
Distinct ((k, v) ∷ m) = (get k m ≡ none) × Distinct m

-- What `p` finds beside an entry.
abbrev pub found : List ℕ → List ℕ × List ℕ → Option (List ℕ) → Option (List ℕ)
found p e other = if text_eq e.0 p then some e.1 else other

swapped :
    (p : List ℕ) (e f : List ℕ × List ℕ) (o : Option (List ℕ))
    → text_eq e.0 f.0 ≡ false
    → found p f (found p e o) ≡ found p e (found p f o)
swapped p e f o n = elim (Bool-cases (text_eq e.0 p)) [
  | inl h ↦ let k = apart e.0 f.0 p n h in rw (h, k) refl
  | inr h ↦ rw h refl
]

pub get-place :
    (p : List ℕ) (e : List ℕ × List ℕ) (m : Map) → get p (place e m) ≡ found p e (get p m)
unfolding get place
get-place p e [] = refl
get-place p e (f ∷ m) = elim (Bool-cases (path_le e.0 f.0)) [
  | inl h ↦ rw h refl
  | inr h ↦ rw (h, get-place p e m) (swapped p e f (get p m) (not_le-neq e.0 f.0 h))
]

get-remove : (k p : List ℕ) (m : Map) → get p (remove k m) ≡ (if text_eq k p then none else get p m)
unfolding get remove
get-remove k p [] = elim (Bool-cases (text_eq k p)) [ inl h ↦ rw h refl | inr h ↦ rw h refl ]
get-remove k p ((j, v) ∷ m) = elim (Bool-cases (text_eq j k)) [
  | inl h ↦ let s = text_eq_sound j k h in rw (h, get-remove k p m, s) (ground arith)
  | inr h ↦ elim (Bool-cases (text_eq j p)) [
    | inl g ↦ let n = apart j k p h g in rw (h, n, g) refl
    | inr g ↦ rw (h, g) (get-remove k p m)
  ]
]

remove-Distinct : (k : List ℕ) (m : Map) → Distinct m → Distinct (remove k m)
unfolding remove
remove-Distinct k [] d = tt
remove-Distinct k ((j, v) ∷ m) d = elim (Bool-cases (text_eq j k)) [
  | inl h ↦ rw h (remove-Distinct k m d.1)
  | inr h ↦ rw h (get-remove k j m ∙ ground (arith, d.0), remove-Distinct k m d.1)
]

place-Distinct :
    (e : List ℕ × List ℕ) (m : Map) → get e.0 m ≡ none → Distinct m → Distinct (place e m)
unfolding place get
place-Distinct e [] n d = (refl, tt)
place-Distinct e (f ∷ m) n d = elim (Bool-cases (path_le e.0 f.0)) [
  | inl h ↦ rw h (n, d)
  | inr h ↦
      let g = get-place f.0 e m in
      let a = not_le-neq e.0 f.0 h in rw h (g ∙ rw a d.0, place-Distinct e m (ground arith) d.1)
]

insert-Distinct : (e : List ℕ × List ℕ) (m : Map) → Distinct m → Distinct (insert e m)
unfolding insert
insert-Distinct e m d =
    place-Distinct e (remove e.0 m) (get-remove e.0 e.0 m ∙ rw (text_eq_refl e.0) refl)
      (remove-Distinct e.0 m d)

get-insert : (p : List ℕ) (e : List ℕ × List ℕ) (m : Map) → get p (insert e m) ≡ found p e (get p m)
unfolding insert
get-insert p e m = get-place p e (remove e.0 m) ∙ elim (Bool-cases (text_eq e.0 p)) [
  | inl h ↦ rw h refl
  | inr h ↦ rw (get-remove e.0 p m, h) refl
]

pub collect-Distinct :
    (m : Map) (pairs : List (List ℕ × List ℕ)) → Distinct m → Distinct (collect_onto m pairs)
unfolding collect_onto
collect-Distinct m [] d = d
collect-Distinct m (e ∷ pairs) d = collect-Distinct (insert e m) pairs (insert-Distinct e m d)

-- The hash of the last pair with the path.
abbrev pub last_hash : List ℕ → Option (List ℕ) → List (List ℕ × List ℕ) → Option (List ℕ)
last_hash p before [] = before
last_hash p before (e ∷ pairs) = last_hash p (found p e before) pairs

pub get-collect :
    (p : List ℕ) (m : Map) (pairs : List (List ℕ × List ℕ))
    → get p (collect_onto m pairs) ≡ last_hash p (get p m) pairs
unfolding collect_onto
get-collect p m [] = refl
get-collect p m (e ∷ pairs) =
    get-collect p (insert e m) pairs ∙ ap (λ o. last_hash p o pairs) (get-insert p e m)
