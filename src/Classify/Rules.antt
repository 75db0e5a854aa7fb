-- ===== src/Classify/Rules.antt =====
-- How the segments of a path decide its class.
use slugaudit.Base.{
  ℕ, ◌≡◌, refl, ap, inl, inr, Bool, true, false, some, List, [], ◌∷◌, ◌++◌, map, if◌then◌else◌, any,
  Bool-cases, Text, text_in,
}
use slugaudit.Classify.{
  FileClass, vendored, generated, authored, vendored_segments, lower, split_by, is_separator,
  dirs_of, last_of, class_of, classify,
}

-- The segments of a path, in lower case.
abbrev pub segments_of : Text → List Text
segments_of path = split_by is_separator [] (map lower path)

pub split_by-append :
    (p : ℕ → Bool) (part xs : Text) (c : ℕ) (ys : Text)
    → p c ≡ true
    → split_by p part (xs ++ c ∷ ys) ≡ split_by p part xs ++ split_by p [] ys
unfolding split_by
split_by-append p part [] c ys h = rw h refl
split_by-append p part (x ∷ xs) c ys h = elim (Bool-cases (p x)) [
  | inl e ↦ rw e (ap (◌∷◌ part) (split_by-append p [] xs c ys h))
  | inr e ↦ rw e (split_by-append p (part ++ x ∷ []) xs c ys h)
]

split_by-cons :
    (p : ℕ → Bool) (part text : Text)
    → (q : Text) × (parts : List Text) × (split_by p part text ≡ q ∷ parts)
unfolding split_by
split_by-cons p part [] = (part, [], refl)
split_by-cons p part (c ∷ cs) = elim (Bool-cases (p c)) [
  | inl e ↦ (part, split_by p [] cs, rw e refl)
  | inr e ↦ rw e (split_by-cons p (part ++ c ∷ []) cs)
]

pub dirs_of-append :
    (xs : List Text) (q : Text) (parts : List Text)
    → dirs_of (xs ++ q ∷ parts) ≡ xs ++ dirs_of (q ∷ parts)
dirs_of-append [] q parts = refl
dirs_of-append (x ∷ []) q parts = refl
dirs_of-append (x ∷ y ∷ xs) q parts = ap (◌∷◌ x) (dirs_of-append (y ∷ xs) q parts)

last_of-some : (q : Text) (parts : List Text) → (name : Text) × (last_of (q ∷ parts) ≡ some name)
last_of-some q [] = (q, refl)
last_of-some q (r ∷ parts) = last_of-some r parts

pub map-append : (xs ys : Text) → map lower (xs ++ ys) ≡ map lower xs ++ map lower ys
map-append [] ys = refl
map-append (x ∷ xs) ys = ap (◌∷◌ (lower x)) (map-append xs ys)

abbrev pub is_vendored : FileClass → Bool
is_vendored vendored = true
is_vendored _ = false

-- A segment names a third-party tree.
abbrev pub names_vendor : Text → Bool
names_vendor s = text_in s vendored_segments

class_of-vendored :
    (dirs : List Text) (name : Text)
    → is_vendored (class_of dirs (some name)) ≡ any names_vendor dirs
class_of-vendored dirs name = by_tests _ _
  where
    by_tests :
        (b c : Bool) → is_vendored (if b then vendored else if c then generated else authored) ≡ b
    by_tests true c = refl
    by_tests false true = refl
    by_tests false false = refl

pub classify-dirs :
    (path : Text) → is_vendored (classify path) ≡ any names_vendor (dirs_of (segments_of path))
unfolding classify
classify-dirs path =
    let (q, parts, e) = split_by-cons is_separator [] (map lower path) in
    let (name, l) = last_of-some q parts in rw (e, l) (class_of-vendored (dirs_of (q ∷ parts)) name)
