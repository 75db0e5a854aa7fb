-- ===== src/Classify/Trees.antt =====
-- Which paths are vendored, told by the names of their directories.
use slugaudit.Base.{
  ℕ, ◌+◌, ◌≡◌, refl, sym, ap, ◌∙◌, ◌⊎◌, inl, inr, Bool, true, false, not, ◌&&◌, ◌||◌, List, [], ◌∷◌,
  ◌++◌, map, arith, leb, ◌==◌, any, all, All, Text, text_eq, text_in, Without,
}
use mathlib.Core.List.{append-nil, append_assoc}
use slugaudit.Classify.{vendored_segments, lower, split_by, is_separator, dirs_of, classify}
use slugaudit.Classify.Rules.{
  is_vendored, names_vendor, segments_of, split_by-append, classify-dirs, map-append,
  dirs_of-append,
}

-- The names of the directories that hold other projects' code.
abbrev pub tree_names : List Text
tree_names =
    (b'v' ∷ b'e' ∷ b'n' ∷ b'd' ∷ b'o' ∷ b'r' ∷ [])
    ∷ (b'v' ∷ b'e' ∷ b'n' ∷ b'd' ∷ b'o' ∷ b'r' ∷ b's' ∷ [])
    ∷ (b't' ∷ b'h' ∷ b'i' ∷ b'r' ∷ b'd' ∷ b'_' ∷ b'p' ∷ b'a' ∷ b'r' ∷ b't' ∷ b'y' ∷ [])
    ∷ (b't' ∷ b'h' ∷ b'i' ∷ b'r' ∷ b'd' ∷ b'-' ∷ b'p' ∷ b'a' ∷ b'r' ∷ b't' ∷ b'y' ∷ [])
    ∷ (b't' ∷ b'h' ∷ b'i' ∷ b'r' ∷ b'd' ∷ b'p' ∷ b'a' ∷ b'r' ∷ b't' ∷ b'y' ∷ [])
    ∷ (b'n' ∷ b'o' ∷ b'd' ∷ b'e' ∷ b'_' ∷ b'm' ∷ b'o' ∷ b'd' ∷ b'u' ∷ b'l' ∷ b'e' ∷ b's' ∷ [])
    ∷ (b'b' ∷ b'o' ∷ b'w' ∷ b'e' ∷ b'r' ∷ b'_' ∷ b'c' ∷ b'o' ∷ b'm' ∷ b'p' ∷ b'o' ∷ b'n' ∷ b'e'
        ∷ b'n' ∷ b't' ∷ b's' ∷ [])
    ∷ (b'j' ∷ b's' ∷ b'p' ∷ b'm' ∷ b'_' ∷ b'p' ∷ b'a' ∷ b'c' ∷ b'k' ∷ b'a' ∷ b'g' ∷ b'e' ∷ b's'
        ∷ [])
    ∷ (b's' ∷ b'i' ∷ b't' ∷ b'e' ∷ b'-' ∷ b'p' ∷ b'a' ∷ b'c' ∷ b'k' ∷ b'a' ∷ b'g' ∷ b'e' ∷ b's'
        ∷ [])
    ∷ (b'd' ∷ b'i' ∷ b's' ∷ b't' ∷ b'-' ∷ b'p' ∷ b'a' ∷ b'c' ∷ b'k' ∷ b'a' ∷ b'g' ∷ b'e' ∷ b's'
        ∷ [])
    ∷ (b'p' ∷ b'o' ∷ b'd' ∷ b's' ∷ [])
    ∷ (b'v' ∷ b'e' ∷ b'n' ∷ b'v' ∷ [])
    ∷ (b'.' ∷ b'v' ∷ b'e' ∷ b'n' ∷ b'v' ∷ [])
    ∷ (b'v' ∷ b'i' ∷ b'r' ∷ b't' ∷ b'u' ∷ b'a' ∷ b'l' ∷ b'e' ∷ b'n' ∷ b'v' ∷ [])
    ∷ []

-- A letter of a name in either case, or another character of it.
abbrev pub alike : ℕ → ℕ → Bool
alike c d = c == d || (leb b'a' d && (leb d b'z' && c + 32 == d))

abbrev pub all_alike : Text → Text → Bool
all_alike [] [] = true
all_alike (c ∷ cs) (d ∷ ds) = let rest = all_alike cs ds in alike c d && rest
all_alike _ _ = false

abbrev pub names_tree : Text → Bool
names_tree s = any (all_alike s) tree_names

-- A path: its directories, each with the separator behind it, and the file's name.
abbrev pub render : List (Text × ℕ) → Text → Text
render [] name = name
render ((s, separator) ∷ dirs) name = s ++ separator ∷ render dirs name

abbrev pub Whole : Text → Type 0
Whole s = Without b'/' s × Without 92 s

abbrev pub IsDir : Text × ℕ → Type 0
IsDir (s, separator) = Whole s × ((separator ≡ b'/') ⊎ (separator ≡ 92))

-- Without an upper-case letter.
abbrev is_low : Text → Bool
is_low s = all (λ d. not (leb b'A' d && leb d b'Z')) s

lower-alike : (c d : ℕ) → not (leb b'A' d && leb d b'Z') ≡ true → (d == lower c) ≡ alike c d
lower-alike c d h = ground arith

text_eq-alike : (s name : Text) → is_low name ≡ true → text_eq name (map lower s) ≡ all_alike s name
unfolding text_eq
text_eq-alike [] [] h = refl
text_eq-alike [] (d ∷ ds) h = refl
text_eq-alike (c ∷ cs) [] h = refl
text_eq-alike (c ∷ cs) (d ∷ ds) h =
    let e = lower-alike c d (ground arith) in
    let r = text_eq-alike cs ds (ground arith) in rw (e, r) refl

Whole-split_by :
    (part s : Text)
    → Whole s
    → split_by is_separator part (map lower s) ≡ (part ++ map lower s) ∷ []
unfolding split_by
Whole-split_by part [] w = ap (λ x. x ∷ []) (sym (append-nil part))
Whole-split_by part (c ∷ cs) w =
    let b : is_separator (lower c) ≡ false = ground (arith, w.0.0, w.1.0) in
    rw b (
      Whole-split_by (part ++ lower c ∷ []) cs (w.0.1, w.1.1)
      ∙ ap (λ x. x ∷ []) (append_assoc part (lower c ∷ []) (map lower cs)))

separates : (c : ℕ) → (c ≡ b'/') ⊎ (c ≡ 92) → is_separator (lower c) ≡ true
separates c (inl q) = rw q refl
separates c (inr q) = rw q refl

abbrev lowered : Text × ℕ → Text
lowered d = map lower d.0

segments_of-render :
    (dirs : List (Text × ℕ)) (name : Text)
    → All IsDir dirs
    → Whole name
    → segments_of (render dirs name) ≡ map lowered dirs ++ map lower name ∷ []
segments_of-render [] name d w = Whole-split_by [] name w
segments_of-render ((s, separator) ∷ dirs) name d w =
    ap (split_by is_separator []) (map-append s (separator ∷ render dirs name))
    ∙ split_by-append is_separator [] (map lower s) (lower separator) (map lower (render dirs name))
        (separates separator d.0.1)
    ∙ ap (λ x. x ++ segments_of (render dirs name)) (Whole-split_by [] s d.0.0)
    ∙ ap (◌∷◌ (map lower s)) (segments_of-render dirs name d.1 w)

dirs_of-last : (xs : List Text) (q : Text) → dirs_of (xs ++ q ∷ []) ≡ xs
dirs_of-last xs q = dirs_of-append xs q [] ∙ append-nil xs

any-names : (s : Text) → names_vendor (map lower s) ≡ names_tree s
any-names s = by_list vendored_segments refl
  where
    by_list :
        (names : List Text)
        → all is_low names ≡ true
        → text_in (map lower s) names ≡ any (all_alike s) names
    by_list [] h = refl
    by_list (name ∷ names) h =
        let e = text_eq-alike s name (ground arith) in
        let r = by_list names (ground arith) in rw (e, r) refl

any-lowered :
    (dirs : List (Text × ℕ)) → any names_vendor (map lowered dirs) ≡ any (λ d. names_tree d.0) dirs
any-lowered [] = refl
any-lowered ((s, separator) ∷ dirs) = rw (any-names s, any-lowered dirs) refl

-- A path is vendored exactly when a directory of it has the name of a tree of other projects' code, its
-- letters in any case, whether `/` or a backslash follows; the file's own name does not count.
pub classify-render :
    (dirs : List (Text × ℕ)) (name : Text)
    → All IsDir dirs
    → Whole name
    → is_vendored (classify (render dirs name)) ≡ any (λ d. names_tree d.0) dirs
classify-render dirs name d w =
    classify-dirs (render dirs name)
    ∙ ap (λ s. any names_vendor (dirs_of s)) (segments_of-render dirs name d w)
    ∙ ap (any names_vendor) (dirs_of-last (map lowered dirs) (map lower name))
    ∙ any-lowered dirs
