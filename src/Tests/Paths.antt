-- ===== src/Tests/Paths.antt =====
-- A small workspace with one crate.
use slugaudit.Base.{
  ℕ, true, inl, inr, ◌≡◌, refl, some, List, [], ◌∷◌, ◌++◌, any, All, Text, text_eq, split_from,
  split, join,
}
use slugaudit.Graph.{normalize_join, push_parts, pop}
use slugaudit.Graph.Rust.{resolve, crate_src_dir, src, cargo_toml, crate_word, colons}
use slugaudit.Graph.Sound.{Known, resolve-Known}
use slugaudit.Graph.Paths.{Plain, normalize_join-Plain}
use slugaudit.Graph.Nearest.{Above, Nearest, crate_src_dir-Nearest}
use slugaudit.Classify.{classify}
use slugaudit.Classify.Rules.{is_vendored}
use slugaudit.Classify.Trees.{Whole, IsDir, render, names_tree, classify-render}

abbrev a_slash : Text → Text
a_slash rest = b'a' ∷ b'/' ∷ rest

-- `a/Cargo.toml` and `a/src`.
abbrev known : List Text
known = a_slash cargo_toml ∷ a_slash src ∷ []

abbrev importing : Text
importing = a_slash (src ++ b'/' ∷ b'x' ∷ [])

resolve-Known_example : Known known (resolve (crate_word ++ colons ++ b'y' ∷ []) importing known)
resolve-Known_example = resolve-Known known (crate_word ++ colons ++ b'y' ∷ []) importing

crate_src_dir-Nearest_example :
    Nearest (λ e. Above e importing) known (crate_src_dir importing known)
crate_src_dir-Nearest_example = crate_src_dir-Nearest importing known

-- `../x` from `a/src`.
abbrev up_x : Text
up_x = b'.' ∷ b'.' ∷ b'/' ∷ b'x' ∷ []

joined : normalize_join (a_slash src) up_x ≡ some (a_slash (b'x' ∷ []))
unfolding normalize_join push_parts pop split split_from join text_eq
joined = refl

normalize_join-Plain_example :
    (segments : List Text) × (a_slash (b'x' ∷ []) ≡ join b'/' segments) × All Plain segments
unfolding split split_from text_eq
normalize_join-Plain_example =
    normalize_join-Plain (a_slash src) up_x (a_slash (b'x' ∷ []))
      ((refl, refl, refl, (refl, tt)), ((refl, refl, refl, (refl, (refl, (refl, tt)))), tt)) joined

-- `Vendor\a/a/src/x`: the directory in another case, behind a backslash.
abbrev dirs : List (Text × ℕ)
dirs = (b'V' ∷ b'e' ∷ b'n' ∷ b'd' ∷ b'o' ∷ b'r' ∷ [], 92) ∷ (src, b'/') ∷ []

src-Whole : Whole src
src-Whole = ((refl, (refl, (refl, tt))), (refl, (refl, (refl, tt))))

dirs-IsDir : All IsDir dirs
dirs-IsDir = (
  (
    (
      (refl, (refl, (refl, (refl, (refl, (refl, tt)))))),
      (refl, (refl, (refl, (refl, (refl, (refl, tt)))))),
    ),
    inr refl,
  ),
  ((src-Whole, inl refl), tt),
)

classify-render_example :
    is_vendored (classify (render dirs src)) ≡ any (λ (d : Text × ℕ). names_tree d.0) dirs
classify-render_example = classify-render dirs src dirs-IsDir src-Whole

is_tree : any (λ (d : Text × ℕ). names_tree d.0) dirs ≡ true
is_tree = refl
