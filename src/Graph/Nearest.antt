-- ===== src/Graph/Nearest.antt =====
-- Where the search for a file's crate ends, told by the directories above the file.
use slugaudit.Base.{
  ◌≤◌, ◌≡◌, refl, sym, ap, subst, ◌∙◌, ◌⊎◌, inl, inr, Bool, true, false, List, [], ◌∷◌, ◌++◌, arith,
  ◌==◌, ==_iff, length, length-append, any, Bool-cases, Text, text_in,
}
use mathlib.Core.List.{append_assoc}
use slugaudit.Graph.{no_text, parent_dir}
use slugaudit.Graph.Rust.{cargo_toml, src, inside, crate_src_dir}
use slugaudit.Graph.Paths.{Anchors, manifest, root, above, crate_src_dir-Anchors}

-- The directory `e` is above `p`: the project's root, or what stands before a `/` of `p`.
abbrev pub Above : Text → Text → Type 0
Above e p = (e ≡ []) ⊎ ((rest : Text) × (p ≡ e ++ b'/' ∷ rest))

abbrev At : Text → Text → Type 0
At e dir = (e ≡ dir) ⊎ Above e dir

-- The path of an entry of a directory.
abbrev pub entry : Text → Text → Text
entry [] name = name
entry (c ∷ cs) name = (c ∷ cs) ++ b'/' ∷ name

abbrev pub has_manifest : List Text → Text → Bool
has_manifest known_paths dir = text_in (entry dir cargo_toml) known_paths

-- The directory of `crate::`: `src` of the nearest one of some directories that has a manifest, which is
-- the one with the longest path, or the project's `src` where none of them has.
pub data Nearest (On : Text → Type 0) (known_paths : List Text) (out : Text) : Type 0 where
  found :
      (dir : Text)
      → On dir
      → has_manifest known_paths dir ≡ true
      → ((e : Text) → On e → has_manifest known_paths e ≡ true → length e ≤ length dir)
      → out ≡ entry dir src
      → Nearest On known_paths out
  nowhere :
      ((e : Text) → On e → has_manifest known_paths e ≡ false)
      → out ≡ src
      → Nearest On known_paths out

inside-entry : (dir name : Text) → inside dir name ≡ entry dir name
inside-entry [] name = refl
inside-entry (c ∷ cs) name = refl

abbrev has_slash : Text → Bool
has_slash p = any (λ d. d == b'/') p

has_slash-append : (e rest : Text) → has_slash (e ++ b'/' ∷ rest) ≡ true
has_slash-append [] rest = refl
has_slash-append (c ∷ e) rest = ground (arith, has_slash-append e rest)

-- The parent is what stands before the last `/`.
parent_dir-cut : (p : Text) → has_slash p ≡ true → (rest : Text) × (p ≡ parent_dir p ++ b'/' ∷ rest)
unfolding parent_dir
parent_dir-cut [] h = absurd (ground arith)
parent_dir-cut (c ∷ cs) h = elim (Bool-cases (has_slash cs)) [
  | inl b ↦ let (rest, q) = parent_dir-cut cs b in (rest, rw b (ap (◌∷◌ c) q))
  | inr b ↦
      let same : c ≡ b'/' = (==_iff c b'/').0 (ground arith) in (cs, rw b (ap (λ x. x ∷ cs) same))
]

parent_dir-none : (p : Text) → has_slash p ≡ false → parent_dir p ≡ []
unfolding parent_dir
parent_dir-none [] h = refl
parent_dir-none (c ∷ cs) h = let b : has_slash cs ≡ false = ground arith in rw b refl

parent_dir-Above : (p : Text) → Above (parent_dir p) p
parent_dir-Above p = elim (Bool-cases (has_slash p)) [
  | inl b ↦ inr (parent_dir-cut p b)
  | inr b ↦ inl (parent_dir-none p b)
]

-- What stands before a `/` is the parent, or stands before a `/` of it.
cut-parent_dir :
    (e rest : Text)
    → (e ≡ parent_dir (e ++ b'/' ∷ rest))
      ⊎ ((more : Text) × (parent_dir (e ++ b'/' ∷ rest) ≡ e ++ b'/' ∷ more))
unfolding parent_dir
cut-parent_dir [] rest = elim (Bool-cases (has_slash rest)) [
  | inl b ↦ inr (parent_dir rest, rw b refl)
  | inr b ↦ inl (rw b refl)
]
cut-parent_dir (c ∷ e) rest =
    let b = has_slash-append e rest in
    elim (cut-parent_dir e rest) [
      | inl q ↦ inl (rw b (ap (◌∷◌ c) q))
      | inr (more, q) ↦ inr (more, rw b (ap (◌∷◌ c) q))
    ]

up : (e p : Text) → Above e p → At e (parent_dir p)
up e p (inl q) = inr (inl q)
up e p (inr (rest, q)) = elim (cut-parent_dir e rest) [
  | inl r ↦ inl (rw (sym q) at r)
  | inr (more, r) ↦ inr (inr (more, rw (sym q) at r))
]

not_empty : (e rest : Text) → [] ≡ e ++ b'/' ∷ rest → ⊥
not_empty [] rest q = absurd (cc)
not_empty (c ∷ e) rest q = absurd (cc)

Above-trans : (e d p : Text) → Above e d → Above d p → Above e p
Above-trans e d p (inl q) k = inl q
Above-trans e d p (inr (rest, q)) (inl r) = absurd (not_empty e rest (sym r ∙ q))
Above-trans e d p (inr (rest, q)) (inr (more, r)) = inr (
  rest ++ b'/' ∷ more,
  r ∙ ap (λ x. x ++ b'/' ∷ more) q ∙ append_assoc e (b'/' ∷ rest) (b'/' ∷ more),
)

down : (e p : Text) → At e (parent_dir p) → Above e p
down e p (inl q) = subst (λ x. Above x p) (sym q) (parent_dir-Above p)
down e p (inr a) = Above-trans e (parent_dir p) p a (parent_dir-Above p)

At-length : (e dir : Text) → At e dir → length e ≤ length dir
At-length e dir (inl q) = omega (arith, ap length q)
At-length e dir (inr (inl q)) = omega (arith, ap length q)
At-length e dir (inr (inr (rest, q))) = omega (arith, ap length q, length-append e (b'/' ∷ rest))

-- The same directories, told in another way.
told :
    (On On' : Text → Type 0) (known_paths : List Text) (out : Text)
    → ((e : Text) → On e → On' e)
    → ((e : Text) → On' e → On e)
    → Nearest On known_paths out
    → Nearest On' known_paths out
told On On' known_paths out to from (found dir o m longest q) =
    found dir (to dir o) m (λ e o' m'. longest e (from e o') m') q
told On On' known_paths out to from (nowhere none_has q) =
    nowhere (λ e o'. none_has e (from e o')) q

-- A directory without a manifest adds nothing to those above it.
passed :
    (known_paths : List Text) (dir out : Text)
    → has_manifest known_paths dir ≡ false
    → Nearest (λ e. At e (parent_dir dir)) known_paths out
    → Nearest (λ e. At e dir) known_paths out
passed known_paths dir out b (found d o m longest q) = found d (inr (down d dir o)) m further q
  where
    further : (e : Text) → At e dir → has_manifest known_paths e ≡ true → length e ≤ length d
    further e (inl r) m' = absurd (let m'' : has_manifest known_paths dir ≡ true = rw r at m' in cc)
    further e (inr a) m' = longest e (up e dir a) m'
passed known_paths dir out b (nowhere none_has q) = nowhere nor q
  where
    nor : (e : Text) → At e dir → has_manifest known_paths e ≡ false
    nor e (inl r) = ap (has_manifest known_paths) r ∙ b
    nor e (inr a) = none_has e (up e dir a)

no_higher : (e : Text) → At e [] → e ≡ []
no_higher e (inl q) = q
no_higher e (inr (inl q)) = q
no_higher e (inr (inr (rest, q))) = absurd (not_empty e rest q)

no_text-empty : (dir : Text) → no_text dir ≡ true → dir ≡ []
no_text-empty [] h = refl
no_text-empty (c ∷ cs) h = absurd (cc)

Anchors-Nearest :
    (known_paths : List Text) (dir out : Text)
    → Anchors known_paths dir out
    → Nearest (λ e. At e dir) known_paths out
Anchors-Nearest known_paths dir out (manifest b) =
    found dir (inl refl) (rw (inside-entry dir cargo_toml) at b) (λ e o m. At-length e dir o)
      (inside-entry dir src)
Anchors-Nearest known_paths dir out (root b n) =
    nowhere
      (λ e o.
        let empty = no_text-empty dir n in
        let same : e ≡ dir = no_higher e (subst (At e) empty o) ∙ sym empty in
        ap (has_manifest known_paths) same ∙ (rw (inside-entry dir cargo_toml) at b))
      refl
Anchors-Nearest known_paths dir out (above b n more) =
    passed known_paths dir out (rw (inside-entry dir cargo_toml) at b)
      (Anchors-Nearest known_paths (parent_dir dir) out more)

-- The search for a file's crate ends, and anchors `crate::` at the `src` of the nearest directory above
-- the file that has a `Cargo.toml`, or at the project's `src` where none has.
pub crate_src_dir-Nearest :
    (path : Text) (known_paths : List Text)
    → Nearest (λ e. Above e path) known_paths (crate_src_dir path known_paths)
crate_src_dir-Nearest path known_paths =
    told _ _ known_paths _ (λ e. down e path) (λ e. up e path)
      (Anchors-Nearest known_paths (parent_dir path) _ (crate_src_dir-Anchors path known_paths))
