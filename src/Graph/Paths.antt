-- ===== src/Graph/Paths.antt =====
-- The paths that the resolvers compute: joined paths, and the steps of the search for a crate.
use slugaudit.Base.{
  ℕ, zero, suc, ◌≤◌, ◌<◌, ◌≡◌, subst, inl, inr, true, false, ◌||◌, some, List, [], ◌∷◌, ◌++◌, arith,
  ◌==◌, length, All, All-append, Bool-cases, Option-cases, Text, text_eq, text_in, split_from,
  split, join, Without,
}
use slugaudit.Graph.{
  no_text, pop, dot, dot_dot, push_parts, base_segments, normalize_join, parent_dir,
}
use slugaudit.Graph.Rust.{cargo_toml, src, inside, crate_src_from, crate_src_dir}

-- A segment that names an entry: not empty, not `.` or `..`, and without a `/`.
abbrev pub Plain : Text → Type 0
Plain s =
    (no_text s ≡ false) × (text_eq s dot ≡ false) × (text_eq s dot_dot ≡ false) × Without b'/' s

pop-Plain :
    (segments : List Text) {rest : List Text}
    → All Plain segments
    → pop segments ≡ some rest
    → All Plain rest
unfolding pop
pop-Plain [] h e = absurd (cc)
pop-Plain (s ∷ []) {rest} h e = let same : [] ≡ rest = cc in subst (λ x. All Plain x) same tt
pop-Plain (s ∷ t ∷ segments) {rest} h e = elim (Option-cases (pop (t ∷ segments))) [
  | inl n ↦ absurd (let e' = rw n at e in cc)
  | inr (more, n) ↦
      let e' = rw n at e in
      let same : s ∷ more ≡ rest = cc in
      subst (λ x. All Plain x) same (h.0, pop-Plain (t ∷ segments) h.1 n)
]

push_parts-Plain :
    (segments parts : List Text) {out : List Text}
    → All Plain segments
    → All (Without b'/') parts
    → push_parts segments parts ≡ some out
    → All Plain out
unfolding push_parts
push_parts-Plain segments [] {out} h w e =
    let same : segments ≡ out = cc in subst (λ x. All Plain x) same h
push_parts-Plain segments (part ∷ parts) h w e =
    elim (Bool-cases (no_text part || text_eq part dot)) [
      | inl b ↦ push_parts-Plain segments parts h w.1 (rw b at e)
      | inr b ↦ elim (Bool-cases (text_eq part dot_dot)) [
        | inl d ↦ elim (Option-cases (pop segments)) [
          | inl n ↦ absurd (let e' = rw (b, d, n) at e in cc)
          | inr (rest, n) ↦
              push_parts-Plain rest parts (pop-Plain segments h n) w.1 (rw (b, d, n) at e)
        ]
        | inr d ↦
            push_parts-Plain (segments ++ part ∷ []) parts
              (All-append Plain segments (part ∷ []) h ((ground arith, ground arith, d, w.0), tt))
              w.1 (rw (b, d) at e)
      ]
    ]

split_from-Without :
    (sep : ℕ) (part text : Text) → Without sep part → All (Without sep) (split_from sep part text)
unfolding split_from
split_from-Without sep part [] h = (h, tt)
split_from-Without sep part (c ∷ cs) h = elim (Bool-cases (c == sep)) [
  | inl e ↦ rw e (h, split_from-Without sep [] cs tt)
  | inr e ↦ rw e (
      split_from-Without sep (part ++ c ∷ []) cs
        (All-append (λ c. (c == sep) ≡ false) part (c ∷ []) h (e, tt)))
]

split-Without : (sep : ℕ) (text : Text) → All (Without sep) (split sep text)
unfolding split
split-Without sep text = split_from-Without sep [] text tt

-- Joining any text to a directory whose segments are plain names: where it succeeds, the path's segments
-- are plain names too, so it has no `..` left and does not leave the project.
pub normalize_join-Plain :
    (base_dir relative path : Text)
    → All Plain (base_segments base_dir)
    → normalize_join base_dir relative ≡ some path
    → (segments : List Text) × (path ≡ join b'/' segments) × All Plain segments
unfolding normalize_join
normalize_join-Plain base_dir relative path h e =
    elim (Option-cases (push_parts (base_segments base_dir) (split b'/' relative))) [
      | inl n ↦ absurd (let e' = rw (n, normalize_join) at e in cc)
      | inr (segments, n) ↦
          let e' = rw (n, normalize_join) at e in
          (
            segments,
            cc,
            push_parts-Plain (base_segments base_dir) (split b'/' relative) h
                (split-Without b'/' relative) n,
          )
    ]

-- Where a search upwards from a directory anchors `crate::`.
pub data Anchors (known_paths : List Text) : Text → Text → Type 0 where
  manifest :
      {dir : Text}
      → text_in (inside dir cargo_toml) known_paths ≡ true
      → Anchors known_paths dir (inside dir src)
  root :
      {dir : Text}
      → text_in (inside dir cargo_toml) known_paths ≡ false
      → no_text dir ≡ true
      → Anchors known_paths dir src
  above :
      {dir out : Text}
      → text_in (inside dir cargo_toml) known_paths ≡ false
      → no_text dir ≡ false
      → Anchors known_paths (parent_dir dir) out
      → Anchors known_paths dir out

parent_dir-shorter : (c : ℕ) (cs : Text) → length (parent_dir (c ∷ cs)) ≤ length cs
unfolding parent_dir
parent_dir-shorter c [] = omega arith
parent_dir-shorter c (d ∷ cs) = ground (arith, parent_dir-shorter d cs)

crate_src_from-Anchors :
    (fuel : ℕ) (dir : Text) (known_paths : List Text)
    → length dir < fuel
    → Anchors known_paths dir (crate_src_from fuel dir known_paths)
unfolding crate_src_from
crate_src_from-Anchors zero dir known_paths h = absurd (omega arith)
crate_src_from-Anchors (suc fuel) dir known_paths h =
    elim (Bool-cases (text_in (inside dir cargo_toml) known_paths)) [
      | inl b ↦ rw b (manifest b)
      | inr b ↦ elim (Bool-cases (no_text dir)) [
        | inl n ↦ rw (b, n) (root b n)
        | inr n ↦
            rw (b, n)
              (above b n
                (crate_src_from-Anchors fuel (parent_dir dir) known_paths (shorter dir n h)))
      ]
    ]
  where
    shorter : (d : Text) → no_text d ≡ false → length d < suc fuel → length (parent_dir d) < fuel
    shorter [] n k = absurd (ground arith)
    shorter (c ∷ cs) n k = omega (arith, parent_dir-shorter c cs)

-- The fuel is enough for the search from a file's directory.
pub crate_src_dir-Anchors :
    (path : Text) (known_paths : List Text)
    → Anchors known_paths (parent_dir path) (crate_src_dir path known_paths)
unfolding crate_src_dir
crate_src_dir-Anchors path known_paths =
    crate_src_from-Anchors (suc (length (parent_dir path))) (parent_dir path) known_paths
      (omega arith)
