-- ===== src/Graph/Sound.antt =====
-- A resolution names a known path, and only a resolution names one.
use slugaudit.Base.{
  ℕ, zero, suc, ◌≡◌, refl, inl, inr, Bool, true, false, not, Option, none, some, List, [], ◌∷◌,
  ◌++◌, map, String, if◌then◌else◌, length, take, filter, All, All-append, Bool-cases, Text,
  text_eq, text_in, strip_prefix, join,
}
use slugaudit.Graph.{
  Resolution, ResolutionKind, resolved, unresolved, external, no_path, is_resolved, of_matches,
  pick, forced, no_text, module_files, path_files, segment_files, normalize_join, shorten,
  split_colons, resolve_rust_path, resolve_rust_module_file, resolve_rust_from_base,
  strip_trailing_glob, first_of, first_resolved, after_colons, trim, parent_dir,
}
use slugaudit.Graph.Rust.{
  crate_word, self_word, super_word, colons, root_files, crate_root, crate_src_dir, resolve_crate,
  resolve_super, resolve_local, resolve, leads, or_external, rust_module_dir, supers,
}

abbrev pub KnownAs : List Text → ResolutionKind → Option String → Option Text → Type 0
KnownAs known_paths resolved confidence path =
    (p : Text) × (c : String) × (path ≡ some p)
    × (confidence ≡ some c)
    × (text_in p known_paths ≡ true)
KnownAs known_paths _ confidence path = (path ≡ none) × (confidence ≡ none)

-- A resolved import has a path, which is known, and a confidence; any other has neither.
abbrev pub Known : List Text → Resolution → Type 0
Known known_paths r = KnownAs known_paths r.kind r.confidence r.to_relative_path

filter-All : (p : Text → Bool) (xs : List Text) → All (λ x. p x ≡ true) (filter p xs)
filter-All p [] = tt
filter-All p (x ∷ xs) = elim (Bool-cases (p x)) [
  | inl h ↦ rw h (h, filter-All p xs)
  | inr h ↦ rw h (filter-All p xs)
]

of_matches-Known :
    (known_paths : List Text) (matches : List Text)
    → All (λ x. text_in x known_paths ≡ true) matches
    → Known known_paths (of_matches matches)
of_matches-Known known_paths [] h = (refl, refl)
of_matches-Known known_paths (only ∷ []) h = (only, "High", refl, refl, h.0)
of_matches-Known known_paths (first ∷ other ∷ more) h = (first, "Low", refl, refl, h.0)

module _ (known_paths : List Text) where
  pub pick-Known : (candidates : List Text) → Known known_paths (pick candidates known_paths)
  unfolding pick
  pick-Known candidates =
      of_matches-Known known_paths _ (filter-All (λ c. text_in c known_paths) candidates)

  forced_kind-Known :
      (k : ResolutionKind) (o : Option String) (p : Option Text) (c : String)
      → KnownAs known_paths k o p
      → Known known_paths
          (forced (some c) (record { kind = k; confidence = o; to_relative_path = p }))
  forced_kind-Known resolved o p c (path, old, q, _, h) = (path, c, q, refl, h)
  forced_kind-Known unresolved o p c h = h
  forced_kind-Known external o p c h = h

  forced-Known :
      (c : Option String) (r : Resolution) → Known known_paths r → Known known_paths (forced c r)
  forced-Known none r h = h
  forced-Known (some c) r h = forced_kind-Known r.kind r.confidence r.to_relative_path c h

  if-Known :
      (b : Bool) (r r' : Resolution)
      → Known known_paths r
      → Known known_paths r'
      → Known known_paths (if b then r else r')
  if-Known true r r' h k = h
  if-Known false r r' h k = k

  module_file-Known :
      (dir : Text) (c : Option String)
      → Known known_paths (resolve_rust_module_file dir known_paths c)
  unfolding resolve_rust_module_file
  module_file-Known dir c =
      if-Known (no_text dir) (no_path unresolved) _ (refl, refl)
        (forced-Known c (pick (module_files dir) known_paths) (pick-Known (module_files dir)))

  segment_files-Known : (o : Option Text) → Known known_paths (segment_files o known_paths)
  segment_files-Known none = (refl, refl)
  segment_files-Known (some joined) = pick-Known (path_files joined)

  shorten-Known :
      (n : ℕ) (parts : List Text) (base : Text) (c : Option String)
      → Known known_paths (shorten n parts base known_paths c)
  unfolding shorten
  shorten-Known zero parts base c = (refl, refl)
  shorten-Known (suc n) parts base c =
      let found =
        segment_files (normalize_join base (join b'/' (take (suc n) parts))) known_paths in
      if-Known (is_resolved found.kind) (forced c found) (shorten n parts base known_paths c)
        (forced-Known c found
          (segment_files-Known (normalize_join base (join b'/' (take (suc n) parts)))))
        (shorten-Known n parts base c)

  from_base-Known :
      (rest base : Text) (c : Option String)
      → Known known_paths (resolve_rust_from_base rest base known_paths c)
  unfolding resolve_rust_from_base resolve_rust_path
  from_base-Known rest base c =
      let parts = filter (λ p. not (no_text p)) (split_colons [] (strip_trailing_glob rest)) in
      if-Known (no_text (strip_trailing_glob rest)) (resolve_rust_module_file base known_paths c)
        (resolve_rust_path (strip_trailing_glob rest) base known_paths c) (module_file-Known base c)
        (shorten-Known (length parts) parts base c)

  first_of-Known :
      (rs : List Resolution) → All (Known known_paths) rs → Known known_paths (first_of rs)
  unfolding first_of
  first_of-Known [] h = (refl, refl)
  first_of-Known (r ∷ rs) h =
      if-Known (is_resolved r.kind) r (first_of rs) h.0 (first_of-Known rs h.1)

  map-Known :
      (g : Text → Resolution)
      → ((b : Text) → Known known_paths (g b))
      → (bases : List Text) → All (Known known_paths) (map g bases)
  map-Known g h [] = tt
  map-Known g h (b ∷ bases) = (h b, map-Known g h bases)

  first_resolved-Known :
      (rest : Text) (bases : List Text) → Known known_paths (first_resolved rest bases known_paths)
  unfolding first_resolved
  first_resolved-Known rest bases = first_of-Known _ (
      All-append (Known known_paths)
        (map (λ b. resolve_rust_from_base rest b known_paths (some "Low")) bases) _
        (map-Known _ (λ b. from_base-Known rest b (some "Low")) bases)
        (map-Known _ (λ b. module_file-Known b (some "Low")) bases))

  crate-Known : (rest path : Text) → Known known_paths (resolve_crate rest path known_paths)
  unfolding resolve_crate
  crate-Known rest path =
      let base = crate_src_dir path known_paths in
      let found = resolve_rust_from_base rest base known_paths none in
      if-Known (no_text (strip_trailing_glob rest)) (crate_root base known_paths) _
        (pick-Known (root_files base))
        (if-Known (is_resolved found.kind) found
          (resolve_rust_module_file base known_paths (some "Low")) (from_base-Known rest base none)
          (module_file-Known base (some "Low")))

  super-Known : (x : Text × Text × Text) → Known known_paths (resolve_super x known_paths)
  unfolding resolve_super
  super-Known (rest, strict, legacy) =
      if-Known (text_eq rest super_word)
        (first_resolved [] (parent_dir strict ∷ parent_dir legacy ∷ []) known_paths)
        (first_resolved rest (strict ∷ legacy ∷ []) known_paths)
        (first_resolved-Known [] (parent_dir strict ∷ parent_dir legacy ∷ []))
        (first_resolved-Known rest (strict ∷ legacy ∷ []))

  local-Known : (text path : Text) → Known known_paths (resolve_local text path known_paths)
  unfolding resolve_local
  local-Known text path =
      let strict = rust_module_dir path in
      let legacy = parent_dir path in
      let rest = after_colons text in
      let found = resolve_rust_from_base text strict known_paths (some "Low") in
      let up = supers (length rest) rest (parent_dir strict) (parent_dir legacy) in
      if-Known (leads self_word text) (first_resolved rest (strict ∷ legacy ∷ []) known_paths)
        (if leads super_word text then resolve_super up known_paths else or_external found)
        (first_resolved-Known rest (strict ∷ legacy ∷ []))
        (if-Known (leads super_word text) (resolve_super up known_paths) (or_external found)
          (super-Known up)
          (if-Known (is_resolved found.kind) found (no_path external)
            (from_base-Known text strict (some "Low")) (refl, refl)))

  -- Whatever the text of a Rust import and the importing file: the resolver names a file only where it
  -- resolves the import, that file is one of the known paths, and a confidence is given with it; an
  -- unresolved or external import has neither.
  pub resolve-Known :
      (reference path : Text) → Known known_paths (resolve reference path known_paths)
  unfolding resolve
  resolve-Known reference path =
      if-Known (text_eq (trim reference) crate_word)
        (crate_root (crate_src_dir path known_paths) known_paths) _
        (pick-Known (root_files (crate_src_dir path known_paths)))
        (by_prefix (strip_prefix (crate_word ++ colons) (trim reference)))
    where
      by_prefix :
          (o : Option Text)
          → Known known_paths (elim o [
            | some rest ↦ resolve_crate rest path known_paths
            | none ↦ resolve_local (trim reference) path known_paths
          ])
      by_prefix none = local-Known (trim reference) path
      by_prefix (some rest) = crate-Known rest path
