-- ===== src/Graph/Rust.antt =====
-- src/graph/resolve_rust.rs: the imports of Rust.
use slugaudit.Base.{
  ℕ, zero, suc, Bool, true, ◌&&◌, ◌||◌, Option, none, some, List, [], ◌∷◌, ◌++◌, ◌==◌,
  if◌then◌else◌, length, any, Text, text_eq, text_in, strip_prefix,
}
use slugaudit.Graph.{
  trim_start, trim_end_by, trim, no_text, after_colons, Resolution, external, no_path, is_resolved,
  pick, parent_dir, in_dir, mod_stem, lib_stem, main_stem, strip_trailing_glob,
  resolve_rust_module_file, resolve_rust_from_base, first_resolved,
}

abbrev pub crate_word : Text
crate_word = b'c' ∷ b'r' ∷ b'a' ∷ b't' ∷ b'e' ∷ []

abbrev pub self_word : Text
self_word = b's' ∷ b'e' ∷ b'l' ∷ b'f' ∷ []

abbrev pub super_word : Text
super_word = b's' ∷ b'u' ∷ b'p' ∷ b'e' ∷ b'r' ∷ []

abbrev pub src : Text
src = b's' ∷ b'r' ∷ b'c' ∷ []

abbrev pub cargo_toml : Text
cargo_toml = b'C' ∷ b'a' ∷ b'r' ∷ b'g' ∷ b'o' ∷ b'.' ∷ b't' ∷ b'o' ∷ b'm' ∷ b'l' ∷ []

abbrev pub colons : Text
colons = b':' ∷ b':' ∷ []

abbrev pub pub_word : Text
pub_word = b'p' ∷ b'u' ∷ b'b' ∷ []

abbrev pub use_word : Text
use_word = b'u' ∷ b's' ∷ b'e' ∷ b' ' ∷ []

-- `split_once(')')`, what follows.
unfoldable pub after_paren : Text → Option Text
after_paren [] = none
after_paren (c ∷ cs) = let rest = after_paren cs in if c == b')' then some cs else rest

unfoldable pub strip_visibility : Text → Text
unfolding strip_prefix after_paren trim_start
strip_visibility text = elim (strip_prefix pub_word text) [
  | none ↦ text
  | some after_pub ↦ elim (strip_prefix (b' ' ∷ []) after_pub) [
    | some rest ↦ trim_start rest
    | none ↦ elim (strip_prefix (b'(' ∷ []) after_pub) [
      | none ↦ text
      | some inner ↦ elim (after_paren inner) [ none ↦ text | some rest ↦ trim_start rest ]
    ]
  ]
]

-- `rest[..end]`, with `end` the first `;`, `{` or space.
unfoldable pub path_before_end : Text → Text
path_before_end [] = []
path_before_end (c ∷ cs) =
    let rest = path_before_end cs in if c == b';' || c == b'{' || c == b' ' then [] else c ∷ rest

-- `trim_end_matches("::")`: the number of colons that are left decides the parity.
unfoldable pub trim_end_colons : Text → Text
trim_end_colons [] = []
trim_end_colons (c ∷ cs) = elim (trim_end_colons cs) [
  | [] ↦ c ∷ []
  | ◌∷◌ d ds ↦ if c == b':' && d == b':' && no_text ds then [] else c ∷ d ∷ ds
]

abbrev pub non_empty : Text → Option Text
non_empty [] = none
non_empty (c ∷ cs) = some (c ∷ cs)

-- `RustResolver::extract_reference`.
unfoldable pub extract_reference : Text → Option Text
unfolding strip_visibility strip_prefix path_before_end trim_end_colons trim_start trim_end_by
extract_reference raw = elim (strip_prefix use_word (strip_visibility (trim raw))) [
  | none ↦ none
  | some rest ↦ non_empty (trim_end_colons (path_before_end rest))
]

-- The file name: the text after the last `/`.
unfoldable pub file_name : Text → Text
file_name [] = []
file_name (c ∷ cs) =
    let rest = file_name cs in
    if any (λ d. d == b'/') cs then rest else if c == b'/' then cs else c ∷ cs

-- The text before the last dot, or all of it where it has none.
unfoldable pub before_dot : Text → Text
before_dot [] = []
before_dot (c ∷ cs) =
    let rest = before_dot cs in
    if any (λ d. d == b'.') cs then c ∷ rest else if c == b'.' then [] else c ∷ cs

-- A name whose only dot leads it is its own stem.
abbrev pub stem_of : Text → Text
stem_of [] = []
stem_of (c ∷ cs) = if any (λ d. d == b'.') cs then c ∷ before_dot cs else c ∷ cs

unfoldable pub file_stem : Text → Text
unfolding file_name before_dot
file_stem path = stem_of (file_name path)

unfoldable pub rust_module_dir : Text → Text
unfolding parent_dir file_stem text_eq
rust_module_dir path =
    let parent = parent_dir path in
    let stem = file_stem path in
    if text_in stem (mod_stem ∷ lib_stem ∷ main_stem ∷ [])
    then parent
    else if no_text parent
    then stem
    else parent ++ b'/' ∷ stem

abbrev pub inside : Text → Text → Text
inside dir name = if no_text dir then name else dir ++ b'/' ∷ name

-- The loop of `crate_src_dir`, upwards from `dir`.
unfoldable pub crate_src_from : ℕ → Text → List Text → Text
unfolding parent_dir text_eq
crate_src_from zero dir known_paths = src
crate_src_from (suc fuel) dir known_paths =
    let above = crate_src_from fuel (parent_dir dir) known_paths in
    if text_in (inside dir cargo_toml) known_paths
    then inside dir src
    else if no_text dir
    then src
    else above

unfoldable pub crate_src_dir : Text → List Text → Text
unfolding crate_src_from parent_dir
crate_src_dir path known_paths =
    crate_src_from (suc (length (parent_dir path))) (parent_dir path) known_paths

abbrev pub root_files : Text → List Text
root_files base = in_dir base lib_stem ∷ in_dir base main_stem ∷ []

abbrev pub crate_root : Text → List Text → Resolution
crate_root base known_paths = pick (root_files base) known_paths

-- `use crate::<rest>`.
unfoldable pub resolve_crate : Text → Text → List Text → Resolution
unfolding crate_src_dir strip_trailing_glob pick resolve_rust_from_base resolve_rust_module_file
resolve_crate rest path known_paths =
    let base = crate_src_dir path known_paths in
    let found = resolve_rust_from_base rest base known_paths none in
    if no_text (strip_trailing_glob rest)
    then crate_root base known_paths
    else if is_resolved found.kind
    then found
    else resolve_rust_module_file base known_paths (some "Low")

-- The loop over leading `super::`: the rest, and the two directories.
unfoldable pub supers : ℕ → Text → Text → Text → Text × Text × Text
unfolding strip_prefix parent_dir
supers zero rest strict legacy = (rest, strict, legacy)
supers (suc fuel) rest strict legacy = elim (strip_prefix (super_word ++ colons) rest) [
  | none ↦ (rest, strict, legacy)
  | some next ↦ supers fuel next (parent_dir strict) (parent_dir legacy)
]

-- After the loop, a last `super` alone.
unfoldable pub resolve_super : Text × Text × Text → List Text → Resolution
unfolding first_resolved parent_dir text_eq
resolve_super (rest, strict, legacy) known_paths =
    if text_eq rest super_word
    then first_resolved [] (parent_dir strict ∷ parent_dir legacy ∷ []) known_paths
    else first_resolved rest (strict ∷ legacy ∷ []) known_paths

-- The text is the word, or starts with it and `::`.
abbrev pub leads : Text → Text → Bool
leads word text = elim (strip_prefix (word ++ colons) text) [
  | some rest ↦ true
  | none ↦ text_eq text word
]

abbrev pub or_external : Resolution → Resolution
or_external r = if is_resolved r.kind then r else no_path external

unfoldable pub resolve_local : Text → Text → List Text → Resolution
unfolding strip_prefix text_eq rust_module_dir first_resolved resolve_super supers after_colons
    resolve_rust_from_base parent_dir
resolve_local text path known_paths =
    let rest = after_colons text in
    let strict = rust_module_dir path in
    let legacy = parent_dir path in
    if leads self_word text
    then first_resolved rest (strict ∷ legacy ∷ []) known_paths
    else if leads super_word text
    then resolve_super (supers (length rest) rest (parent_dir strict) (parent_dir legacy))
        known_paths
    else or_external (resolve_rust_from_base text strict known_paths (some "Low"))

-- `resolve`.
unfoldable pub resolve : Text → Text → List Text → Resolution
unfolding trim_start trim_end_by text_eq strip_prefix crate_src_dir pick resolve_crate resolve_local
resolve reference path known_paths =
    let text = trim reference in
    if text_eq text crate_word
    then crate_root (crate_src_dir path known_paths) known_paths
    else elim (strip_prefix (crate_word ++ colons) text) [
      | some rest ↦ resolve_crate rest path known_paths
      | none ↦ resolve_local text path known_paths
    ]
