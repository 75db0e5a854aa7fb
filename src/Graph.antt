-- ===== src/Graph.antt =====
-- src/graph/resolve.rs, rust_paths.rs and the types of resolver/types.rs: what an import resolves to, and
-- the path arithmetic of the resolvers. A path is its characters; `Path::parent` and `file_stem` are those
-- of a project-relative path, whose segments are non-empty names. The set of known paths is a list.
pub mod Rust
pub mod Paths
pub mod Nearest
pub mod Sound
use slugaudit.Base.{
  ℕ, zero, suc, ◌+◌, ◌-◌, ◌*◌, ◌/◌, ◌%◌, ◌^◌, ◌≤◌, ◌<◌, min, max, ◌≡◌, refl, sym, ap, subst, ◌∙◌,
  fun_ext, ◌≢◌, ◌↔◌, ◌⊎◌, inl, inr, Bool, true, false, not, ◌&&◌, ◌||◌, Option, none, some, List,
  [], ◌∷◌, ◌++◌, map, String, arith, ltb, leb, ◌==◌, ==_iff, if◌then◌else◌, ℤ, pos, negsuc,
  pos_part, neg_part, leb_ℤ, ◌≤ℤ◌, sub_ℕ, length, length-append, get_elem?, take, drop, filter, any,
  all, add64, sub64, u64_mod, i64_max, saturating_add, Result, ok, err, ok_or, ◌>>=◌, Result-cases,
  bind_ok, is_utf8, saturating_mul, All, All-append, All-mono, All-left, All-right, All-of,
  All-both, Bool-cases, Option-cases, u64_max, Text, text_eq, text_eq_sound, text_eq_refl, apart,
  text_in, strip_prefix, strip_prefix_sound, split_from, split, join, Without, split-append,
  split-alone, join-split, leb→le, le→leb, leb-false, str_eq, eq_iff,
}

-- `char::is_whitespace`.
abbrev pub is_whitespace : ℕ → Bool
is_whitespace c =
    (leb 0x9 c && leb c 0xD)
    || c == 0x20
    || c == 0x85
    || c == 0xA0
    || c == 0x1680
    || (leb 0x2000 c && leb c 0x200A)
    || c == 0x2028
    || c == 0x2029
    || c == 0x202F
    || c == 0x205F
    || c == 0x3000

unfoldable pub trim_start : Text → Text
trim_start [] = []
trim_start (c ∷ cs) = let rest = trim_start cs in if is_whitespace c then rest else c ∷ cs

-- Drops the characters at the end that pass the test.
unfoldable pub trim_end_by : (ℕ → Bool) → Text → Text
trim_end_by p [] = []
trim_end_by p (c ∷ cs) = elim (trim_end_by p cs) [
  | [] ↦ if p c then [] else c ∷ []
  | ◌∷◌ d ds ↦ c ∷ d ∷ ds
]

abbrev pub trim : Text → Text
trim t = trim_end_by is_whitespace (trim_start t)

abbrev pub no_text : Text → Bool
no_text [] = true
no_text (c ∷ cs) = false

-- `strip_suffix('*')`, or the text itself.
unfoldable pub without_star : Text → Text
without_star [] = []
without_star (c ∷ []) = if c == b'*' then [] else c ∷ []
without_star (c ∷ d ∷ cs) = c ∷ without_star (d ∷ cs)

-- The parts between the separators `::`.
unfoldable pub split_colons : Text → Text → List Text
split_colons part [] = part ∷ []
split_colons part (c ∷ []) = (part ++ c ∷ []) ∷ []
split_colons part (c ∷ d ∷ cs) =
    let cut = part ∷ split_colons [] cs in
    let inside = split_colons (part ++ c ∷ []) (d ∷ cs) in
    if c == b':' && d == b':' then cut else inside

-- The text after the first `::`: `split_once("::")`, or nothing.
unfoldable pub after_colons : Text → Text
after_colons [] = []
after_colons (c ∷ []) = []
after_colons (c ∷ d ∷ cs) =
    let rest = after_colons (d ∷ cs) in if c == b':' && d == b':' then cs else rest

pub data ResolutionKind : Type 0 where
  resolved unresolved external : ResolutionKind

unfoldable pub as_sql_text : ResolutionKind → String
as_sql_text resolved = "Resolved"
as_sql_text unresolved = "Unresolved"
as_sql_text external = "External"

pub record Resolution : Type 0 where
  pub kind : ResolutionKind
  pub confidence : Option String
  pub to_relative_path : Option Text

abbrev pub no_path : ResolutionKind → Resolution
no_path kind = record { kind = kind; confidence = none; to_relative_path = none }

abbrev pub is_resolved : ResolutionKind → Bool
is_resolved resolved = true
is_resolved _ = false

abbrev pub resolved_to : String → Text → Resolution
resolved_to confidence path = record {
  kind = resolved;
  confidence = some confidence;
  to_relative_path = some path;
}

abbrev pub of_matches : List Text → Resolution
of_matches [] = no_path unresolved
of_matches (only ∷ []) = resolved_to "High" only
of_matches (first ∷ other ∷ more) = resolved_to "Low" first

unfoldable pub pick : List Text → List Text → Resolution
unfolding text_eq
pick candidates known_paths = of_matches (filter (λ c. text_in c known_paths) candidates)

-- `segments.pop()?`.
unfoldable pub pop : List Text → Option (List Text)
pop [] = none
pop (s ∷ []) = some []
pop (s ∷ t ∷ segments) = elim (pop (t ∷ segments)) [ none ↦ none | some rest ↦ some (s ∷ rest) ]

abbrev pub dot : Text
dot = b'.' ∷ []

abbrev pub dot_dot : Text
dot_dot = b'.' ∷ b'.' ∷ []

unfoldable pub push_parts : List Text → List Text → Option (List Text)
unfolding text_eq pop
push_parts segments [] = some segments
push_parts segments (part ∷ parts) =
    let same = push_parts segments parts in
    let up : Option (List Text) = elim (pop segments) [
      | none ↦ none
      | some rest ↦ push_parts rest parts
    ] in
    let down = push_parts (segments ++ part ∷ []) parts in
    if no_text part || text_eq part dot then same else if text_eq part dot_dot then up else down

abbrev pub base_segments : Text → List Text
base_segments base_dir = if no_text base_dir then [] else split b'/' base_dir

unfoldable pub normalize_join : Text → Text → Option Text
unfolding push_parts split join
normalize_join base_dir relative =
    elim (push_parts (base_segments base_dir) (split b'/' relative)) [
      | none ↦ none
      | some segments ↦ some (join b'/' segments)
    ]

-- The text before the last `/`, or nothing.
unfoldable pub parent_dir : Text → Text
parent_dir [] = []
parent_dir (c ∷ cs) = let rest = parent_dir cs in if any (λ d. d == b'/') cs then c ∷ rest else []

abbrev pub dot_rs : Text
dot_rs = b'.' ∷ b'r' ∷ b's' ∷ []

-- `{dir}/{name}.rs`.
abbrev pub in_dir : Text → Text → Text
in_dir dir name = dir ++ b'/' ∷ (name ++ dot_rs)

abbrev pub mod_stem : Text
mod_stem = b'm' ∷ b'o' ∷ b'd' ∷ []

abbrev pub lib_stem : Text
lib_stem = b'l' ∷ b'i' ∷ b'b' ∷ []

abbrev pub main_stem : Text
main_stem = b'm' ∷ b'a' ∷ b'i' ∷ b'n' ∷ []

unfoldable pub strip_trailing_glob : Text → Text
unfolding trim_start trim_end_by without_star
strip_trailing_glob rest = trim_end_by (λ c. c == b':') (without_star (trim rest))

-- The confidence that the caller forces on a resolution.
abbrev pub forced : Option String → Resolution → Resolution
forced none r = r
forced (some confidence) r =
    if is_resolved r.kind then record r { confidence = some confidence } else r

abbrev pub module_files : Text → List Text
module_files dir =
    (dir ++ dot_rs) ∷ in_dir dir mod_stem ∷ in_dir dir lib_stem ∷ in_dir dir main_stem ∷ []

abbrev pub path_files : Text → List Text
path_files joined = (joined ++ dot_rs) ∷ in_dir joined mod_stem ∷ []

unfoldable pub resolve_rust_module_file : Text → List Text → Option String → Resolution
unfolding pick
resolve_rust_module_file dir known_paths forced_confidence =
    if no_text dir
    then no_path unresolved
    else forced forced_confidence (pick (module_files dir) known_paths)

-- The candidates of the first `take` segments.
abbrev pub segment_files : Option Text → List Text → Resolution
segment_files none known_paths = no_path unresolved
segment_files (some joined) known_paths = pick (path_files joined) known_paths

-- The loop from the longest chain of segments to the shortest.
unfoldable pub shorten : ℕ → List Text → Text → List Text → Option String → Resolution
unfolding normalize_join pick join
shorten zero parts base_dir known_paths forced_confidence = no_path unresolved
shorten (suc n) parts base_dir known_paths forced_confidence =
    let rest = shorten n parts base_dir known_paths forced_confidence in
    let found =
      segment_files (normalize_join base_dir (join b'/' (take (suc n) parts))) known_paths in
    if is_resolved found.kind then forced forced_confidence found else rest

unfoldable pub resolve_rust_path : Text → Text → List Text → Option String → Resolution
unfolding shorten split_colons
resolve_rust_path segments base_dir known_paths forced_confidence =
    let parts = filter (λ p. not (no_text p)) (split_colons [] segments) in
    shorten (length parts) parts base_dir known_paths forced_confidence

unfoldable pub resolve_rust_from_base : Text → Text → List Text → Option String → Resolution
unfolding strip_trailing_glob resolve_rust_module_file resolve_rust_path
resolve_rust_from_base rest base_dir known_paths forced_confidence =
    let segments = strip_trailing_glob rest in
    if no_text segments
    then resolve_rust_module_file base_dir known_paths forced_confidence
    else resolve_rust_path segments base_dir known_paths forced_confidence

-- The first of the resolutions that resolved.
unfoldable pub first_of : List Resolution → Resolution
first_of [] = no_path unresolved
first_of (r ∷ rs) = let rest = first_of rs in if is_resolved r.kind then r else rest

unfoldable pub first_resolved : Text → List Text → List Text → Resolution
unfolding first_of resolve_rust_from_base resolve_rust_module_file
first_resolved rest bases known_paths = first_of (
    map (λ b. resolve_rust_from_base rest b known_paths (some "Low")) bases
    ++ map (λ b. resolve_rust_module_file b known_paths (some "Low")) bases)
