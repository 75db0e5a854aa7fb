-- ===== src/Classify.antt =====
-- src/sync/classify.rs: whether a file is authored, generated or vendored. A path is its characters.
pub mod Rules
pub mod Trees
use slugaudit.Base.{
  ℕ, zero, suc, ◌+◌, ◌-◌, ◌*◌, ◌/◌, ◌%◌, ◌^◌, ◌≤◌, ◌<◌, min, max, ◌≡◌, refl, sym, ap, subst, ◌∙◌,
  fun_ext, ◌≢◌, ◌↔◌, ◌⊎◌, inl, inr, Bool, true, false, not, ◌&&◌, ◌||◌, Option, none, some, List,
  [], ◌∷◌, ◌++◌, map, String, arith, ltb, leb, ◌==◌, ==_iff, if◌then◌else◌, ℤ, pos, negsuc,
  pos_part, neg_part, leb_ℤ, ◌≤ℤ◌, sub_ℕ, length, length-append, get_elem?, take, drop, filter, any,
  all, add64, sub64, u64_mod, i64_max, saturating_add, Result, ok, err, ok_or, ◌>>=◌, Result-cases,
  bind_ok, is_utf8, saturating_mul, All, All-append, All-mono, All-left, All-right, All-of,
  All-both, Bool-cases, Option-cases, u64_max, Text, text_eq, text_eq_sound, text_eq_refl, apart,
  text_in, strip_prefix, strip_prefix_sound, split_from, split, join, Without, split-append,
  split-alone, join-split, leb→le, le→leb, leb-false, str_eq, eq_iff,
}

pub data FileClass : Type 0 where
  authored generated vendored : FileClass

unfoldable pub as_sql_text : FileClass → String
as_sql_text authored = "authored"
as_sql_text generated = "generated"
as_sql_text vendored = "vendored"

abbrev pub vendored_segments : List Text
vendored_segments =
    (b'v' ∷ b'e' ∷ b'n' ∷ b'd' ∷ b'o' ∷ b'r' ∷ [])
    ∷ (b'v' ∷ b'e' ∷ b'n' ∷ b'd' ∷ b'o' ∷ b'r' ∷ b's' ∷ [])
    ∷ (b't' ∷ b'h' ∷ b'i' ∷ b'r' ∷ b'd' ∷ b'_' ∷ b'p' ∷ b'a' ∷ b'r' ∷ b't' ∷ b'y' ∷ [])
    ∷ (b't' ∷ b'h' ∷ b'i' ∷ b'r' ∷ b'd' ∷ b'-' ∷ b'p' ∷ b'a' ∷ b'r' ∷ b't' ∷ b'y' ∷ [])
    ∷ (b't' ∷ b'h' ∷ b'i' ∷ b'r' ∷ b'd' ∷ b'p' ∷ b'a' ∷ b'r' ∷ b't' ∷ b'y' ∷ [])
    ∷ (b'n' ∷ b'o' ∷ b'd' ∷ b'e' ∷ b'_' ∷ b'm' ∷ b'o' ∷ b'd' ∷ b'u' ∷ b'l' ∷ b'e' ∷ b's' ∷ [])
    ∷ (b'b' ∷ b'o' ∷ b'w' ∷ b'e' ∷ b'r' ∷ b'_' ∷ b'c' ∷ b'o' ∷ b'm' ∷ b'p' ∷ b'o' ∷ b'n' ∷ b'e'
        ∷ b'n' ∷ b't' ∷ b's' ∷ [])
    ∷ (b'j' ∷ b's' ∷ b'p' ∷ b'm' ∷ b'_' ∷ b'p' ∷ b'a' ∷ b'c' ∷ b'k' ∷ b'a' ∷ b'g' ∷ b'e' ∷ b's'
        ∷ [])
    ∷ (b's' ∷ b'i' ∷ b't' ∷ b'e' ∷ b'-' ∷ b'p' ∷ b'a' ∷ b'c' ∷ b'k' ∷ b'a' ∷ b'g' ∷ b'e' ∷ b's'
        ∷ [])
    ∷ (b'd' ∷ b'i' ∷ b's' ∷ b't' ∷ b'-' ∷ b'p' ∷ b'a' ∷ b'c' ∷ b'k' ∷ b'a' ∷ b'g' ∷ b'e' ∷ b's'
        ∷ [])
    ∷ (b'p' ∷ b'o' ∷ b'd' ∷ b's' ∷ [])
    ∷ (b'v' ∷ b'e' ∷ b'n' ∷ b'v' ∷ [])
    ∷ (b'.' ∷ b'v' ∷ b'e' ∷ b'n' ∷ b'v' ∷ [])
    ∷ (b'v' ∷ b'i' ∷ b'r' ∷ b't' ∷ b'u' ∷ b'a' ∷ b'l' ∷ b'e' ∷ b'n' ∷ b'v' ∷ [])
    ∷ []

abbrev pub generated_suffixes : List Text
generated_suffixes =
    (b'.' ∷ b'm' ∷ b'i' ∷ b'n' ∷ b'.' ∷ b'j' ∷ b's' ∷ [])
    ∷ (b'.' ∷ b'm' ∷ b'i' ∷ b'n' ∷ b'.' ∷ b'm' ∷ b'j' ∷ b's' ∷ [])
    ∷ (b'.' ∷ b'm' ∷ b'i' ∷ b'n' ∷ b'.' ∷ b'c' ∷ b's' ∷ b's' ∷ [])
    ∷ (b'.' ∷ b'p' ∷ b'b' ∷ b'.' ∷ b'g' ∷ b'o' ∷ [])
    ∷ (b'.' ∷ b'p' ∷ b'b' ∷ b'.' ∷ b'c' ∷ b'c' ∷ [])
    ∷ (b'.' ∷ b'p' ∷ b'b' ∷ b'.' ∷ b'c' ∷ b'p' ∷ b'p' ∷ [])
    ∷ (b'.' ∷ b'p' ∷ b'b' ∷ b'.' ∷ b'c' ∷ [])
    ∷ (b'.' ∷ b'p' ∷ b'b' ∷ b'.' ∷ b'h' ∷ [])
    ∷ (b'.' ∷ b'p' ∷ b'b' ∷ b'.' ∷ b'h' ∷ b'h' ∷ [])
    ∷ (b'.' ∷ b'p' ∷ b'b' ∷ b'.' ∷ b'j' ∷ b'a' ∷ b'v' ∷ b'a' ∷ [])
    ∷ (b'.' ∷ b'p' ∷ b'b' ∷ b'.' ∷ b's' ∷ b'w' ∷ b'i' ∷ b'f' ∷ b't' ∷ [])
    ∷ (b'_' ∷ b'p' ∷ b'b' ∷ b'2' ∷ b'.' ∷ b'p' ∷ b'y' ∷ [])
    ∷ (b'_' ∷ b'p' ∷ b'b' ∷ b'2' ∷ b'.' ∷ b'p' ∷ b'y' ∷ b'i' ∷ [])
    ∷ (b'_' ∷ b'p' ∷ b'b' ∷ b'2' ∷ b'_' ∷ b'g' ∷ b'r' ∷ b'p' ∷ b'c' ∷ b'.' ∷ b'p' ∷ b'y' ∷ [])
    ∷ (b'.' ∷ b'g' ∷ b'.' ∷ b'c' ∷ b's' ∷ [])
    ∷ (b'.' ∷ b'd' ∷ b'e' ∷ b's' ∷ b'i' ∷ b'g' ∷ b'n' ∷ b'e' ∷ b'r' ∷ b'.' ∷ b'c' ∷ b's' ∷ [])
    ∷ (b'.' ∷ b'g' ∷ b'.' ∷ b'd' ∷ b'a' ∷ b'r' ∷ b't' ∷ [])
    ∷ (b'.' ∷ b'f' ∷ b'r' ∷ b'e' ∷ b'e' ∷ b'z' ∷ b'e' ∷ b'd' ∷ b'.' ∷ b'd' ∷ b'a' ∷ b'r' ∷ b't'
        ∷ [])
    ∷ (b'.' ∷ b'g' ∷ b'e' ∷ b'n' ∷ b'.' ∷ b'g' ∷ b'o' ∷ [])
    ∷ (b'.' ∷ b'g' ∷ b'e' ∷ b'n' ∷ b'.' ∷ b't' ∷ b's' ∷ [])
    ∷ []

abbrev pub generated_word : Text
generated_word = b'g' ∷ b'e' ∷ b'n' ∷ b'e' ∷ b'r' ∷ b'a' ∷ b't' ∷ b'e' ∷ b'd' ∷ []

abbrev pub autogenerated_word : Text
autogenerated_word =
    b'a' ∷ b'u' ∷ b't' ∷ b'o' ∷ b'g' ∷ b'e' ∷ b'n' ∷ b'e' ∷ b'r' ∷ b'a' ∷ b't' ∷ b'e' ∷ b'd' ∷ []

-- `to_ascii_lowercase`.
abbrev pub lower : ℕ → ℕ
lower c = if leb b'A' c && leb c b'Z' then c + 32 else c

abbrev pub is_ascii_alphanumeric : ℕ → Bool
is_ascii_alphanumeric c =
    (leb b'0' c && leb c b'9') || (leb b'A' c && leb c b'Z') || (leb b'a' c && leb c b'z')

-- `split` at the characters that pass the test.
unfoldable pub split_by : (ℕ → Bool) → Text → Text → List Text
split_by p part [] = part ∷ []
split_by p part (c ∷ cs) =
    let ended = part ∷ split_by p [] cs in
    let inside = split_by p (part ++ c ∷ []) cs in if p c then ended else inside

unfoldable pub names_generated_code : Text → Bool
unfolding split_by text_eq
names_generated_code segment =
    any (λ token. text_eq token generated_word || text_eq token autogenerated_word)
      (split_by (λ c. not (is_ascii_alphanumeric c)) [] segment)

-- `str::ends_with`.
unfoldable pub ends_with : Text → Text → Bool
unfolding text_eq
ends_with suffix [] = text_eq [] suffix
ends_with suffix (c ∷ cs) = text_eq (c ∷ cs) suffix || ends_with suffix cs

abbrev pub is_separator : ℕ → Bool
is_separator c = c == b'/' || c == 92

-- The directories and the file name, which is the last segment.
abbrev pub dirs_of : List Text → List Text
dirs_of [] = []
dirs_of (s ∷ []) = []
dirs_of (s ∷ t ∷ segments) = s ∷ dirs_of (t ∷ segments)

abbrev pub last_of : List Text → Option Text
last_of [] = none
last_of (s ∷ []) = some s
last_of (s ∷ t ∷ segments) = last_of (t ∷ segments)

abbrev pub file_name_or_dirs_are_generated : List Text → Text → Bool
file_name_or_dirs_are_generated dirs file_name =
    names_generated_code file_name || any names_generated_code dirs

abbrev pub class_of : List Text → Option Text → FileClass
class_of dirs none = authored
class_of dirs (some file_name) =
    if any (λ s. text_in s vendored_segments) dirs
    then vendored
    else if file_name_or_dirs_are_generated dirs file_name
        || any (λ suffix. ends_with suffix file_name) generated_suffixes
    then generated
    else authored

unfoldable pub classify : Text → FileClass
unfolding split_by names_generated_code ends_with text_eq
classify relative_path =
    let segments = split_by is_separator [] (map lower relative_path) in
    class_of (dirs_of segments) (last_of segments)
