-- ===== src/SourceLimits.antt =====
-- src/bin/check_source_limits/scanner.rs and counter.rs: the gate that counts the code lines of a Rust
-- file. A source is its bytes. A `&str` is cut only at an ASCII byte, so a cut never fails.
pub mod Scan
pub mod Steps
pub mod Lines
pub mod Verdicts
use mathlib.Core.Option
use slugaudit.Base.{
  ℕ, zero, suc, ◌+◌, ◌-◌, ◌*◌, ◌/◌, ◌%◌, ◌^◌, ◌≤◌, ◌<◌, min, max, ◌≡◌, refl, sym, ap, subst, ◌∙◌,
  fun_ext, ◌≢◌, ◌↔◌, ◌⊎◌, inl, inr, Bool, true, false, not, ◌&&◌, ◌||◌, Option, none, some, List,
  [], ◌∷◌, ◌++◌, map, String, arith, ltb, leb, ◌==◌, ==_iff, if◌then◌else◌, ℤ, pos, negsuc,
  pos_part, neg_part, leb_ℤ, ◌≤ℤ◌, sub_ℕ, length, length-append, get_elem?, take, drop, filter, any,
  all, add64, sub64, u64_mod, i64_max, saturating_add, Result, ok, err, ok_or, ◌>>=◌, Result-cases,
  is_utf8, saturating_mul, All, All-append, All-mono, All-left, All-right, All-of, All-both,
  Bool-cases, Option-cases, u64_max, leb→le, le→leb, leb-false, str_eq, eq_iff,
}

pub data State : Type 0 where
  normal line_comment block_comment string char raw_string : State

pub record ScanCursor : Type 0 where
  pub index : ℕ
  pub state : State
  pub has_code : Bool
  pub count : ℕ
  pub block_depth : ℕ
  pub raw_hashes : ℕ

abbrev pub start : ScanCursor
start = record {
  index = 0;
  state = normal;
  has_code = false;
  count = 0;
  block_depth = 0;
  raw_hashes = 0;
}

abbrev pub newline : ℕ
newline = 10

abbrev pub backslash : ℕ
backslash = 92

abbrev pub quote : ℕ
quote = 39

abbrev pub double_quote : ℕ
double_quote = 34

abbrev pub hash : ℕ
hash = 35

abbrev pub same_byte : Option ℕ → ℕ → Bool
same_byte none b = false
same_byte (some a) b = a == b

unfoldable pub finish_line : ScanCursor → ScanCursor
finish_line c = if c.has_code then record c { count = c.count + 1; has_code = false } else c

-- `self.index += width`.
abbrev pub skip : ℕ → ScanCursor → ScanCursor
skip width c = record c { index = c.index + width }

unfoldable pub advance_byte : ℕ → ScanCursor → ScanCursor
unfolding finish_line
advance_byte byte c = if byte == newline then skip 1 (finish_line c) else skip 1 c

unfoldable pub at_pair : List ℕ → ScanCursor → ℕ → ℕ → Bool
at_pair bytes c a b =
    same_byte (get_elem? bytes c.index) a && same_byte (get_elem? bytes (c.index + 1)) b

abbrev pub enter : State → ℕ → ScanCursor → ScanCursor
enter state width c = record c { state = state; index = c.index + width }

abbrev pub with_code : ScanCursor → ScanCursor
with_code c = record c { has_code = true }

unfoldable pub step_line_comment : ℕ → ScanCursor → ScanCursor
unfolding finish_line
step_line_comment byte c =
    if byte == newline then skip 1 (record (finish_line c) { state = normal }) else skip 1 c

-- `self.block_depth -= 1` on a depth that is at least 1 inside a block comment.
unfoldable pub step_block_comment : List ℕ → ℕ → ScanCursor → ScanCursor
unfolding at_pair advance_byte
step_block_comment bytes byte c =
    if at_pair bytes c b'/' b'*'
    then skip 2 (record c { block_depth = c.block_depth + 1 })
    else if at_pair bytes c b'*' b'/'
    then (if sub64 c.block_depth 1 == 0
        then skip 2 (record c { block_depth = sub64 c.block_depth 1; state = normal })
        else skip 2 (record c { block_depth = sub64 c.block_depth 1 }))
    else advance_byte byte c

abbrev pub step_escaped : Option ℕ → ScanCursor → ScanCursor → ScanCursor
step_escaped (some escaped) c other = advance_byte escaped (skip 1 c)
step_escaped none c other = other

unfoldable pub step_quoted : List ℕ → ℕ → ℕ → ScanCursor → ScanCursor
unfolding advance_byte
step_quoted bytes byte close c =
    let c' = with_code c in
    let plain = if byte == close then enter normal 1 c' else advance_byte byte c' in
    if byte == backslash then step_escaped (get_elem? bytes (c.index + 1)) c' plain else plain

-- Whether `n` hashes stand from index `i` on.
pub hash_run : List ℕ → ℕ → ℕ → Bool
hash_run bytes i zero = true
hash_run bytes i (suc n) = same_byte (get_elem? bytes i) hash && hash_run bytes (i + 1) n

unfoldable pub step_raw_string : List ℕ → ℕ → ScanCursor → ScanCursor
unfolding advance_byte hash_run
step_raw_string bytes byte c =
    if byte == double_quote && hash_run bytes (c.index + 1) c.raw_hashes
    then enter normal (c.raw_hashes + 1) (with_code c)
    else advance_byte byte (with_code c)

-- `is_char_literal_start` of the bytes from the cursor on.
pub is_char_literal_start : List ℕ → Bool
is_char_literal_start (a ∷ b ∷ c ∷ d ∷ rest) =
    (a == quote && b == backslash && d == quote)
    || (a == quote && not (b == quote || b == backslash || b == newline) && c == quote)
is_char_literal_start (a ∷ b ∷ c ∷ []) =
    a == quote && not (b == quote || b == backslash || b == newline) && c == quote
is_char_literal_start _ = false

-- The number of hashes at the head, and whether a double quote follows them.
pub count_hashes : List ℕ → ℕ → Option ℕ
count_hashes [] n = none
count_hashes (b ∷ rest) n =
    let deeper = count_hashes rest (n + 1) in
    if b == hash then deeper else if b == double_quote then some n else none

pub is_raw_string_start : List ℕ → Option ℕ
unfolding count_hashes
is_raw_string_start [] = none
is_raw_string_start (first ∷ rest) = if first == b'r' then count_hashes rest 0 else none

abbrev pub is_ascii_whitespace : ℕ → Bool
is_ascii_whitespace b = b == 32 || b == 9 || b == 10 || b == 12 || b == 13

abbrev pub step_raw_start : Option ℕ → ScanCursor → ScanCursor → ScanCursor
step_raw_start (some hashes) c other =
    enter raw_string (hashes + 2) (record c { raw_hashes = hashes; has_code = true })
step_raw_start none c other = other

unfoldable pub step_normal : List ℕ → ℕ → ScanCursor → ScanCursor
unfolding at_pair advance_byte is_char_literal_start is_raw_string_start
step_normal bytes byte c =
    let plain = advance_byte byte (if is_ascii_whitespace byte then c else with_code c) in
    if at_pair bytes c b'/' b'/'
    then enter line_comment 2 c
    else if at_pair bytes c b'/' b'*'
    then enter block_comment 2 (record c { block_depth = 1 })
    else if byte == double_quote
    then enter string 1 (with_code c)
    else if byte == quote && is_char_literal_start (drop c.index bytes)
    then enter char 1 (with_code c)
    else if byte == b'r'
    then step_raw_start (is_raw_string_start (drop c.index bytes)) c plain
    else plain

unfoldable pub step_state : State → List ℕ → ℕ → ScanCursor → ScanCursor
step_state line_comment bytes byte c = step_line_comment byte c
step_state block_comment bytes byte c = step_block_comment bytes byte c
step_state string bytes byte c = step_quoted bytes byte double_quote c
step_state char bytes byte c = step_quoted bytes byte quote c
step_state raw_string bytes byte c = step_raw_string bytes byte c
step_state normal bytes byte c = step_normal bytes byte c

abbrev pub step_at : Option ℕ → List ℕ → ScanCursor → ScanCursor
step_at none bytes c = c
step_at (some byte) bytes c = step_state c.state bytes byte c

unfoldable pub scan_step : List ℕ → ScanCursor → ScanCursor
scan_step bytes c = step_at (get_elem? bytes c.index) bytes c

-- `while cursor.index < len`; `none` when the fuel ends before the source does.
unfoldable pub scan_loop : ℕ → List ℕ → ScanCursor → Option ScanCursor
scan_loop zero bytes c = if ltb c.index (length bytes) then none else some c
scan_loop (suc fuel) bytes c = elim (ltb c.index (length bytes)) [
  | false ↦ some c
  | true ↦ scan_loop fuel bytes (scan_step bytes c)
]

abbrev pub final_count : ScanCursor → ℕ
final_count c = if c.has_code then c.count + 1 else c.count

-- Each step consumes a byte, so the length of the source is fuel enough.
unfoldable pub code_lines : List ℕ → Option ℕ
code_lines bytes = Option.map final_count (scan_loop (length bytes) bytes start)

abbrev pub test_file_ceiling : ℕ
test_file_ceiling = 500

abbrev pub production_ceiling : ℕ
production_ceiling = 300

abbrev pub human_approved_ceiling : ℕ
human_approved_ceiling = 350

abbrev pub production_exception_floor : ℕ
production_exception_floor = 200

pub data Approver : Type 0 where
  agent human : Approver

-- A parsed exception annotation of approval.rs.
pub record Exception : Type 0 where
  pub reason : String
  pub approver : Approver

abbrev pub is_human : Approver → Bool
is_human human = true
is_human agent = false

abbrev pub allows_extended_ceiling : Exception → Bool
allows_extended_ceiling e = is_human e.approver

pub data Verdict : Type 0 where
  pass : Verdict
  pass_with_exception : String → Verdict
  fail_hard : ℕ → Verdict
  fail_needs_exception : Verdict

abbrev pub over_ceiling : Option Exception → ℕ → Verdict
over_ceiling none lines = fail_hard production_ceiling
over_ceiling (some e) lines =
    if leb lines human_approved_ceiling && allows_extended_ceiling e
    then pass_with_exception e.reason
    else fail_hard production_ceiling

abbrev pub above_floor : Option Exception → Verdict
above_floor (some e) = pass_with_exception e.reason
above_floor none = fail_needs_exception

unfoldable pub verdict : ℕ → Option Exception → Bool → Verdict
verdict lines exception test_file =
    if test_file
    then (if ltb test_file_ceiling lines then fail_hard test_file_ceiling else pass)
    else if ltb production_ceiling lines
    then over_ceiling exception lines
    else if leb production_exception_floor lines
    then above_floor exception
    else pass
