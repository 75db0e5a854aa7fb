-- ===== src/Span.antt =====
-- src/model/span.rs: lines, columns and spans. A source is its bytes; columns count characters.
pub mod Blocks
pub mod Starts
pub mod Positions
use slugaudit.Base.{
  ℕ, zero, suc, ◌+◌, ◌-◌, ◌*◌, ◌/◌, ◌%◌, ◌^◌, ◌≤◌, ◌<◌, min, max, ◌≡◌, refl, sym, ap, subst, ◌∙◌,
  fun_ext, ◌≢◌, ◌↔◌, ◌⊎◌, inl, inr, Bool, true, false, not, ◌&&◌, ◌||◌, Option, none, some, List,
  [], ◌∷◌, ◌++◌, map, String, arith, ltb, leb, ◌==◌, ==_iff, if◌then◌else◌, ℤ, pos, negsuc,
  pos_part, neg_part, leb_ℤ, ◌≤ℤ◌, sub_ℕ, length, length-append, get_elem?, take, drop, filter, any,
  all, add64, sub64, u64_mod, i64_max, saturating_add, Result, ok, err, ok_or, ◌>>=◌, Result-cases,
  is_utf8, saturating_mul, All, All-append, All-mono, All-left, All-right, All-of, All-both,
  Bool-cases, Option-cases, u64_max, leb→le, le→leb, leb-false, str_eq, eq_iff,
}
use slugaudit.SourceLimits.{newline}

abbrev pub u32_max : ℕ
u32_max = 2 ^ 32 - 1

pub record Position : Type 0 where
  pub line : ℕ
  pub column : ℕ

pub data PositionOverflow : Type 0 where
  position_overflow : ℕ → PositionOverflow

unfoldable pub position_u32 : ℕ → Result PositionOverflow ℕ
position_u32 value = if leb value u32_max then ok value else err (position_overflow value)

abbrev pub block_bytes : ℕ
block_bytes = 256

pub record LineIndex : Type 0 where
  pub source : List ℕ
  pub later_line_starts : List ℕ
  pub block_chars : List ℕ

-- `(byte & 0xC0) != 0x80` of a byte.
abbrev pub starts_char : ℕ → Bool
starts_char byte = not (byte / 64 == 2)

unfoldable pub count_chars : List ℕ → ℕ
count_chars [] = 0
count_chars (b ∷ bytes) = (if starts_char b then 1 else 0) + count_chars bytes

-- The offsets behind the newlines of bytes that start at `index`.
unfoldable pub line_starts : ℕ → List ℕ → List ℕ
line_starts index [] = []
line_starts index (b ∷ bytes) =
    let rest = line_starts (index + 1) bytes in if b == newline then (index + 1) ∷ rest else rest

-- The running totals after each chunk of `block_bytes`; a byte of fuel for each byte is enough.
unfoldable pub totals : ℕ → ℕ → List ℕ → List ℕ
unfolding count_chars
totals zero total bytes = []
totals (suc fuel) total [] = []
totals (suc fuel) total (b ∷ bytes) =
    (total + count_chars (take block_bytes (b ∷ bytes)))
    ∷ totals fuel (total + count_chars (take block_bytes (b ∷ bytes)))
        (drop block_bytes (b ∷ bytes))

abbrev pub is_ascii : List ℕ → Bool
is_ascii bytes = all (λ b. ltb b 128) bytes

-- `LineIndex::new`.
unfoldable pub new_index : List ℕ → LineIndex
unfolding line_starts totals
new_index source = record {
  source = source;
  later_line_starts = line_starts 0 source;
  block_chars = if is_ascii source then [] else 0 ∷ totals (length source) 0 source;
}

abbrev pub boundary_at : Option ℕ → Bool
boundary_at none = false
boundary_at (some b) = starts_char b

-- `str::is_char_boundary`.
abbrev pub is_char_boundary : List ℕ → ℕ → Bool
is_char_boundary source i = i == 0 || i == length source || boundary_at (get_elem? source i)

-- The loop of `floor_to_boundary`.
unfoldable pub floor_from : List ℕ → ℕ → ℕ
floor_from source zero = 0
floor_from source (suc n) =
    let lower = floor_from source n in if is_char_boundary source (suc n) then suc n else lower

unfoldable pub floor_to_boundary : LineIndex → ℕ → ℕ
unfolding floor_from
floor_to_boundary i byte_offset = floor_from i.source (min byte_offset (length i.source))

-- `partition_point(|start| *start <= offset)` of ascending starts.
unfoldable pub partition_point : ℕ → List ℕ → ℕ
partition_point offset [] = 0
partition_point offset (start ∷ starts) =
    let rest = partition_point offset starts in if leb start offset then suc rest else 0

unfoldable pub line_index : LineIndex → ℕ → ℕ
unfolding partition_point
line_index i offset = partition_point offset i.later_line_starts

-- `next_back`, or the given value.
unfoldable pub last_or : ℕ → List ℕ → ℕ
last_or other [] = other
last_or other (x ∷ xs) = last_or x xs

unfoldable pub line_start : LineIndex → ℕ → ℕ
unfolding last_or
line_start i line = last_or 0 (take line i.later_line_starts)

abbrev pub in_block : List ℕ → ℕ → ℕ → Option ℕ → ℕ
in_block bytes offset tail_start (some before) =
    before + count_chars (take (offset - tail_start) (drop tail_start bytes))
in_block bytes offset tail_start none = count_chars (take offset bytes)

abbrev pub chars_in : List ℕ → ℕ → List ℕ → ℕ
chars_in bytes offset [] = offset
chars_in bytes offset (total ∷ totals) =
    in_block bytes offset (offset / block_bytes * block_bytes)
      (get_elem? (total ∷ totals) (offset / block_bytes))

unfoldable pub chars_before : LineIndex → ℕ → ℕ
unfolding count_chars
chars_before i offset = chars_in i.source offset i.block_chars

unfoldable pub position : LineIndex → ℕ → Result PositionOverflow Position
unfolding floor_to_boundary line_index line_start chars_before position_u32
position i byte_offset = do
  line ← position_u32 (line_index i (floor_to_boundary i byte_offset))
  column ← position_u32 (
      chars_before i (floor_to_boundary i byte_offset)
      - chars_before i (line_start i (line_index i (floor_to_boundary i byte_offset))))
  ok (record { line = line; column = column })

-- `LineIndex::column`.
unfoldable pub column : LineIndex → ℕ → Result PositionOverflow ℕ
unfolding position
column i byte_offset = position i byte_offset >>= λ p. ok p.column

pub record Span : Type 0 where
  pub start_byte : ℕ
  pub end_byte : ℕ
  pub start : Position
  pub end : Position

pub data SpanError : Type 0 where
  reversed_bytes reversed_position : SpanError

-- `a < b` of positions, as pairs of line and column.
abbrev pub before : Position → Position → Bool
before a b = ltb a.line b.line || (a.line == b.line && ltb a.column b.column)

-- `Span::new`.
unfoldable pub new_span : ℕ → ℕ → Position → Position → Result SpanError Span
new_span start_byte end_byte start end =
    if ltb end_byte start_byte
    then err reversed_bytes
    else if before end start
    then err reversed_position
    else ok (record { start_byte = start_byte; end_byte = end_byte; start = start; end = end })
