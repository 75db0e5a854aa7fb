-- ===== src/Span/Starts.antt =====
-- The line starts before an offset, and the column that they give.
use slugaudit.Base.{
  ℕ, zero, suc, ◌+◌, ◌-◌, ◌≤◌, ◌≡◌, refl, ap, inl, inr, true, List, [], ◌∷◌, ◌++◌, arith, leb, ◌==◌,
  if◌then◌else◌, length, length-append, take, Bool-cases, leb→le,
}
use mathlib.Core.List.{append-nil, append_assoc}
use slugaudit.SourceLimits.{newline}
use slugaudit.Span.Blocks.{take_nil}
use slugaudit.Span.{count_chars, starts_char, line_starts, partition_point, last_or}

-- The line and the column after reading bytes from a line and a column: a newline starts a line, and a
-- byte that starts a character is one column.
abbrev pub walk : ℕ → ℕ → List ℕ → ℕ × ℕ
walk line column [] = (line, column)
walk line column (b ∷ bytes) =
    if b == newline
    then walk (line + 1) 0 bytes
    else walk line (column + (if starts_char b then 1 else 0)) bytes

abbrev pub starts_before : ℕ → ℕ → List ℕ → List ℕ
starts_before offset index bytes = line_starts index (take (offset - index) bytes)

nothing_before :
    (offset index : ℕ) (bytes : List ℕ)
    → offset ≤ index
    → partition_point offset (line_starts index bytes) ≡ 0
unfolding partition_point line_starts
nothing_before offset index [] h = refl
nothing_before offset index (b ∷ bytes) h = ground (arith, nothing_before offset (index + 1) bytes)

none_before :
    (offset index : ℕ) (bytes : List ℕ) → offset ≤ index → starts_before offset index bytes ≡ []
unfolding line_starts
none_before offset index bytes h = let e : offset - index ≡ 0 = omega arith in rw e refl

-- The starts at or before the offset are those of the bytes before it.
pub take_starts :
    (offset index : ℕ) (bytes : List ℕ)
    → take (partition_point offset (line_starts index bytes)) (line_starts index bytes)
      ≡ starts_before offset index bytes
unfolding partition_point line_starts
take_starts offset index [] = rw (take_nil (offset - index)) refl
take_starts offset index (b ∷ bytes) = elim (Bool-cases (leb offset index)) [
  | inl e ↦
      rw
        (
          nothing_before offset index (b ∷ bytes) (leb→le offset index e),
          none_before offset index (b ∷ bytes) (leb→le offset index e),
        )
        refl
  | inr e ↦
      let n : offset - index ≡ suc (offset - (index + 1)) = ground arith in
      let i = take_starts offset (index + 1) bytes in
      rw n (elim (Bool-cases (b == newline)) [
        | inl c ↦
            rw c (
              let k : leb (index + 1) offset ≡ true = ground arith in rw k (ap (◌∷◌ (index + 1)) i))
        | inr c ↦ rw c i
      ])
]

-- The count of the starts at or before the offset is the line of the walk over the bytes before it.
pub partition_point-walk :
    (offset index line column : ℕ) (bytes : List ℕ)
    → partition_point offset (line_starts index bytes) + line
      ≡ (walk line column (take (offset - index) bytes)).0
unfolding partition_point line_starts
partition_point-walk offset index line column [] = rw (take_nil (offset - index)) (omega arith)
partition_point-walk offset index line column (b ∷ bytes) = elim (Bool-cases (leb offset index)) [
  | inl e ↦
      let z : offset - index ≡ 0 = ground arith in
      rw (nothing_before offset index (b ∷ bytes) (leb→le offset index e), z) (omega arith)
  | inr e ↦
      let n : offset - index ≡ suc (offset - (index + 1)) = ground arith in
      let k : leb (index + 1) offset ≡ true = ground arith in
      rw n (elim (Bool-cases (b == newline)) [
        | inl c ↦
            rw (c, k) (omega (arith, partition_point-walk offset (index + 1) (line + 1) 0 bytes))
        | inr c ↦ rw c (partition_point-walk offset (index + 1) line _ bytes)
      ])
]

-- A start is no further than the end of the bytes.
pub last_or_le :
    (other index : ℕ) (bytes : List ℕ)
    → other ≤ index
    → last_or other (line_starts index bytes) ≤ index + length bytes
unfolding last_or line_starts
last_or_le other index [] h = omega arith
last_or_le other index (b ∷ bytes) h = elim (Bool-cases (b == newline)) [
  | inl c ↦ rw c (omega (arith, last_or_le (index + 1) (index + 1) bytes (omega arith)))
  | inr c ↦ rw c (omega (arith, last_or_le other (index + 1) bytes (omega arith)))
]

count-snoc :
    (xs : List ℕ) (b : ℕ)
    → count_chars (xs ++ b ∷ []) ≡ count_chars xs + (if starts_char b then 1 else 0)
unfolding count_chars
count-snoc [] b = omega arith
count-snoc (x ∷ xs) b = omega (arith, count-snoc xs b)

take_front : (n : ℕ) (xs ys : List ℕ) → n ≤ length xs → take n (xs ++ ys) ≡ take n xs
take_front zero xs ys h = refl
take_front (suc n) [] ys h = absurd (omega arith)
take_front (suc n) (x ∷ xs) ys h = ap (◌∷◌ x) (take_front n xs ys (omega arith))

take_whole : (xs : List ℕ) → take (length xs) xs ≡ xs
take_whole [] = refl
take_whole (x ∷ xs) = ap (◌∷◌ x) (take_whole xs)

-- The characters before the last line start and the column of the walk make up all characters.
pub count-walk :
    (front bytes : List ℕ) (start line column : ℕ)
    → start ≤ length front
    → count_chars (take start front) + column ≡ count_chars front
    → count_chars (take (last_or start (line_starts (length front) bytes)) (front ++ bytes))
        + (walk line column bytes).1
      ≡ count_chars (front ++ bytes)
unfolding last_or line_starts
count-walk front [] start line column h k = rw append-nil k
count-walk front (b ∷ bytes) start line column h k =
    let l : length (front ++ b ∷ []) ≡ length front + 1 =
      omega (arith, length-append front (b ∷ [])) in
    elim (Bool-cases (b == newline)) [
      | inl c ↦
          let i = count-walk (front ++ b ∷ []) bytes (length front + 1) (line + 1) 0 (omega arith) (
            let w = take_whole (front ++ b ∷ []) in
            let w' : take (length front + 1) (front ++ b ∷ []) ≡ front ++ b ∷ [] = rw l at w in
            rw w' (omega arith)) in
          rw c (cc (i, l, append_assoc front (b ∷ []) bytes))
      | inr c ↦
          let i =
            count-walk (front ++ b ∷ []) bytes start line
              (column + (if starts_char b then 1 else 0)) (omega arith)
              (rw (take_front start front (b ∷ []) h) (omega (arith, count-snoc front b, k))) in
          rw c (cc (i, l, append_assoc front (b ∷ []) bytes))
    ]
