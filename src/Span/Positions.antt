-- ===== src/Span/Positions.antt =====
-- A position found by the tables is the position found by reading the source.
use slugaudit.Base.{
  ◌<◌, ltb, leb, ◌==◌, ==_iff, ◌||◌, drop, get_elem?, inl, inr, true, false, Bool, Bool-cases, sym,
  ℕ, zero, suc, ◌-◌, ◌≤◌, min, ◌≡◌, refl, ap, ◌∙◌, List, [], ◌∷◌, arith, length, take, ok, ◌>>=◌,
}
use slugaudit.Span.{
  boundary_at, is_char_boundary, position_u32, new_index, count_chars, line_starts, last_or,
  line_index, line_start, floor_from, floor_to_boundary, chars_before, position,
}
use slugaudit.Span.Blocks.{chars_before-count}
use slugaudit.Span.Starts.{walk, take_starts, partition_point-walk, last_or_le, count-walk}

floor_from-le : (source : List ℕ) (n : ℕ) → floor_from source n ≤ n
unfolding floor_from
floor_from-le source zero = omega arith
floor_from-le source (suc n) = ground (arith, floor_from-le source n)

length-take : (n : ℕ) (xs : List ℕ) → n ≤ length xs → length (take n xs) ≡ n
length-take zero xs h = refl
length-take (suc n) [] h = absurd (omega arith)
length-take (suc n) (x ∷ xs) h = omega (arith, length-take n xs (omega arith))

take-take : (m n : ℕ) (xs : List ℕ) → m ≤ n → take m (take n xs) ≡ take m xs
take-take zero n xs h = refl
take-take (suc m) zero xs h = absurd (omega arith)
take-take (suc m) (suc n) [] h = refl
take-take (suc m) (suc n) (x ∷ xs) h = ap (◌∷◌ x) (take-take m n xs (omega arith))

-- The offset at which a lookup reads: the last character boundary at or before the one asked for.
abbrev pub floored : List ℕ → ℕ → ℕ
floored source offset = floor_to_boundary (new_index source) offset

floored-le : (source : List ℕ) (offset : ℕ) → floored source offset ≤ length source
unfolding floor_to_boundary new_index
floored-le source offset = omega (arith, floor_from-le source (min offset (length source)))

line_index-walk :
    (source : List ℕ) (n : ℕ) → line_index (new_index source) n ≡ (walk 0 0 (take n source)).0
unfolding line_index new_index
line_index-walk source n =
    let e : n - 0 ≡ n = omega arith in
    let w = partition_point-walk n 0 0 0 source in
    omega (arith, w, ap (λ k. (walk 0 0 (take k source)).0) e)

line_start-last :
    (source : List ℕ) (n : ℕ)
    → line_start (new_index source) (line_index (new_index source) n)
      ≡ last_or 0 (line_starts 0 (take n source))
unfolding line_start line_index new_index
line_start-last source n =
    let e : n - 0 ≡ n = omega arith in
    ap (last_or 0) (take_starts n 0 source) ∙ ap (λ k. last_or 0 (line_starts 0 (take k source))) e

-- The characters from the start of the line to the offset are the column of the walk.
column-walk :
    (source : List ℕ) (n : ℕ)
    → n ≤ length source
    → chars_before (new_index source) n
        - chars_before
            (new_index source)
            (line_start (new_index source) (line_index (new_index source) n))
      ≡ (walk 0 0 (take n source)).1
column-walk source n h =
    let s : ℕ = last_or 0 (line_starts 0 (take n source)) in
    let le : s ≤ n =
      omega (arith, last_or_le 0 0 (take n source) (omega arith), length-take n source h) in
    let w = count-walk [] (take n source) 0 0 0 (omega arith) (omega arith) in
    rw
      (
        line_start-last source n,
        chars_before-count source n h,
        chars_before-count source s (omega arith),
      )
      (omega (arith, w, ap count_chars (take-take s n source le)))

-- At the end of the source, or at a byte that does not continue a character.
abbrev pub at_char : List ℕ → Bool
at_char [] = true
at_char (b ∷ bs) = ltb b 128 || leb 192 b

abbrev pub begins_char : List ℕ → ℕ → Bool
begins_char source zero = true
begins_char source (suc n) = at_char (drop (suc n) source)

-- `n` is the last character boundary at or before the offset.
pub record IsFloor (source : List ℕ) (offset n : ℕ) : Type 0 where
  pub at_most : n ≤ offset
  pub in_source : n ≤ length source
  pub begins : begins_char source n ≡ true
  pub last : (m : ℕ) → n < m → m ≤ offset → m ≤ length source → begins_char source m ≡ false

at_char-drop :
    (n : ℕ) (source : List ℕ)
    → n ≤ length source
    → at_char (drop n source) ≡ (n == length source || boundary_at (get_elem? source n))
at_char-drop zero [] h = refl
at_char-drop (suc n) [] h = absurd (omega arith)
at_char-drop zero (b ∷ source) h = ground arith
at_char-drop (suc n) (b ∷ source) h = ground (arith, at_char-drop n source (omega arith))

is_char_boundary-begins :
    (source : List ℕ) (n : ℕ) → n ≤ length source → is_char_boundary source n ≡ begins_char source n
is_char_boundary-begins source zero h = refl
is_char_boundary-begins source (suc n) h = ground (arith, at_char-drop (suc n) source h)

-- The loop finds the last boundary at or before where it starts.
floor_from-IsFloor :
    (source : List ℕ) (n : ℕ) → n ≤ length source → IsFloor source n (floor_from source n)
unfolding floor_from
floor_from-IsFloor source zero h = record {
  at_most = omega arith;
  in_source = omega arith;
  begins = refl;
  last = λ m a b c. absurd (omega arith);
}
floor_from-IsFloor source (suc n) h =
    let e = is_char_boundary-begins source (suc n) h in
    elim (Bool-cases (is_char_boundary source (suc n))) [
      | inl b ↦ rw b (record {
        at_most = omega arith;
        in_source = h;
        begins = sym e ∙ b;
        last = λ m k l i. absurd (omega arith);
      })
      | inr b ↦
          let below = floor_from-IsFloor source n (omega arith) in
          rw b (record {
            at_most = omega (arith, below.at_most);
            in_source = below.in_source;
            begins = below.begins;
            last = λ m k l i. elim (Bool-cases (m == suc n)) [
              | inl q ↦ ap (begins_char source) ((==_iff m (suc n)).0 q) ∙ sym e ∙ b
              | inr q ↦ below.last m k (ground arith) i
            ];
          })
    ]

-- The position of an offset is the line and the column that reading the source up to the last character
-- boundary at or before the offset, and within the source, ends in, where both fit 32 bits; else it is
-- the overflow of the first that does not.
pub position-walk :
    (source : List ℕ) (offset : ℕ)
    → (n : ℕ) × IsFloor source offset n
      × (position (new_index source) offset ≡ (
          let (l, c) = walk 0 0 (take n source) in
          position_u32 l >>= λ line.
          position_u32 c >>= λ column. ok (record { line = line; column = column })))
unfolding position floor_to_boundary new_index
position-walk source offset =
    let floor = floor_from-IsFloor source (min offset (length source)) (omega arith) in
    (
      floored source offset,
      record {
        at_most = omega (arith, floor.at_most);
        in_source = floor.in_source;
        begins = floor.begins;
        last = λ m k l i. floor.last m k (omega (arith, l, i)) i;
      },
      rw
          (
            column-walk source (floored source offset) (floored-le source offset),
            line_index-walk source (floored source offset),
          )
          refl,
    )
