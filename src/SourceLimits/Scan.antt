-- ===== src/SourceLimits/Scan.antt =====
-- What a scan keeps true, and the cursor moves that keep it.
use slugaudit.Base.{
  ℕ, zero, suc, ◌+◌, ◌≤◌, ◌<◌, ◌≡◌, refl, sym, ◌∙◌, inl, inr, Bool, true, false, Option, none, some,
  List, [], ◌∷◌, arith, ◌==◌, ==_iff, if◌then◌else◌, length, get_elem?, Bool-cases,
}
use mathlib.Core.Bool.{false≢true}
use slugaudit.SourceLimits.{
  State, block_comment, ScanCursor, newline, skip, advance_byte, enter, with_code, step_raw_start,
}

-- The newlines among the first `i` bytes.
abbrev pub newlines : List ℕ → ℕ → ℕ
newlines [] i = 0
newlines (b ∷ bytes) zero = 0
newlines (b ∷ bytes) (suc i) = (if b == newline then 1 else 0) + newlines bytes i

pub newlines_mono : (bytes : List ℕ) (i k : ℕ) → newlines bytes i ≤ newlines bytes (i + k)
newlines_mono [] i k = omega arith
newlines_mono (b ∷ bytes) zero k = omega arith
newlines_mono (b ∷ bytes) (suc i) k =
    let e : suc i + k ≡ suc (i + k) = omega arith in rw e (omega (arith, newlines_mono bytes i k))

newlines_zero : (bytes : List ℕ) → newlines bytes 0 ≡ 0
newlines_zero [] = refl
newlines_zero (b ∷ bytes) = refl

newlines_next :
    (bytes : List ℕ) (i : ℕ)
    → get_elem? bytes i ≡ some newline
    → newlines bytes (i + 1) ≡ newlines bytes i + 1
newlines_next [] i h = absurd (ground arith)
newlines_next (b ∷ bytes) zero h = ground (arith, newlines_zero bytes)
newlines_next (b ∷ bytes) (suc i) h =
    let e : suc i + 1 ≡ suc (i + 1) = omega arith in rw e (omega (arith, newlines_next bytes i h))

abbrev pub in_block : State → Bool
in_block block_comment = true
in_block _ = false

-- No more lines are counted than newlines were passed, and the nesting depth is positive inside a block
-- comment and no larger than the offset.
pub record IsScan (bytes : List ℕ) (c : ScanCursor) : Type 0 where
  pub counted : c.count ≤ newlines bytes c.index
  pub deep : in_block c.state ≡ true → 0 < c.block_depth
  pub shallow : c.block_depth ≤ c.index

-- A step from `c` keeps the facts and consumes a byte.
pub record Consumes (bytes : List ℕ) (c c' : ScanCursor) : Type 0 where
  pub scan : IsScan bytes c'
  pub forward : c.index < c'.index

pub in_range : (bytes : List ℕ) (i : ℕ) → i < length bytes → (b : ℕ) × (get_elem? bytes i ≡ some b)
in_range [] i h = absurd (omega arith)
in_range (b ∷ bytes) zero h = (b, refl)
in_range (b ∷ bytes) (suc i) h = in_range bytes i (omega arith)

module _ (bytes : List ℕ) where
  pub advance_byte-counted :
      (byte : ℕ) (c : ScanCursor)
      → get_elem? bytes c.index ≡ some byte
      → c.count ≤ newlines bytes c.index
      → (advance_byte byte c).count ≤ newlines bytes (c.index + 1)
  unfolding advance_byte
  advance_byte-counted byte c h k = elim (Bool-cases (byte == newline)) [
    | inl e ↦
        let e' : byte ≡ newline = (==_iff byte newline).0 e in
        rw e (ground (arith, newlines_next bytes c.index (rw e' at h)))
    | inr e ↦ rw e (omega (arith, newlines_mono bytes c.index 1))
  ]

  pub advance_byte-Consumes :
      (byte : ℕ) (c : ScanCursor)
      → get_elem? bytes c.index ≡ some byte
      → IsScan bytes c
      → Consumes bytes c (advance_byte byte c)
  unfolding advance_byte
  advance_byte-Consumes byte c h s = record {
    scan = record {
      counted = ground (arith, advance_byte-counted byte c h s.counted);
      deep = ground (arith, s.deep);
      shallow = ground (arith, s.shallow);
    };
    forward = ground arith;
  }

  -- A jump over `k` bytes that counts no line.
  pub jump-counted :
      (c : ScanCursor) (k : ℕ) → IsScan bytes c → c.count ≤ newlines bytes (c.index + k)
  jump-counted c k s = omega (arith, s.counted, newlines_mono bytes c.index k)

  pub code-IsScan : (c : ScanCursor) → IsScan bytes c → IsScan bytes (with_code c)
  code-IsScan c s = record { counted = s.counted; deep = s.deep; shallow = s.shallow }

  pub enter-Consumes :
      (c : ScanCursor) (state : State) (k : ℕ)
      → 0 < k
      → in_block state ≡ false
      → IsScan bytes c
      → Consumes bytes c (enter state k c)
  enter-Consumes c state k p n s = record {
    scan = record {
      counted = jump-counted c k s;
      deep = λ x. absurd (false≢true (sym n ∙ x));
      shallow = omega (arith, s.shallow);
    };
    forward = omega arith;
  }

  pub Consumes-code : (c c' : ScanCursor) → Consumes bytes (with_code c) c' → Consumes bytes c c'
  Consumes-code c c' k = record { scan = k.scan; forward = k.forward }

  pub skip-Consumes :
      (x : ℕ) (c : ScanCursor)
      → get_elem? bytes (c.index + 1) ≡ some x
      → IsScan bytes c
      → Consumes bytes c (advance_byte x (skip 1 c))
  skip-Consumes x c h s =
      let k = advance_byte-Consumes x (skip 1 c) h (record {
        counted = jump-counted c 1 s;
        deep = s.deep;
        shallow = omega (arith, s.shallow);
      }) in
      record { scan = k.scan; forward = omega (arith, k.forward) }

  pub raw_start-Consumes :
      (o : Option ℕ) (c other : ScanCursor)
      → IsScan bytes c
      → Consumes bytes c other
      → Consumes bytes c (step_raw_start o c other)
  raw_start-Consumes none c other s k = k
  raw_start-Consumes (some n) c other s k = record {
    scan = record {
      counted = jump-counted c (n + 2) s;
      deep = λ x. cc;
      shallow = omega (arith, s.shallow);
    };
    forward = omega arith;
  }

  pub plain-Consumes :
      (byte : ℕ) (c : ScanCursor)
      → get_elem? bytes c.index ≡ some byte
      → IsScan bytes c
      → (b : Bool) → Consumes bytes c (advance_byte byte (if b then c else with_code c))
  plain-Consumes byte c h s true = advance_byte-Consumes byte c h s
  plain-Consumes byte c h s false =
      Consumes-code c _ (advance_byte-Consumes byte (with_code c) h (code-IsScan c s))

  pub either :
      (c x y : ScanCursor) (b : Bool)
      → Consumes bytes c x
      → Consumes bytes c y
      → Consumes bytes c (if b then x else y)
  either c x y true h k = h
  either c x y false h k = k

  pub block-Consumes :
      (c : ScanCursor)
      → IsScan bytes c
      → Consumes bytes c (enter block_comment 2 (record c { block_depth = 1 }))
  block-Consumes c s = record {
    scan = record { counted = jump-counted c 2 s; deep = λ x. omega arith; shallow = omega arith };
    forward = omega arith;
  }
