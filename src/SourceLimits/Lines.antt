-- ===== src/SourceLimits/Lines.antt =====
-- The counter ends, and counts no more lines than the source has.
use slugaudit.Base.{
  ℕ, zero, suc, ◌+◌, ◌≤◌, ◌<◌, ◌≡◌, refl, inl, inr, some, List, [], ◌∷◌, arith, ltb, length,
  Bool-cases, u64_max,
}
use slugaudit.SourceLimits.{ScanCursor, start, scan_step, scan_loop, final_count, code_lines}
use slugaudit.SourceLimits.Scan.{newlines, IsScan}
use slugaudit.SourceLimits.Steps.{scan_step-Consumes}

module _ (bytes : List ℕ) (top : length bytes < u64_max) where
  -- With a byte of fuel for each byte that is left the loop reaches the end of the source.
  scan_loop-IsScan :
      (fuel : ℕ) (c : ScanCursor)
      → length bytes ≤ c.index + fuel
      → IsScan bytes c
      → (r : ScanCursor) × (scan_loop fuel bytes c ≡ some r)
        × IsScan bytes r
        × (length bytes ≤ r.index)
  unfolding scan_loop
  scan_loop-IsScan zero c h s = (c, ground arith, s, omega arith)
  scan_loop-IsScan (suc fuel) c h s = elim (Bool-cases (ltb c.index (length bytes))) [
    | inr e ↦ (c, rw (e, scan_loop) refl, s, ground arith)
    | inl e ↦
        let k = scan_step-Consumes bytes c top (ground arith) s in
        rw (e, scan_loop)
          (scan_loop-IsScan fuel (scan_step bytes c) (omega (arith, k.forward)) k.scan)
  ]

newlines_all : (bytes : List ℕ) (i : ℕ) → newlines bytes i ≤ newlines bytes (length bytes)
newlines_all [] i = omega arith
newlines_all (b ∷ bytes) zero = omega arith
newlines_all (b ∷ bytes) (suc i) = omega (arith, newlines_all bytes i)

-- Counting a source whose length is below the largest `u64` ends with a count, which is at most
-- the number of its lines: one more than its newlines.
pub code_lines-le :
    (bytes : List ℕ)
    → length bytes < u64_max
    → (n : ℕ) × (code_lines bytes ≡ some n) × (n ≤ newlines bytes (length bytes) + 1)
unfolding code_lines
code_lines-le bytes top =
    let (r, e, s, h) =
      scan_loop-IsScan bytes top (length bytes) start (omega arith)
        (record { counted = omega arith; deep = λ x. cc; shallow = omega arith }) in
    (final_count r, rw e, bound r s)
  where
    bound : (r : ScanCursor) → IsScan bytes r → final_count r ≤ newlines bytes (length bytes) + 1
    bound r s = elim (Bool-cases r.has_code) [
      | inl b ↦ rw b (omega (arith, s.counted, newlines_all bytes r.index))
      | inr b ↦ rw b (omega (arith, s.counted, newlines_all bytes r.index))
    ]
