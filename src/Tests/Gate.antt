-- ===== src/Tests/Gate.antt =====
-- Counting a line of code and a line of comment, and the verdict on a long file.
use slugaudit.Base.{
  ℕ, ◌+◌, ◌≤◌, ◌≡◌, false, ◌&&◌, ◌||◌, some, List, [], ◌∷◌, arith, ltb, leb, length,
}
use slugaudit.SourceLimits.{newline, Exception, human, code_lines, verdict}
use slugaudit.SourceLimits.Scan.{newlines}
use slugaudit.SourceLimits.Lines.{code_lines-le}
use slugaudit.SourceLimits.Verdicts.{admits, by_human, is_given, admits-verdict}

abbrev source : List ℕ
source = b'a' ∷ newline ∷ b'/' ∷ b'/' ∷ b'b' ∷ newline ∷ []

code_lines-le_example :
    (n : ℕ) × (code_lines source ≡ some n) × (n ≤ newlines source (length source) + 1)
code_lines-le_example = code_lines-le source (omega arith)

abbrev granted : Exception
granted = record { reason = "r"; approver = human }

admits-verdict_example : admits (verdict 320 (some granted) false) ≡ (
    ltb 320 200
    || (leb 320 300 && is_given (some granted))
    || (leb 320 350 && by_human (some granted)))
admits-verdict_example = admits-verdict 320 (some granted) false
