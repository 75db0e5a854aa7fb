-- ===== src/SourceLimits/Verdicts.antt =====
-- The gate's policy, decided by the line count, the exception and the kind of file.
use slugaudit.Base.{
  ℕ, ◌≡◌, Bool, true, false, ◌&&◌, ◌||◌, Option, none, some, arith, ltb, leb, if◌then◌else◌,
}
use slugaudit.SourceLimits.{
  Exception, allows_extended_ceiling, Verdict, pass, pass_with_exception, verdict,
}

-- The verdict lets the file through.
abbrev pub admits : Verdict → Bool
admits pass = true
admits (pass_with_exception _) = true
admits _ = false

abbrev pub by_human : Option Exception → Bool
by_human none = false
by_human (some e) = allows_extended_ceiling e

abbrev pub is_given : Option Exception → Bool
is_given none = false
is_given (some e) = true

-- A test file passes up to 500 lines. A production file passes below 200 lines by itself, up to 300 with
-- any exception, up to 350 with a human one, and never above.
pub admits-verdict :
    (lines : ℕ) (e : Option Exception) (test_file : Bool)
    → admits (verdict lines e test_file) ≡ (
        if test_file
        then leb lines 500
        else (ltb lines 200 || (leb lines 300 && is_given e) || (leb lines 350 && by_human e)))
unfolding verdict
admits-verdict lines e true = ground arith
admits-verdict lines none false = ground arith
admits-verdict lines (some x) false = ground arith
