-- ===== src/Base/Utf8.antt =====
-- UTF-8 as Rust's `String` requires it: `String::from_utf8` succeeds on exactly these byte lists.
use Prim.Native.Nat.{ℕ, ◌-◌}
use mathlib.Core.Bool.{Bool, false, ◌&&◌}
use mathlib.Core.Option.{Option, none, some}
use mathlib.Core.List.{List, [], ◌∷◌}
use slugaudit.Base.Tests.{ltb, leb, ◌==◌, if◌then◌else◌}

-- Continuation bytes that are due, and the range of the next one.
pub record Utf8State : Type 0 where
  pub due : ℕ
  pub low : ℕ
  pub high : ℕ

abbrev between : ℕ → ℕ → ℕ → Bool
between lo hi b = leb lo b && leb b hi

abbrev expect : ℕ → ℕ → ℕ → Option Utf8State
expect due low high = some (record { due = due; low = low; high = high })

lead_byte : ℕ → Option Utf8State
lead_byte b =
    if ltb b 0x80
    then expect 0 0x80 0xBF
    else if between 0xC2 0xDF b
    then expect 1 0x80 0xBF
    else if b == 0xE0
    then expect 2 0xA0 0xBF
    else if b == 0xED
    then expect 2 0x80 0x9F
    else if between 0xE1 0xEF b
    then expect 2 0x80 0xBF
    else if b == 0xF0
    then expect 3 0x90 0xBF
    else if between 0xF1 0xF3 b
    then expect 3 0x80 0xBF
    else if b == 0xF4
    then expect 3 0x80 0x8F
    else none

utf8_step : Utf8State → ℕ → Option Utf8State
unfolding lead_byte
utf8_step s b =
    if s.due == 0
    then lead_byte b
    else if between s.low s.high b
    then expect (s.due - 1) 0x80 0xBF
    else none

utf8_from : Option Utf8State → List ℕ → Bool
unfolding utf8_step
utf8_from none bytes = false
utf8_from (some s) [] = s.due == 0
utf8_from (some s) (b ∷ bytes) = utf8_from (utf8_step s b) bytes

unfoldable pub is_utf8 : List ℕ → Bool
unfolding utf8_from
is_utf8 bytes = utf8_from (expect 0 0x80 0xBF) bytes
