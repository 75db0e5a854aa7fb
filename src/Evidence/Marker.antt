-- ===== src/Evidence/Marker.antt =====
-- How many bytes the marker of a truncated list takes.
use slugaudit.Base.{
  ℕ, ◌+◌, ◌-◌, ◌≤◌, ◌<◌, ◌≡◌, refl, inl, inr, Bool, true, not, ◌&&◌, ◌||◌, some, [], ◌∷◌, ◌++◌,
  arith, ltb, leb, ◌==◌, if◌then◌else◌, length, length-append, all, u64_mod, Bool-cases, Text,
}
use slugaudit.ResultStore.Cursor.{digits, is_ascii_digit}
use slugaudit.ResultStore.Cursor.Digits.{all-digits}
use slugaudit.ResultStore.Cursor.Codec.{digits_u64, all-append}
use slugaudit.Evidence.{
  EvidenceLimits, Payloads, truncation_evidence, truncation_message,
  truncation_marker_reserve_bytes, discarded_text, exceeded_text, dropped_text, failed_text,
}
use slugaudit.Evidence.Pass.{size}

-- A character that JSON writes as it is, in one byte.
abbrev pub is_plain : ℕ → Bool
is_plain c = leb 32 c && (ltb c 127 && not (c == 34 || c == 92))

digits_plain : (xs : Text) → all is_ascii_digit xs ≡ true → all is_plain xs ≡ true
digits_plain [] h = refl
digits_plain (x ∷ xs) h = ground (arith, digits_plain xs)

number_plain : (n : ℕ) → all is_plain (digits n) ≡ true
number_plain n = digits_plain (digits n) (all-digits n)

-- A text of plain characters and at most so many.
abbrev Brief : ℕ → Text → Type 0
Brief n text = (all is_plain text ≡ true) × (length text ≤ n)

Brief-append : (m n : ℕ) (xs ys : Text) → Brief m xs → Brief n ys → Brief (m + n) (xs ++ ys)
Brief-append m n xs ys (p, h) (q, k) =
    (all-append is_plain xs ys p q, omega (arith, length-append xs ys, h, k))

Brief-number : (n : ℕ) → n < u64_mod → Brief 20 (digits n)
Brief-number n h = (number_plain n, digits_u64 n h)

note-Brief :
    (unmeasurable : ℕ)
    → unmeasurable < u64_mod
    → Brief 50 (if ltb 0 unmeasurable then 44 ∷ 32 ∷ (digits unmeasurable ++ failed_text) else [])
note-Brief unmeasurable h = elim (Bool-cases (ltb 0 unmeasurable)) [
  | inl e ↦ rw e (
      Brief-append 2 48 (44 ∷ 32 ∷ []) (digits unmeasurable ++ failed_text) (refl, omega arith)
        (Brief-append 20 28 (digits unmeasurable) failed_text (Brief-number unmeasurable h)
          (refl, omega arith)))
  | inr e ↦ rw e (refl, omega arith)
]

truncation_message-Brief :
    (oversized dropped unmeasurable : ℕ)
    → oversized < u64_mod
    → dropped < u64_mod
    → unmeasurable < u64_mod
    → Brief 223 (truncation_message oversized dropped unmeasurable)
unfolding truncation_message
truncation_message-Brief oversized dropped unmeasurable a b c =
    Brief-append 35 188 discarded_text _ (refl, omega arith)
      (Brief-append 20 168 (digits oversized) _ (Brief-number oversized a) (
        Brief-append 41 127 exceeded_text _ (refl, omega arith)
          (Brief-append 20 107 (digits dropped) _ (Brief-number dropped b)
            (Brief-append 57 50 dropped_text _ (refl, omega arith) (note-Brief unmeasurable c)))))

-- What serde_json writes for a marker whose message needs no escape: compact JSON, which is
-- `{"message":"","severity":"warning","original_item_count":,"kept_item_count":}` with the message and the
-- two numbers filled in.
pub record Compact (p : Payloads) : Type 0 where
  pub compact :
      (message : Text) (original kept : ℕ)
      → all is_plain message ≡ true
      → p.encoded_len (p.truncation_value message original kept)
        ≡ some (77 + length message + length (digits original) + length (digits kept))

pub marker_le_reserve :
    (p : Payloads) (limits : EvidenceLimits) (original kept oversized unmeasurable : ℕ)
    → Compact p
    → original < u64_mod
    → kept ≤ original
    → oversized ≤ original
    → unmeasurable ≤ original
    → size p limits
        (p.encoded_len (truncation_evidence p original kept oversized unmeasurable).payload)
      ≤ truncation_marker_reserve_bytes
unfolding truncation_evidence
marker_le_reserve p limits original kept oversized unmeasurable c o k v m =
    let dropped = original - kept - oversized - unmeasurable in
    let (plain, brief) =
      truncation_message-Brief oversized dropped unmeasurable (omega arith) (omega arith)
        (omega arith) in
    rw (c.compact (truncation_message oversized dropped unmeasurable) original kept plain)
      (omega (arith, brief, digits_u64 original o, digits_u64 kept (omega arith)))
