-- ===== src/ResultStore/Cursor/Digits.antt =====
-- Decimal text: a number and its digits.
use slugaudit.Base.{
  ℕ, zero, suc, ◌+◌, ◌-◌, ◌*◌, ◌/◌, ◌%◌, ◌≤◌, ◌<◌, ◌≡◌, refl, sym, ap, ◌∙◌, inl, inr, true, false,
  not, ◌&&◌, ◌||◌, some, [], ◌∷◌, ◌++◌, arith, ltb, ◌==◌, ==_iff, all, Bool-cases, u64_max, Text,
  text_eq, le→leb,
}
use mathlib.Core.List.{append-nil, append_assoc}
use slugaudit.ResultStore.Cursor.{
  digits_from, digits, value_from, is_ascii_digit, first_is_zero, is_empty, canonical_ord,
}

-- More fuel gives the same digits.
digits_from_fuel : (f g n : ℕ) → n < f → n < g → digits_from f n ≡ digits_from g n
unfolding digits_from
digits_from_fuel zero g n h k = absurd (omega arith)
digits_from_fuel (suc f) zero n h k = absurd (omega arith)
digits_from_fuel (suc f) (suc g) n h k = elim (Bool-cases (ltb n 10)) [
  | inl e ↦ rw e refl
  | inr e ↦ rw (e, digits_from_fuel f g (n / 10) (ground arith) (ground arith)) refl
]

pub digits_small : (n : ℕ) → n < 10 → digits n ≡ (48 + n) ∷ []
unfolding digits digits_from
digits_small n h = ground arith

pub digits_large : (n : ℕ) → 10 ≤ n → digits n ≡ digits (n / 10) ++ (48 + n % 10) ∷ []
unfolding digits digits_from
digits_large n h =
    let e : ltb n 10 ≡ false = ground arith in
    rw e (
      ap (λ (l : Text). l ++ (48 + n % 10) ∷ [])
        (digits_from_fuel n (suc (n / 10)) (n / 10) (omega arith) (omega arith)))

value_append :
    (v : ℕ) (xs : Text) (c : ℕ) → value_from v (xs ++ c ∷ []) ≡ value_from v xs * 10 + (c - 48)
unfolding value_from
value_append v [] c = refl
value_append v (x ∷ xs) c = value_append (v * 10 + (x - 48)) xs c

value-one : (n : ℕ) → value_from 0 ((48 + n) ∷ []) ≡ n
unfolding value_from
value-one n = omega arith

value-digits_below : (k n : ℕ) → n < k → value_from 0 (digits n) ≡ n
value-digits_below zero n h = absurd (omega arith)
value-digits_below (suc k) n h = elim (Bool-cases (ltb n 10)) [
  | inl e ↦ rw (digits_small n (ground arith)) (value-one n)
  | inr e ↦
      rw
        (
          digits_large n (ground arith),
          value_append 0 (digits (n / 10)) (48 + n % 10),
          value-digits_below k (n / 10) (ground arith),
        )
        (omega arith)
]

-- Reading the digits of a number gives the number.
pub value-digits : (n : ℕ) → value_from 0 (digits n) ≡ n
value-digits n = value-digits_below (suc n) n (omega arith)

-- Digits that follow a positive number are the digits of what they make together.
digits-value_from :
    (v : ℕ) (cs : Text)
    → 0 < v
    → all is_ascii_digit cs ≡ true
    → digits (value_from v cs) ≡ digits v ++ cs
unfolding value_from
digits-value_from v [] p h = sym (append-nil _)
digits-value_from v (c ∷ cs) p h =
    let lo : 48 ≤ c = ground arith in
    let hi : c ≤ 57 = ground arith in
    let rest : all is_ascii_digit cs ≡ true = ground arith in
    let q : (v * 10 + (c - 48)) / 10 ≡ v = omega arith in
    let r : 48 + (v * 10 + (c - 48)) % 10 ≡ c = omega arith in
    digits-value_from (v * 10 + (c - 48)) cs (omega arith) rest
    ∙ ap (λ (l : Text). l ++ cs) (digits_large (v * 10 + (c - 48)) (omega arith))
    ∙ rw (q, r) (append_assoc (digits v) (c ∷ []) cs)

abbrev pub IsPlain : Text → Type 0
IsPlain text =
    (not (is_empty text)
      && all is_ascii_digit text
      && (text_eq text (48 ∷ []) || not (first_is_zero text)))
    ≡ true

-- The digits of the value of a plain text are the text.
pub digits-value : (text : Text) → IsPlain text → digits (value_from 0 text) ≡ text
unfolding value_from text_eq
digits-value [] h = absurd (ground arith)
digits-value (c ∷ cs) h = elim (Bool-cases (c == 48)) [
  | inr e ↦
      let lo : 48 < c = ground arith in
      let hi : c ≤ 57 = ground arith in
      let rest : all is_ascii_digit cs ≡ true = ground arith in
      let z : 0 * 10 + (c - 48) ≡ c - 48 = omega arith in
      let w : 48 + (c - 48) ≡ c = omega arith in
      rw z (
        digits-value_from (c - 48) cs (omega arith) rest
        ∙ ap (λ (l : Text). l ++ cs) (digits_small (c - 48) (omega arith))
        ∙ rw w refl)
  | inl e ↦
      let n : cs ≡ [] = alone c cs e h in
      let z : 0 * 10 + (c - 48) ≡ 0 = ground arith in
      let w : c ≡ 48 = (==_iff c 48).0 e in rw (n, z) (digits_small 0 (omega arith) ∙ rw w refl)
]
  where
    alone : (c : ℕ) (cs : Text) → (c == 48) ≡ true → IsPlain (c ∷ cs) → cs ≡ []
    alone c [] e h = refl
    alone c (d ∷ cs) e h = absurd (ground arith)

all_snoc :
    (xs : Text) (d : ℕ)
    → d < 10
    → all is_ascii_digit xs ≡ true
    → all is_ascii_digit (xs ++ (48 + d) ∷ []) ≡ true
all_snoc [] d h k = ground arith
all_snoc (x ∷ xs) d h k = ground (arith, all_snoc xs d h)

first-append : (xs ys : Text) → is_empty xs ≡ false → first_is_zero (xs ++ ys) ≡ first_is_zero xs
first-append [] ys h = cc
first-append (x ∷ xs) ys h = refl

empty-append : (xs ys : Text) → is_empty xs ≡ false → is_empty (xs ++ ys) ≡ false
empty-append [] ys h = cc
empty-append (x ∷ xs) ys h = refl

-- The digits of a number: some, all of them digits, and no leading zero but in "0".
record Shape (n : ℕ) : Type 0 where
  some_digit : is_empty (digits n) ≡ false
  all_digits : all is_ascii_digit (digits n) ≡ true
  leading : first_is_zero (digits n) ≡ true → n ≡ 0

Shape-below : (k n : ℕ) → n < k → Shape n
Shape-below zero n h = absurd (omega arith)
Shape-below (suc k) n h = elim (Bool-cases (ltb n 10)) [
  | inl e ↦
      let d = digits_small n (ground arith) in
      record {
        some_digit = rw d refl;
        all_digits = rw d (ground arith);
        leading = rw d (λ z. ground arith);
      }
  | inr e ↦
      let ih = Shape-below k (n / 10) (ground arith) in
      let d = digits_large n (ground arith) in
      record {
        some_digit = rw d (empty-append _ _ ih.some_digit);
        all_digits = rw d (all_snoc (digits (n / 10)) (n % 10) (omega arith) ih.all_digits);
        leading =
            rw (d, first-append (digits (n / 10)) ((48 + n % 10) ∷ []) ih.some_digit)
              (λ z. absurd (large n e (ih.leading z)));
      }
]
  where
    large : (n : ℕ) → ltb n 10 ≡ false → n / 10 ≡ 0 → ⊥
    large n e z = ground arith

-- A number that fits 64 bits is read back from its digits.
pub canonical_ord-digits : (n : ℕ) → n ≤ u64_max → canonical_ord (digits n) ≡ some n
unfolding canonical_ord
canonical_ord-digits n h =
    let s = Shape-below (suc n) n (omega arith) in
    let p = plain n s in rw (p, value-digits n, le→leb n u64_max h) refl
  where
    plain : (n : ℕ) → Shape n → IsPlain (digits n)
    plain n s = elim (Bool-cases (first_is_zero (digits n))) [
      | inr z ↦ ground (arith, s.some_digit, s.all_digits, z)
      | inl z ↦
          let e = s.leading z in
          let d : digits n ≡ 48 ∷ [] = ap digits e ∙ digits_small 0 (omega arith) in
          rw d (ground arith)
    ]

-- A text that reads as a number is the digits of the number, which fits 64 bits.
pub canonical_ord_sound :
    (text : Text) {n : ℕ} → canonical_ord text ≡ some n → (digits n ≡ text) × (n ≤ u64_max)
unfolding canonical_ord
canonical_ord_sound text h = ground (arith, digits-value text)

pub all-digits : (n : ℕ) → all is_ascii_digit (digits n) ≡ true
all-digits n = (Shape-below (suc n) n (omega arith)).all_digits
