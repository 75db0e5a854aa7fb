-- ===== src/ResultStore/Cursor/Codec.antt =====
-- The codec of cursors: what is printed is read, and nothing else is.
use slugaudit.Base.{
  ℕ, zero, suc, ◌+◌, ◌*◌, ◌/◌, ◌%◌, ◌≤◌, ◌<◌, ◌≡◌, refl, sym, ap, subst, ◌∙◌, inl, inr, Bool, true,
  false, not, ◌||◌, Option, none, some, List, [], ◌∷◌, ◌++◌, arith, ltb, length, length-append, all,
  Bool-cases, Option-cases, u64_max, u64_mod, Text, text_eq, text_eq_sound, text_eq_refl, split,
  join, Without, split-append, split-alone, join-split,
}
use slugaudit.ResultStore.Cursor.{
  Uuids, Cursor, Fits, uuid_bound, digits, is_ascii_digit, canonical_ord, canonical_uuid, same_id,
  cursor_of, four_parts, to_string, parse, v1,
}
use slugaudit.ResultStore.Cursor.Digits.{
  digits_small, digits_large, canonical_ord-digits, canonical_ord_sound, all-digits,
}

-- The first number with more than `k + 1` digits.
abbrev bound : ℕ → ℕ
bound zero = 10
bound (suc k) = 10 * bound k

digits_le : (k n : ℕ) → n < bound k → length (digits n) ≤ suc k
digits_le zero n h = rw (digits_small n h) (omega arith)
digits_le (suc k) n h = elim (Bool-cases (ltb n 10)) [
  | inl e ↦ rw (digits_small n (ground arith)) (omega arith)
  | inr e ↦ rw (digits_large n (ground arith)) (
      omega (
        arith,
        length-append (digits (n / 10)) ((48 + n % 10) ∷ []),
        digits_le k (n / 10) (omega arith),
      ))
]

-- A 64-bit number has at most 20 digits.
pub digits_u64 : (n : ℕ) → n < u64_mod → length (digits n) ≤ 20
digits_u64 n h = digits_le 19 n (omega arith)

pub all-append :
    (p : ℕ → Bool) (xs ys : Text) → all p xs ≡ true → all p ys ≡ true → all p (xs ++ ys) ≡ true
all-append p [] ys h k = k
all-append p (x ∷ xs) ys h k = ground (arith, all-append p xs ys)

digit_ascii : (xs : Text) → all is_ascii_digit xs ≡ true → all (λ c. ltb c 128) xs ≡ true
digit_ascii [] h = refl
digit_ascii (x ∷ xs) h = ground (arith, digit_ascii xs)

digit_dotless : (xs : Text) → all is_ascii_digit xs ≡ true → Without b'.' xs
digit_dotless [] h = tt
digit_dotless (x ∷ xs) h = (ground arith, digit_dotless xs (ground arith))

module _ (u : Uuids) where
  canonical_uuid-hyphenated :
      (id : ℕ) → id < uuid_bound → canonical_uuid u (u.hyphenated id) ≡ some id
  unfolding canonical_uuid
  canonical_uuid-hyphenated id h = rw (u.round_trip id h, text_eq_refl (u.hyphenated id)) refl

  canonical_uuid_sound :
      (text : Text) {id : ℕ} → canonical_uuid u text ≡ some id → u.hyphenated id ≡ text
  unfolding canonical_uuid
  canonical_uuid_sound text h = elim (Option-cases (u.parse_str text)) [
    | inl n ↦ absurd (let h' = rw n at h in cc)
    | inr (i, n) ↦ let h' = rw n at h in sound i h'
  ]
    where
      sound : {id : ℕ} (i : ℕ) → same_id u text (some i) ≡ some id → u.hyphenated id ≡ text
      sound i h = elim (Bool-cases (text_eq (u.hyphenated i) text)) [
        | inl e ↦ let h' = rw e at h in let s = text_eq_sound (u.hyphenated i) text e in cc
        | inr e ↦ absurd (let h' = rw e at h in cc)
      ]

  parts :
      (c : Cursor)
      → split b'.' (to_string u c)
        ≡ v1 ∷ u.hyphenated c.nonce ∷ u.hyphenated c.result ∷ digits c.ord ∷ []
  unfolding to_string
  parts c =
      split-append b'.' v1 _ (refl, (refl, tt))
      ∙ ap (◌∷◌ v1) (
          split-append b'.' (u.hyphenated c.nonce) _ (u.dotless c.nonce)
          ∙ ap (◌∷◌ (u.hyphenated c.nonce)) (
              split-append b'.' (u.hyphenated c.result) _ (u.dotless c.result)
              ∙ ap (◌∷◌ (u.hyphenated c.result)) (
                  split-alone b'.' (digits c.ord)
                    (digit_dotless (digits c.ord) (all-digits c.ord)))))

  short : (c : Cursor) → c.ord ≤ u64_max → length (to_string u c) ≤ 97
  unfolding to_string
  short c h = omega (
    arith,
    length-append (u.hyphenated c.nonce) (b'.' ∷ (u.hyphenated c.result ++ b'.' ∷ digits c.ord)),
    length-append (u.hyphenated c.result) (b'.' ∷ digits c.ord),
    u.length_36 c.nonce,
    u.length_36 c.result,
    digits_le 19 c.ord (omega arith),
  )

  ascii : (c : Cursor) → all (λ k. ltb k 128) (to_string u c) ≡ true
  unfolding to_string
  ascii c =
      all-append (λ k. ltb k 128) (u.hyphenated c.nonce)
        (b'.' ∷ (u.hyphenated c.result ++ b'.' ∷ digits c.ord)) (u.ascii c.nonce)
        (all-append (λ k. ltb k 128) (u.hyphenated c.result) (b'.' ∷ digits c.ord)
          (u.ascii c.result) (digit_ascii (digits c.ord) (all-digits c.ord)))

  -- A cursor whose UUIDs fit 128 bits and whose ordinal fits 64 is read back from its token.
  pub parse-to_string : (c : Cursor) → Fits c → parse u (to_string u c) ≡ some c
  unfolding parse
  parse-to_string c h =
      let l : ltb 128 (length (to_string u c)) ≡ false = ground (arith, short c h.2) in
      rw
        (
          l,
          ascii c,
          parts c,
          canonical_uuid-hyphenated c.nonce h.0,
          canonical_uuid-hyphenated c.result h.1,
          canonical_ord-digits c.ord h.2,
        )
        refl

  ids_sound :
      (version nonce result ord : Text) (n r o : Option ℕ) {c : Cursor}
      → ((i : ℕ) → n ≡ some i → u.hyphenated i ≡ nonce)
      → ((i : ℕ) → r ≡ some i → u.hyphenated i ≡ result)
      → ((i : ℕ) → o ≡ some i → (digits i ≡ ord) × (i ≤ u64_max))
      → version ≡ v1
      → cursor_of u n r o ≡ some c
      → (join b'.' (version ∷ nonce ∷ result ∷ ord ∷ []) ≡ to_string u c) × (c.ord ≤ u64_max)
  unfolding join to_string
  ids_sound version nonce result ord none r o f g h v e = absurd (cc)
  ids_sound version nonce result ord (some n) none o f g h v e = absurd (cc)
  ids_sound version nonce result ord (some n) (some r) none f g h v e = absurd (cc)
  ids_sound version nonce result ord (some n) (some r) (some o) {c} f g h v e =
      let d : record { nonce = n; result = r; ord = o } ≡ c = cc in
      subst
        (λ (x : Cursor).
          (join b'.' (version ∷ nonce ∷ result ∷ ord ∷ []) ≡ to_string u x) × (x.ord ≤ u64_max))
        d (rw (v, ← f n refl, ← g r refl, ← (h o refl).0) refl, (h o refl).1)

  four_parts_sound :
      (ps : List Text) {c : Cursor}
      → four_parts u ps ≡ some c
      → (join b'.' ps ≡ to_string u c) × (c.ord ≤ u64_max)
  four_parts_sound [] h = absurd (cc)
  four_parts_sound (version ∷ []) h = absurd (cc)
  four_parts_sound (version ∷ nonce ∷ []) h = absurd (cc)
  four_parts_sound (version ∷ nonce ∷ result ∷ []) h = absurd (cc)
  four_parts_sound (version ∷ nonce ∷ result ∷ ord ∷ more ∷ ps) h = absurd (cc)
  four_parts_sound (version ∷ nonce ∷ result ∷ ord ∷ []) h =
      elim (Bool-cases (text_eq version v1)) [
        | inr e ↦ absurd (let h' = rw e at h in cc)
        | inl e ↦
            let h' = rw e at h in
            ids_sound version nonce result ord (canonical_uuid u nonce) (canonical_uuid u result)
              (canonical_ord ord) (λ i k. canonical_uuid_sound nonce k)
              (λ i k. canonical_uuid_sound result k) (λ i k. canonical_ord_sound ord k)
              (text_eq_sound version v1 e) h'
      ]

  -- A token that reads as a cursor is the one token that the cursor is printed as.
  pub to_string-parse :
      (token : Text) {c : Cursor}
      → parse u token ≡ some c
      → (to_string u c ≡ token) × (c.ord ≤ u64_max)
  unfolding parse
  to_string-parse token h =
      elim (Bool-cases (ltb 128 (length token) || not (all (λ k. ltb k 128) token))) [
        | inl e ↦ absurd (let h' = rw e at h in cc)
        | inr e ↦
            let h' = rw e at h in
            let (j, o) = four_parts_sound (split b'.' token) h' in
            (sym j ∙ join-split b'.' token, o)
      ]
