-- ===== src/Span/Blocks.antt =====
-- The table of character counts: what it adds up to.
use slugaudit.Base.{
  ℕ, zero, suc, ◌+◌, ◌-◌, ◌*◌, ◌/◌, ◌≤◌, ◌≡◌, refl, sym, ap, ◌∙◌, inl, inr, true, some, List, [],
  ◌∷◌, arith, length, get_elem?, take, drop, Bool-cases,
}
use slugaudit.Span.{count_chars, totals, is_ascii, new_index, chars_before}

pub take_nil : (n : ℕ) → take {A = ℕ} n [] ≡ []
take_nil zero = refl
take_nil (suc n) = refl

pub count_split :
    (k m : ℕ) (xs : List ℕ)
    → count_chars (take (k + m) xs) ≡ count_chars (take k xs) + count_chars (take m (drop k xs))
unfolding count_chars
count_split zero m xs = let e : 0 + m ≡ m = omega arith in rw e (omega arith)
count_split (suc k) m [] = rw (take_nil (suc k + m), take_nil m) (omega arith)
count_split (suc k) m (x ∷ xs) =
    let e : suc k + m ≡ suc (k + m) = omega arith in rw e (omega (arith, count_split k m xs))

length-drop_le : (n : ℕ) (xs : List ℕ) → length (drop n xs) ≡ length xs - n
length-drop_le zero xs = omega arith
length-drop_le (suc n) [] = omega arith
length-drop_le (suc n) (x ∷ xs) = omega (arith, length-drop_le n xs)

-- The entry of block `k` counts the characters before it.
totals_at :
    (k fuel total : ℕ) (bytes : List ℕ)
    → length bytes ≤ fuel
    → k * 256 ≤ length bytes
    → get_elem? (total ∷ totals fuel total bytes) k
      ≡ some (total + count_chars (take (k * 256) bytes))
unfolding totals count_chars
totals_at zero fuel total bytes h l = ground arith
totals_at (suc k) zero total bytes h l = absurd (omega arith)
totals_at (suc k) (suc fuel) total [] h l = absurd (omega arith)
totals_at (suc k) (suc fuel) total (b ∷ bytes) h l =
    let e : suc k * 256 ≡ 256 + k * 256 = omega arith in
    totals_at k fuel (total + count_chars (take 256 (b ∷ bytes))) (drop 256 (b ∷ bytes))
      (omega (arith, length-drop_le 256 (b ∷ bytes)))
      (omega (arith, length-drop_le 256 (b ∷ bytes)))
    ∙ ap some (rw e (omega (arith, count_split 256 (k * 256) (b ∷ bytes))))

ascii_count :
    (bytes : List ℕ) (n : ℕ)
    → is_ascii bytes ≡ true
    → n ≤ length bytes
    → count_chars (take n bytes) ≡ n
unfolding count_chars
ascii_count bytes zero h l = refl
ascii_count [] (suc n) h l = absurd (omega arith)
ascii_count (b ∷ bytes) (suc n) h l = ground (arith, ascii_count bytes n)

-- The table and the tail of a block give the count of the characters before an offset.
pub chars_before-count :
    (bytes : List ℕ) (n : ℕ)
    → n ≤ length bytes
    → chars_before (new_index bytes) n ≡ count_chars (take n bytes)
unfolding chars_before new_index
chars_before-count bytes n l = elim (Bool-cases (is_ascii bytes)) [
  | inl e ↦ rw e (sym (ascii_count bytes n e l))
  | inr e ↦
      let t = totals_at (n / 256) (length bytes) 0 bytes (omega arith) (omega arith) in
      let s = count_split (n / 256 * 256) (n - n / 256 * 256) bytes in
      let j : n / 256 * 256 + (n - n / 256 * 256) ≡ n = omega arith in
      rw e (rw t (omega (arith, s, ap (λ m. count_chars (take m bytes)) j)))
]
