-- ===== src/Tests/Ids.antt =====
-- A concrete form of the UUIDs, and the token of a cursor.
use slugaudit.Base.{
  ℕ, zero, suc, ◌+◌, ◌-◌, ◌*◌, ◌/◌, ◌%◌, ◌≤◌, ◌<◌, ◌≡◌, refl, ap, true, some, [], ◌∷◌, arith, ltb,
  length, all, u64_max, Text, Without,
}
use slugaudit.ResultStore.Cursor.{Uuids, Cursor, to_string, parse}
use slugaudit.ResultStore.Cursor.Codec.{parse-to_string, to_string-parse}

-- UUIDs in 36 letters, the low half-byte first.
abbrev pub letters : ℕ → ℕ → Text
letters zero u = []
letters (suc k) u = (97 + u % 16) ∷ letters k (u / 16)

abbrev pub number : Text → ℕ
number [] = 0
number (c ∷ cs) = (c - 97) + 16 * number cs

abbrev pub letters_bound : ℕ → ℕ
letters_bound zero = 1
letters_bound (suc k) = 16 * letters_bound k

pub number-letters : (k u : ℕ) → u < letters_bound k → number (letters k u) ≡ u
number-letters zero u h = omega arith
number-letters (suc k) u h = omega (arith, number-letters k (u / 16) (omega arith))

pub length-letters : (k u : ℕ) → length (letters k u) ≡ k
length-letters zero u = refl
length-letters (suc k) u = omega (arith, length-letters k (u / 16))

pub all_ascii-letters : (k u : ℕ) → all (λ c. ltb c 128) (letters k u) ≡ true
all_ascii-letters zero u = refl
all_ascii-letters (suc k) u = ground (arith, all_ascii-letters k (u / 16))

pub letters-Without : (k u : ℕ) → Without b'.' (letters k u)
letters-Without zero u = tt
letters-Without (suc k) u = (ground arith, letters-Without k (u / 16))

abbrev pub uuids : Uuids
uuids = record {
  hyphenated = letters 36;
  parse_str = λ t. some (number t);
  round_trip = λ u h. ap some (number-letters 36 u (omega arith));
  length_36 = length-letters 36;
  ascii = all_ascii-letters 36;
  dotless = letters-Without 36;
}

abbrev first : Cursor
first = record { nonce = 7; result = 5; ord = 12 }

parse-to_string_example : parse uuids (to_string uuids first) ≡ some first
parse-to_string_example = parse-to_string uuids first (omega arith, omega arith, omega arith)

-- It is read.
first-parsed : parse uuids (to_string uuids first) ≡ some first
first-parsed = parse-to_string uuids first (omega arith, omega arith, omega arith)

to_string-parse_example : (to_string uuids first ≡ to_string uuids first) × (first.ord ≤ u64_max)
to_string-parse_example = to_string-parse uuids (to_string uuids first) first-parsed
