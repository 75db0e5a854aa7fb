-- ===== src/ResultStore/Cursor.antt =====
-- src/store/result_store/cursor.rs: the tokens by which a client pages, `v1.<nonce>.<result>.<ord>`.
-- A token is its code points. The `uuid` library is a parameter; a UUID is a number.
pub mod Digits
pub mod Codec
use slugaudit.Base.{
  ℕ, zero, suc, ◌+◌, ◌-◌, ◌*◌, ◌/◌, ◌%◌, ◌^◌, ◌≤◌, ◌<◌, min, max, ◌≡◌, refl, sym, ap, subst, ◌∙◌,
  fun_ext, ◌≢◌, ◌↔◌, ◌⊎◌, inl, inr, Bool, true, false, not, ◌&&◌, ◌||◌, Option, none, some, List,
  [], ◌∷◌, ◌++◌, map, String, arith, ltb, leb, ◌==◌, ==_iff, if◌then◌else◌, ℤ, pos, negsuc,
  pos_part, neg_part, leb_ℤ, ◌≤ℤ◌, sub_ℕ, length, length-append, get_elem?, take, drop, filter, any,
  all, add64, sub64, u64_mod, i64_max, saturating_add, Result, ok, err, ok_or, ◌>>=◌, Result-cases,
  is_utf8, saturating_mul, All, All-append, All-mono, All-left, All-right, All-of, All-both,
  Bool-cases, Option-cases, u64_max, Text, text_eq, text_eq_sound, text_eq_refl, apart, text_in,
  strip_prefix, strip_prefix_sound, split_from, split, join, Without, leb→le, le→leb, leb-false,
  str_eq, eq_iff,
}
use mathlib.Core.Option

-- A UUID has 128 bits.
abbrev pub uuid_bound : ℕ
uuid_bound = 2 ^ 128

-- `Uuid::hyphenated` as text and `Uuid::parse_str`.
pub record Uuids : Type 0 where
  pub hyphenated : ℕ → Text
  pub parse_str : Text → Option ℕ
  pub round_trip : (u : ℕ) → u < uuid_bound → parse_str (hyphenated u) ≡ some u
  -- The text is 36 ASCII characters, none of them a dot.
  pub length_36 : (u : ℕ) → length (hyphenated u) ≡ 36
  pub ascii : (u : ℕ) → all (λ c. ltb c 128) (hyphenated u) ≡ true
  pub dotless : (u : ℕ) → Without b'.' (hyphenated u)

abbrev pub max_token_len : ℕ
max_token_len = 128

pub record Cursor : Type 0 where
  pub nonce : ℕ
  pub result : ℕ
  pub ord : ℕ

-- The fields are within their machine types.
abbrev pub Fits : Cursor → Type 0
Fits c = (c.nonce < uuid_bound) × (c.result < uuid_bound) × (c.ord ≤ u64_max)

-- The decimal digits of a number: `n` below the fuel.
unfoldable pub digits_from : ℕ → ℕ → Text
digits_from zero n = []
digits_from (suc fuel) n =
    let rest = digits_from fuel (n / 10) ++ (48 + n % 10) ∷ [] in
    if ltb n 10 then (48 + n) ∷ [] else rest

-- `u64::to_string`.
unfoldable pub digits : ℕ → Text
unfolding digits_from
digits n = digits_from (suc n) n

-- The value of digits after `before`.
unfoldable pub value_from : ℕ → Text → ℕ
value_from before [] = before
value_from before (c ∷ cs) = value_from (before * 10 + (c - 48)) cs

abbrev pub is_ascii_digit : ℕ → Bool
is_ascii_digit c = leb 48 c && leb c 57

abbrev pub first_is_zero : Text → Bool
first_is_zero [] = false
first_is_zero (c ∷ cs) = c == 48

abbrev pub is_empty : Text → Bool
is_empty [] = true
is_empty (c ∷ cs) = false

-- `canonical_ord`: `str::parse` of digits fails only above the largest `u64`.
unfoldable pub canonical_ord : Text → Option ℕ
unfolding value_from text_eq
canonical_ord text =
    let plain =
      not (is_empty text)
      && all is_ascii_digit text
      && (text_eq text (48 ∷ []) || not (first_is_zero text)) in
    if not plain
    then none
    else if leb (value_from 0 text) u64_max
    then some (value_from 0 text)
    else none

abbrev pub v1 : Text
v1 = b'v' ∷ b'1' ∷ []

module _ (u : Uuids) where
  abbrev pub same_id : Text → Option ℕ → Option ℕ
  same_id text none = none
  same_id text (some id) = if text_eq (u.hyphenated id) text then some id else none

  unfoldable pub canonical_uuid : Text → Option ℕ
  unfolding text_eq
  canonical_uuid text = same_id text (u.parse_str text)

  -- `Display` of a cursor.
  unfoldable pub to_string : Cursor → Text
  unfolding digits
  to_string c =
      v1 ++ b'.' ∷ (u.hyphenated c.nonce ++ b'.' ∷ (u.hyphenated c.result ++ b'.' ∷ digits c.ord))

  abbrev pub cursor_of : Option ℕ → Option ℕ → Option ℕ → Option Cursor
  cursor_of (some nonce) (some result) (some ord) =
      some (record { nonce = nonce; result = result; ord = ord })
  cursor_of _ _ _ = none

  abbrev pub four_parts : List Text → Option Cursor
  four_parts (version ∷ nonce ∷ result ∷ ord ∷ []) =
      if text_eq version v1
      then cursor_of (canonical_uuid nonce) (canonical_uuid result) (canonical_ord ord)
      else none
  four_parts _ = none

  -- `Cursor::parse`.
  unfoldable pub parse : Text → Option Cursor
  unfolding text_eq split canonical_uuid canonical_ord
  parse token =
      if ltb max_token_len (length token) || not (all (λ c. ltb c 128) token)
      then none
      else four_parts (split b'.' token)
