-- ===== src/Base/Bytes.antt =====
-- Texts as lists of bytes or of code points: equality, and the string functions of Rust that split
-- and strip them.
use Prim.Native.Nat.{ℕ}
use mathlib.Core.Path.{◌≡◌, refl, sym}
use mathlib.Core.Logic.{inl, inr}
use mathlib.Core.Bool.{Bool, true, false, ◌&&◌}
use mathlib.Core.List.{List, [], ◌∷◌, ◌++◌, append-nil, append_assoc}
use mathlib.Core.Option.{Option, none, some}
use native.Mathlib.Omega.{arith}
use slugaudit.Base.Tests.{if◌then◌else◌, ◌==◌, ==_iff, Bool-cases}
use slugaudit.Base.Lists.{All, any}

abbrev pub Text : Type 0
Text = List ℕ

unfoldable pub text_eq : Text → Text → Bool
text_eq [] [] = true
text_eq [] (y ∷ ys) = false
text_eq (x ∷ xs) [] = false
text_eq (x ∷ xs) (y ∷ ys) = x == y && text_eq xs ys

pub text_eq_sound : (xs ys : Text) → text_eq xs ys ≡ true → xs ≡ ys
unfolding text_eq
text_eq_sound [] [] h = refl
text_eq_sound [] (y ∷ ys) h = absurd (ground arith)
text_eq_sound (x ∷ xs) [] h = absurd (ground arith)
text_eq_sound (x ∷ xs) (y ∷ ys) h = ground (arith, text_eq_sound xs ys, ==_iff x y)

pub text_eq_refl : (xs : Text) → text_eq xs xs ≡ true
unfolding text_eq
text_eq_refl [] = refl
text_eq_refl (x ∷ xs) = ground (arith, text_eq_refl xs)

-- Two texts that differ are not both the third.
pub apart : (k j p : Text) → text_eq k j ≡ false → text_eq k p ≡ true → text_eq j p ≡ false
apart k j p n h = elim (Bool-cases (text_eq j p)) [
  | inr e ↦ e
  | inl e ↦
      absurd
        (let s = text_eq_sound k p h in let t = text_eq_sound j p e in let r = text_eq_refl p in cc)
]

abbrev pub text_in : Text → List Text → Bool
text_in t texts = any (λ p. text_eq p t) texts

-- `str::strip_prefix`.
unfoldable pub strip_prefix : Text → Text → Option Text
strip_prefix [] text = some text
strip_prefix (p ∷ ps) [] = none
strip_prefix (p ∷ ps) (c ∷ cs) = let rest = strip_prefix ps cs in if p == c then rest else none

pub strip_prefix_sound :
    (p text : Text) {rest : Text} → strip_prefix p text ≡ some rest → text ≡ p ++ rest
unfolding strip_prefix
strip_prefix_sound [] text h = ground arith
strip_prefix_sound (p ∷ ps) [] h = absurd (ground arith)
strip_prefix_sound (p ∷ ps) (c ∷ cs) h = elim (Bool-cases (p == c)) [
  | inl e ↦
      let same : p ≡ c = (==_iff p c).0 e in
      let h' = rw e at h in cc (same, strip_prefix_sound ps cs h')
  | inr e ↦ absurd (let h' = rw e at h in cc)
]

-- `str::split` at one character: at least one part.
unfoldable pub split_from : ℕ → Text → Text → List Text
split_from sep part [] = part ∷ []
split_from sep part (c ∷ cs) =
    let ended = part ∷ split_from sep [] cs in
    let inside = split_from sep (part ++ c ∷ []) cs in if c == sep then ended else inside

unfoldable pub split : ℕ → Text → List Text
unfolding split_from
split sep text = split_from sep [] text

-- `join` of parts with one character between them.
unfoldable pub join : ℕ → List Text → Text
join sep [] = []
join sep (p ∷ []) = p
join sep (p ∷ q ∷ parts) = p ++ sep ∷ join sep (q ∷ parts)

-- The text holds no `sep`.
abbrev pub Without : ℕ → Text → Type 0
Without sep text = All (λ c. (c == sep) ≡ false) text

split_from-append :
    (sep : ℕ) (part xs ys : Text)
    → Without sep xs
    → split_from sep part (xs ++ sep ∷ ys) ≡ (part ++ xs) ∷ split_from sep [] ys
unfolding split_from
split_from-append sep part [] ys h = rw ((==_iff sep sep).1 refl, append-nil part) refl
split_from-append sep part (x ∷ xs) ys h =
    rw (h.0, split_from-append sep (part ++ x ∷ []) xs ys h.1, append_assoc part (x ∷ []) xs) refl

-- A part without the separator, and what follows it.
pub split-append :
    (sep : ℕ) (xs ys : Text) → Without sep xs → split sep (xs ++ sep ∷ ys) ≡ xs ∷ split sep ys
unfolding split
split-append sep xs ys h = split_from-append sep [] xs ys h

split_from-alone :
    (sep : ℕ) (part xs : Text) → Without sep xs → split_from sep part xs ≡ (part ++ xs) ∷ []
unfolding split_from
split_from-alone sep part [] h = rw (append-nil part) refl
split_from-alone sep part (x ∷ xs) h =
    rw (h.0, split_from-alone sep (part ++ x ∷ []) xs h.1, append_assoc part (x ∷ []) xs) refl

pub split-alone : (sep : ℕ) (xs : Text) → Without sep xs → split sep xs ≡ xs ∷ []
unfolding split
split-alone sep xs h = split_from-alone sep [] xs h

split_from-cons :
    (sep : ℕ) (part text : Text)
    → (q : Text) × (parts : List Text) × (split_from sep part text ≡ q ∷ parts)
unfolding split_from
split_from-cons sep part [] = (part, [], refl)
split_from-cons sep part (c ∷ cs) = elim (Bool-cases (c == sep)) [
  | inl e ↦ (part, split_from sep [] cs, rw e refl)
  | inr e ↦ rw e (split_from-cons sep (part ++ c ∷ []) cs)
]

join-split_from : (sep : ℕ) (part text : Text) → join sep (split_from sep part text) ≡ part ++ text
unfolding join split_from
join-split_from sep part [] = sym (append-nil part)
join-split_from sep part (c ∷ cs) = elim (Bool-cases (c == sep)) [
  | inl e ↦
      let (q, parts, w) = split_from-cons sep [] cs in
      let same : c ≡ sep = (==_iff c sep).0 e in
      let ih = join-split_from sep [] cs in let ih' = rw w at ih in rw (e, w, ih', same) refl
  | inr e ↦ rw (e, join-split_from sep (part ++ c ∷ []) cs) (append_assoc part (c ∷ []) cs)
]

-- Joining the parts of a split gives the text.
pub join-split : (sep : ℕ) (text : Text) → join sep (split sep text) ≡ text
unfolding split
join-split sep text = join-split_from sep [] text
