-- ===== src/ResultStore/Registry/Priority.antt =====
-- The order in which results are reclaimed.
use slugaudit.Base.{
  ◌≤◌, ◌≡◌, refl, sym, ◌∙◌, ◌⊎◌, inl, inr, true, false, List, [], ◌∷◌, arith, if◌then◌else◌, leb_ℤ,
  ◌≤ℤ◌, All, All-mono, All-both, Bool-cases,
}
use slugaudit.ResultStore.Entry.{ResultClass, Entry, age_key_le, is_active, is_idle}
use slugaudit.ResultStore.Registry.{Reclaimed, key_le}
use slugaudit.ResultStore.Registry.Plan.{Sorted}

module _ {Conn Json : Type 0} where
  -- Served less recently or, at the same time, registered before.
  abbrev pub Older : Entry Conn Json → Entry Conn Json → Type 0
  Older a b =
      ((a.last_access ≤ℤ b.last_access) × ¬ (b.last_access ≤ℤ a.last_access))
      ⊎ ((a.last_access ≤ℤ b.last_access) × (b.last_access ≤ℤ a.last_access) × (a.seq ≤ b.seq))

  -- A delivered result goes before an idle one; of two of the same class the older one.
  pub data Before (c d : Reclaimed Conn Json) : Type 0 where
    sooner : c.class ≡ ResultClass.delivered → d.class ≡ ResultClass.idle → Before c d
    older : c.class ≡ d.class → Older c.entry d.entry → Before c d

  age_key_le-Older : (a b : Entry Conn Json) → age_key_le a b ≡ true → Older a b
  age_key_le-Older a b h = elim (Bool-cases (leb_ℤ b.last_access a.last_access)) [
    | inl p ↦ elim (Bool-cases (leb_ℤ a.last_access b.last_access)) [
      | inl q ↦ inr (ground arith, ground arith, ground arith)
      | inr q ↦ absurd (ground arith)
    ]
    | inr p ↦ inl (ground arith, ground arith)
  ]

  by_class :
      (x y : ResultClass) (c d : Reclaimed Conn Json)
      → c.class ≡ x
      → d.class ≡ y
      → is_active x ≡ false
      → is_active y ≡ false
      → (if is_idle x
          then (if is_idle y then age_key_le c.entry d.entry else false)
          else (if is_idle y then true else age_key_le c.entry d.entry))
        ≡ true
      → Before c d
  by_class ResultClass.active y c d p q a b h = absurd (cc)
  by_class x ResultClass.active c d p q a b h = absurd (cc)
  by_class ResultClass.idle ResultClass.idle c d p q a b h =
      older (p ∙ sym q) (age_key_le-Older c.entry d.entry h)
  by_class ResultClass.idle ResultClass.delivered c d p q a b h = absurd (cc)
  by_class ResultClass.delivered ResultClass.idle c d p q a b h = sooner p q
  by_class ResultClass.delivered ResultClass.delivered c d p q a b h =
      older (p ∙ sym q) (age_key_le-Older c.entry d.entry h)

  abbrev pub Spare : Reclaimed Conn Json → Type 0
  Spare c = is_active c.class ≡ false

  pub key_le-Before :
      (c d : Reclaimed Conn Json) → Spare c → Spare d → key_le c d ≡ true → Before c d
  key_le-Before c d a b h = by_class c.class d.class c d refl refl a b h

  -- Each result goes before all that follow.
  abbrev pub Ordered : List (Reclaimed Conn Json) → Type 0
  Ordered [] = Unit
  Ordered (c ∷ cs) = All (Before c) cs × Ordered cs

  pub Sorted-Ordered : (cs : List (Reclaimed Conn Json)) → All Spare cs → Sorted cs → Ordered cs
  Sorted-Ordered [] a s = tt
  Sorted-Ordered (c ∷ cs) a s = (
    All-mono _ _ cs (λ d x. key_le-Before c d a.0 x.0 x.1) (All-both _ _ cs a.1 s.0),
    Sorted-Ordered cs a.1 s.1,
  )
