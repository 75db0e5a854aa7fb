-- ===== src/ResultStore/Registry/Plan.antt =====
-- The candidates, their order, and the plan that the loop makes of them.
use slugaudit.Base.{
  ℕ, ◌+◌, ◌-◌, ◌≤◌, ◌<◌, ◌≡◌, refl, ap, inl, inr, true, false, none, some, List, [], ◌∷◌, ◌++◌,
  arith, leb, ◌==◌, sub64, saturating_add, All, All-mono, Bool-cases, Option-cases, u64_max,
}
use slugaudit.ResultStore.Entry.{ResultClass}
use slugaudit.ResultStore.Registry.{Reclaimed, key_le, place, sort_by_key, plan_loop}

module _ {Conn Json : Type 0} where
  -- The bytes of the candidates.
  abbrev pub sum : List (Reclaimed Conn Json) → ℕ
  sum [] = 0
  sum (c ∷ cs) = c.entry.bytes + sum cs

  -- No id stands twice.
  abbrev pub Fresh : ℕ → List (Reclaimed Conn Json) → Type 0
  Fresh k = All λ d. (k == d.id) ≡ false

  abbrev pub Unique : List (Reclaimed Conn Json) → Type 0
  Unique [] = Unit
  Unique (c ∷ cs) = Fresh c.id cs × Unique cs

  -- Every later candidate has a key that is no smaller.
  abbrev pub Sorted : List (Reclaimed Conn Json) → Type 0
  Sorted [] = Unit
  Sorted (c ∷ cs) = All (λ d. key_le c d ≡ true) cs × Sorted cs

  pub All-place :
      (P : Reclaimed Conn Json → Type 0) (c : Reclaimed Conn Json) (cs : List (Reclaimed Conn Json))
      → P c
      → All P cs
      → All P (place c cs)
  unfolding place
  All-place P c [] h k = (h, tt)
  All-place P c (d ∷ ds) h k = elim (Bool-cases (key_le c d)) [
    | inl e ↦ rw e (h, k)
    | inr e ↦ rw e (k.0, All-place P c ds h k.1)
  ]

  pub All-sort :
      (P : Reclaimed Conn Json → Type 0) (cs : List (Reclaimed Conn Json))
      → All P cs
      → All P (sort_by_key cs)
  unfolding sort_by_key
  All-sort P [] h = tt
  All-sort P (c ∷ cs) h = All-place P c (sort_by_key cs) h.0 (All-sort P cs h.1)

  sum-place :
      (c : Reclaimed Conn Json) (cs : List (Reclaimed Conn Json))
      → sum (place c cs) ≡ c.entry.bytes + sum cs
  unfolding place
  sum-place c [] = refl
  sum-place c (d ∷ ds) = ground (arith, sum-place c ds)

  pub sum-sort : (cs : List (Reclaimed Conn Json)) → sum (sort_by_key cs) ≡ sum cs
  unfolding sort_by_key
  sum-sort [] = refl
  sum-sort (c ∷ cs) = omega (arith, sum-place c (sort_by_key cs), sum-sort cs)

  place-Unique :
      (c : Reclaimed Conn Json) (cs : List (Reclaimed Conn Json))
      → Fresh c.id cs
      → Unique cs
      → Unique (place c cs)
  unfolding place
  place-Unique c [] f u = (tt, tt)
  place-Unique c (d ∷ ds) f u = elim (Bool-cases (key_le c d)) [
    | inl e ↦ rw e (f, u)
    | inr e ↦
        rw e (
          All-place (λ x. (d.id == x.id) ≡ false) c ds (ground arith) u.0,
          place-Unique c ds f.1 u.1,
        )
  ]

  pub sort-Unique : (cs : List (Reclaimed Conn Json)) → Unique cs → Unique (sort_by_key cs)
  unfolding sort_by_key
  sort-Unique [] u = tt
  sort-Unique (c ∷ cs) u =
      place-Unique c (sort_by_key cs) (All-sort (λ x. (c.id == x.id) ≡ false) cs u.0)
        (sort-Unique cs u.1)

  key_le_total : (c d : Reclaimed Conn Json) → key_le c d ≡ false → key_le d c ≡ true
  key_le_total c d h = ground arith

  key_le_trans :
      (a b c : Reclaimed Conn Json) → key_le a b ≡ true → key_le b c ≡ true → key_le a c ≡ true
  key_le_trans a b c h k = ground arith

  place-Sorted :
      (c : Reclaimed Conn Json) (cs : List (Reclaimed Conn Json)) → Sorted cs → Sorted (place c cs)
  unfolding place
  place-Sorted c [] s = (tt, tt)
  place-Sorted c (d ∷ ds) s = elim (Bool-cases (key_le c d)) [
    | inl e ↦ rw e ((e, All-mono _ _ ds (λ x. key_le_trans c d x e) s.0), s)
    | inr e ↦
        rw e
          (All-place (λ x. key_le d x ≡ true) c ds (key_le_total c d e) s.0, place-Sorted c ds s.1)
  ]

  -- The sorted candidates stand in the order of their keys.
  pub sort-Sorted : (cs : List (Reclaimed Conn Json)) → Sorted (sort_by_key cs)
  unfolding sort_by_key
  sort-Sorted [] = tt
  sort-Sorted (c ∷ cs) = place-Sorted c (sort_by_key cs) (sort-Sorted cs)

  abbrev pub victims : List (Reclaimed Conn Json) → List (ℕ × ResultClass)
  victims [] = []
  victims (c ∷ cs) = (c.id, c.class) ∷ victims cs

  -- Before each reclaim the new result did not fit.
  abbrev pub Needed : ℕ → ℕ → ℕ → List (Reclaimed Conn Json) → Type 0
  Needed used bytes budget [] = Unit
  Needed used bytes budget (c ∷ cs) =
      (budget < used + bytes) × Needed (used - c.entry.bytes) bytes budget cs

  -- The plan is a first part of the candidates that frees enough, and no more than it must.
  pub record Split (used bytes budget : ℕ) (cs : List (Reclaimed Conn Json))
      (plan : List (ℕ × ResultClass)) : Type 0 where
    pub taken : List (Reclaimed Conn Json)
    pub left : List (Reclaimed Conn Json)
    pub parts : cs ≡ taken ++ left
    pub named : plan ≡ victims taken
    pub fits : used + bytes ≤ budget + sum taken
    pub needed : Needed used bytes budget taken

  pub sum-append : (cs ds : List (Reclaimed Conn Json)) → sum (cs ++ ds) ≡ sum cs + sum ds
  sum-append [] ds = omega arith
  sum-append (c ∷ cs) ds = omega (arith, sum-append cs ds)

module _ {Conn Json : Type 0} (bytes budget : ℕ) (top : budget < u64_max) where
  pub plan_loop-Split :
      (used : ℕ) (cs : List (Reclaimed Conn Json)) (plan : List (ℕ × ResultClass))
      → used ≤ budget
      → bytes ≤ budget
      → sum cs ≤ used
      → budget < used + bytes
      → plan_loop used bytes budget cs ≡ some plan
      → Split used bytes budget cs plan
  unfolding plan_loop
  plan_loop-Split used [] plan u b s w h = cc
  plan_loop-Split used (c ∷ cs) plan u b s w h =
      elim (Bool-cases (leb (saturating_add (sub64 used c.entry.bytes) bytes) budget)) [
        | inl e ↦ record {
          taken = c ∷ [];
          left = cs;
          parts = refl;
          named = ground arith;
          fits = ground arith;
          needed = (w, tt);
        }
        | inr e ↦ elim (Option-cases (plan_loop (sub64 used c.entry.bytes) bytes budget cs)) [
          | inl f ↦ absurd (ground arith)
          | inr (rest, f) ↦
              let d : sub64 used c.entry.bytes ≡ used - c.entry.bytes = omega arith in
              let ih : Split (used - c.entry.bytes) bytes budget cs rest =
                plan_loop-Split (used - c.entry.bytes) cs rest (omega arith) b (omega arith)
                  (ground arith) (rw d at f) in
              record {
                taken = c ∷ ih.taken;
                left = ih.left;
                parts = ap (◌∷◌ c) ih.parts;
                named = ground (arith, ih.named);
                fits = omega (arith, ih.fits);
                needed = (w, ih.needed);
              }
        ]
      ]

  -- Without a plan not even the removal of all candidates makes room.
  pub plan_loop-none :
      (used : ℕ) (cs : List (Reclaimed Conn Json))
      → used ≤ budget
      → bytes ≤ budget
      → sum cs ≤ used
      → budget < used + bytes
      → plan_loop used bytes budget cs ≡ none
      → budget + sum cs < used + bytes
  unfolding plan_loop
  plan_loop-none used [] u b s w h = omega arith
  plan_loop-none used (c ∷ cs) u b s w h =
      elim (Bool-cases (leb (saturating_add (sub64 used c.entry.bytes) bytes) budget)) [
        | inl e ↦ absurd (ground arith)
        | inr e ↦
            let d : sub64 used c.entry.bytes ≡ used - c.entry.bytes = omega arith in
            let g : plan_loop (sub64 used c.entry.bytes) bytes budget cs ≡ none = ground arith in
            let ih : budget + sum cs < (used - c.entry.bytes) + bytes =
              plan_loop-none (used - c.entry.bytes) cs (omega arith) b (omega arith) (ground arith)
                (rw d at g) in
            omega (arith, ih)
      ]
