-- ===== src/ResultStore/Registry/Reclaim.antt =====
-- Carrying a plan out: what is left of the map, and what is handed back.
use mathlib.Core.List.{append-nil, append_assoc}
use slugaudit.Base.{
  ℕ, ◌+◌, ◌≤◌, ◌≡◌, refl, ap, ◌∙◌, Bool, true, false, none, some, List, [], ◌∷◌, ◌++◌, arith, ◌==◌,
  if◌then◌else◌, sub64, All, u64_max,
}
use slugaudit.ResultStore.Entry.{Entry}
use slugaudit.ResultStore.Registry.{
  Registry, Reclaimed, find, remove, reclaim_one, reclaim_all, count_reclaimed,
}
use slugaudit.ResultStore.Registry.Map.{total, Distinct, find-remove, remove-Distinct, total-remove}
use slugaudit.ResultStore.Registry.Plan.{sum, Fresh, Unique, victims}

module _ {Conn Json : Type 0} where
  abbrev pub among : ℕ → List (Reclaimed Conn Json) → Bool
  among k [] = false
  among k (c ∷ cs) = if c.id == k then true else among k cs

  -- The map and the byte count agree.
  pub record IsCounted (r : Registry Conn Json) : Type 0 where
    pub distinct : Distinct r.entries
    pub counted : r.admitted_bytes ≡ total r.entries
    pub below : r.admitted_bytes ≤ u64_max

  -- What a plan does, whose victims `cs` all stand in the map.
  pub record Reclaims (r r' : Registry Conn Json) (cs : List (Reclaimed Conn Json)) : Type 0 where
    pub sound : IsCounted r'
    pub freed : r'.admitted_bytes + sum cs ≡ r.admitted_bytes
    pub finds : (k : ℕ) → find k r'.entries ≡ (if among k cs then none else find k r.entries)
    pub seqs : r'.next_seq ≡ r.next_seq

  abbrev Standing : List (ℕ × Entry Conn Json) → Reclaimed Conn Json → Type 0
  Standing es c = find c.id es ≡ some c.entry

  one : Registry Conn Json → Reclaimed Conn Json → Registry Conn Json
  one r c = record r {
    entries = remove c.id r.entries;
    admitted_bytes = sub64 r.admitted_bytes c.entry.bytes;
    counters = count_reclaimed c.class r.counters;
  }

  reclaim_one_lem :
      (r : Registry Conn Json) (out : List (Reclaimed Conn Json)) (c : Reclaimed Conn Json)
      → find c.id r.entries ≡ some c.entry
      → reclaim_one (r, out) (c.id, c.class) ≡ (one r c, out ++ c ∷ [])
  unfolding reclaim_one one
  reclaim_one_lem r out c h = rw (h, reclaim_one)

  one-IsCounted :
      (r : Registry Conn Json) (c : Reclaimed Conn Json)
      → IsCounted r
      → find c.id r.entries ≡ some c.entry
      → IsCounted (one r c) × ((one r c).admitted_bytes + c.entry.bytes ≡ r.admitted_bytes)
  unfolding one
  one-IsCounted r c i h =
      let t : c.entry.bytes + total (remove c.id r.entries) ≡ total r.entries =
        total-remove c.id r.entries c.entry h in
      (
        record {
          distinct = remove-Distinct c.id r.entries i.distinct;
          counted = omega (arith, t, i.counted, i.below);
          below = omega (arith, t, i.counted, i.below);
        },
        omega (arith, t, i.counted, i.below),
      )

  Standing-one :
      (r : Registry Conn Json) (c d : Reclaimed Conn Json)
      → Distinct r.entries
      → (c.id == d.id) ≡ false
      → Standing r.entries d
      → Standing (one r c).entries d
  unfolding one
  Standing-one r c d i n h = rw (find-remove c.id d.id r.entries i, n) h

  All-Standing-one :
      (r : Registry Conn Json) (c : Reclaimed Conn Json) (cs : List (Reclaimed Conn Json))
      → Distinct r.entries
      → Fresh c.id cs
      → All (Standing r.entries) cs
      → All (Standing (one r c).entries) cs
  All-Standing-one r c [] i f h = tt
  All-Standing-one r c (d ∷ ds) i f h =
      (Standing-one r c d i f.0 h.0, All-Standing-one r c ds i f.1 h.1)

  Reclaims-cons :
      (r : Registry Conn Json) (c : Reclaimed Conn Json) (r' : Registry Conn Json)
      (cs : List (Reclaimed Conn Json))
      → IsCounted r
      → (one r c).admitted_bytes + c.entry.bytes ≡ r.admitted_bytes
      → Reclaims (one r c) r' cs
      → Reclaims r r' (c ∷ cs)
  unfolding one
  Reclaims-cons r c r' cs i f w = record {
    sound = w.sound;
    freed = omega (arith, w.freed);
    finds = λ k. ground (arith, w.finds k, find-remove c.id k r.entries i.distinct);
    seqs = w.seqs;
  }

  pub reclaim_all-Reclaims :
      (r : Registry Conn Json) (out cs : List (Reclaimed Conn Json))
      → IsCounted r
      → Unique cs
      → All (Standing r.entries) cs
      → (r' : Registry Conn Json) × (reclaim_all (r, out) (victims cs) ≡ (r', out ++ cs))
        × Reclaims r r' cs
  unfolding reclaim_all
  reclaim_all-Reclaims r out [] i u s =
      (r, rw append-nil, record { sound = i; freed = omega arith; finds = λ k. refl; seqs = refl })
  reclaim_all-Reclaims r out (c ∷ cs) i u s =
      let (i', f) = one-IsCounted r c i s.0 in
      let (r', e, w) =
        reclaim_all-Reclaims (one r c) (out ++ c ∷ []) cs i' u.1
          (All-Standing-one r c cs i.distinct u.0 s.1) in
      (
        r',
        ap (λ x. reclaim_all x (victims cs)) (reclaim_one_lem r out c s.0)
            ∙ e
            ∙ ap {B = Registry Conn Json × List (Reclaimed Conn Json)} (λ x. (r', x))
                (append_assoc out (c ∷ []) cs),
        Reclaims-cons r c r' cs i f w,
      )
