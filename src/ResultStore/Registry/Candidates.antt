-- ===== src/ResultStore/Registry/Candidates.antt =====
-- Which entries are candidates for reclaiming.
use slugaudit.Base.{
  ℕ, ◌+◌, ◌≡◌, refl, inl, inr, false, none, some, List, [], ◌∷◌, arith, ==_iff, if◌then◌else◌, ℤ,
  All, All-mono, Bool-cases,
}
use slugaudit.ResultStore.Entry.{Entry, class, is_active}
use slugaudit.ResultStore.Registry.{Reclaimed, find, candidates}
use slugaudit.ResultStore.Registry.Map.{total, Distinct}
use slugaudit.ResultStore.Registry.Plan.{sum, Fresh, Unique}

module _ {Conn Json : Type 0} where
  -- A candidate stands in the map, under its class, which is not `Active`.
  pub record IsBacked (now : ℤ) (grace : ℕ) (es : List (ℕ × Entry Conn Json))
      (c : Reclaimed Conn Json) : Type 0 where
    pub found : find c.id es ≡ some c.entry
    pub classed : class c.entry now grace ≡ c.class
    pub spare : is_active c.class ≡ false

  -- The bytes of the active entries.
  abbrev pub active_bytes : ℤ → ℕ → List (ℕ × Entry Conn Json) → ℕ
  active_bytes now grace [] = 0
  active_bytes now grace ((k, e) ∷ es) =
      (if is_active (class e now grace) then e.bytes else 0) + active_bytes now grace es

module _ {Conn Json : Type 0} (now : ℤ) (grace : ℕ) where
  pub sum-candidates :
      (es : List (ℕ × Entry Conn Json))
      → active_bytes now grace es + sum (candidates now grace es) ≡ total es
  unfolding candidates
  sum-candidates [] = refl
  sum-candidates ((k, e) ∷ es) = ground (arith, sum-candidates es)

  Fresh-candidates :
      (k : ℕ) (es : List (ℕ × Entry Conn Json))
      → find k es ≡ none
      → Fresh k (candidates now grace es)
  unfolding candidates find
  Fresh-candidates k [] h = tt
  Fresh-candidates k ((j, e) ∷ es) h = ground (arith, Fresh-candidates k es, ==_iff k j, ==_iff j k)

  pub candidates-Unique :
      (es : List (ℕ × Entry Conn Json)) → Distinct es → Unique (candidates now grace es)
  unfolding candidates
  candidates-Unique [] d = tt
  candidates-Unique ((j, e) ∷ es) d = elim (Bool-cases (is_active (class e now grace))) [
    | inl a ↦ rw a (candidates-Unique es d.1)
    | inr a ↦ rw a (Fresh-candidates j es d.0, candidates-Unique es d.1)
  ]

  IsBacked-cons :
      (k : ℕ) (e : Entry Conn Json) (es : List (ℕ × Entry Conn Json))
      → find k es ≡ none
      → (c : Reclaimed Conn Json) → IsBacked now grace es c
      → IsBacked now grace ((k, e) ∷ es) c
  unfolding find
  IsBacked-cons k e es h c b = record {
    found = ground (arith, ==_iff k c.id, b.found);
    classed = b.classed;
    spare = b.spare;
  }

  pub candidates-IsBacked :
      (es : List (ℕ × Entry Conn Json))
      → Distinct es
      → All (IsBacked now grace es) (candidates now grace es)
  unfolding candidates find
  candidates-IsBacked [] d = tt
  candidates-IsBacked ((j, e) ∷ es) d =
      let rest =
        All-mono _ (IsBacked now grace ((j, e) ∷ es)) (candidates now grace es)
          (IsBacked-cons j e es d.0) (candidates-IsBacked es d.1) in
      elim (Bool-cases (is_active (class e now grace))) [
        | inl a ↦ rw a rest
        | inr a ↦
            rw a (record { found = ground (arith, ==_iff j j); classed = refl; spare = a }, rest)
      ]
