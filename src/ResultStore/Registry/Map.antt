-- ===== src/ResultStore/Registry/Map.antt =====
-- The map of results: what a key finds after a removal, and the bytes that the entries add up to.
use slugaudit.Base.{
  ℕ, ◌+◌, ◌≡◌, refl, none, some, List, [], ◌∷◌, arith, ◌==◌, ==_iff, if◌then◌else◌,
}
use slugaudit.ResultStore.Entry.{Entry}
use slugaudit.ResultStore.Registry.{find, remove}

module _ {Conn Json : Type 0} where
  -- The bytes of all entries.
  abbrev pub total : List (ℕ × Entry Conn Json) → ℕ
  total [] = 0
  total ((k, e) ∷ es) = e.bytes + total es

  -- Each key has one entry.
  abbrev pub Distinct : List (ℕ × Entry Conn Json) → Type 0
  Distinct [] = Unit
  Distinct ((k, e) ∷ es) = (find k es ≡ none) × Distinct es

  pub find-remove :
      (k j : ℕ) (es : List (ℕ × Entry Conn Json))
      → Distinct es
      → find j (remove k es) ≡ (if k == j then none else find j es)
  unfolding find remove
  find-remove k j [] d = ground arith
  find-remove k j ((i, e) ∷ es) d =
      ground (arith, find-remove k j es d.1, ==_iff i k, ==_iff i j, ==_iff k j)

  pub remove-Distinct :
      (k : ℕ) (es : List (ℕ × Entry Conn Json)) → Distinct es → Distinct (remove k es)
  unfolding find remove
  remove-Distinct k [] d = tt
  remove-Distinct k ((i, e) ∷ es) d =
      ground (arith, find-remove k i es d.1, remove-Distinct k es d.1)

  pub total-remove :
      (k : ℕ) (es : List (ℕ × Entry Conn Json)) (e : Entry Conn Json)
      → find k es ≡ some e
      → e.bytes + total (remove k es) ≡ total es
  unfolding find remove
  total-remove k [] e h = cc
  total-remove k ((i, x) ∷ es) e h = ground (arith, total-remove k es e)

  pub remove_absent :
      (k : ℕ) (es : List (ℕ × Entry Conn Json)) → find k es ≡ none → remove k es ≡ es
  unfolding find remove
  remove_absent k [] h = refl
  remove_absent k ((i, x) ∷ es) h = ground (arith, remove_absent k es)
