-- ===== src/Evidence/Caps.antt =====
-- What the caps promise about the stored list.
use slugaudit.Evidence.Marker.{Compact, marker_le_reserve}
use slugaudit.Base.{
  u64_mod, ℕ, ◌+◌, ◌≤◌, ◌<◌, ◌≡◌, refl, sym, ap, subst, ◌∙◌, ◌⊎◌, inl, inr, Bool, true, false, ◌||◌,
  List, [], ◌∷◌, ◌++◌, arith, ltb, if◌then◌else◌, length, length-append, filter, Bool-cases,
  u64_max,
}
use mathlib.Core.List.{append-nil}
use slugaudit.Evidence.{
  Payloads, EvidenceItem, EvidenceLimits, EvidenceBudget, truncation_marker_reserve_bytes,
  truncation_evidence, new_budget, admit_all, anything_discarded, apply_evidence_limits,
}
use slugaudit.Evidence.Pass.{
  fits, is_oversized, is_unmeasured, count, Reached, size, bytes, Ended, bytes-append, from_start,
}

ltb_zero : (n : ℕ) → ltb 0 n ≡ false → n ≡ 0
ltb_zero n h = ground arith

module _ (p : Payloads) (limits : EvidenceLimits) where
  length-filter-le : (xs : List (EvidenceItem p)) → length (filter (fits p limits) xs) ≤ length xs
  length-filter-le [] = omega arith
  length-filter-le (x ∷ xs) = ground (arith, length-filter-le xs)

  filter_all :
      (xs : List (EvidenceItem p))
      → length (filter (fits p limits) xs) ≡ length xs
      → filter (fits p limits) xs ≡ xs
  filter_all [] h = refl
  filter_all (x ∷ xs) h = ground (arith, length-filter-le xs, filter_all xs)

  -- Why items are missing: all were seen and some were dropped, or a cap was reached at the next one.
  abbrev pub Why : List (EvidenceItem p) → List (EvidenceItem p) → Type 0
  Why seen rest =
      ((rest ≡ [])
        × (0
            < count p limits (is_oversized p limits) seen
              + count p limits (is_unmeasured p limits) seen))
      ⊎ ((item : EvidenceItem p) × (items : List (EvidenceItem p)) × (rest ≡ item ∷ items)
          × Reached p limits seen item)

  -- The stored list: all the items, or those kept of the items that were seen and one marker.
  pub data Stored (items : List (EvidenceItem p)) : List (EvidenceItem p) × Bool → Type 0 where
    whole : Stored items (items, false)
    cut :
        (seen rest : List (EvidenceItem p))
        → items ≡ seen ++ rest
        → length items
          ≡ length (filter (fits p limits) seen)
            + count p limits (is_oversized p limits) seen
            + count p limits (is_unmeasured p limits) seen
            + length rest
        → Why seen rest
        → Stored items (
          filter (fits p limits) seen
              ++ truncation_evidence p
                  (length items)
                  (length (filter (fits p limits) seen))
                  (count p limits (is_oversized p limits) seen)
                  (count p limits (is_unmeasured p limits) seen)
                ∷ [],
          true,
        )

  finish-Stored :
      (b : EvidenceBudget p) (items : List (EvidenceItem p))
      → Ended p limits b items
      → Stored items (
          if anything_discarded p b
          then (
            b.kept
                ++ truncation_evidence p
                    (length items)
                    (length b.kept)
                    b.oversized_dropped
                    b.unmeasurable_dropped
                  ∷ [],
            true,
          )
          else (b.kept, false))
  unfolding anything_discarded
  finish-Stored b items e =
      elim (Bool-cases
        (b.limit_truncated || ltb 0 b.oversized_dropped || ltb 0 b.unmeasurable_dropped)) [
          | inl d ↦
              rw (d, e.facts.kept_are, e.facts.oversized, e.facts.unmeasured)
                (cut e.seen e.rest e.parts
                  (ap length e.parts
                    ∙ length-append e.seen e.rest
                    ∙ omega (
                      arith,
                      e.facts.counted,
                      e.facts.oversized,
                      e.facts.unmeasured,
                      ap length e.facts.kept_are,
                    ))
                  (why e.ends d))
          | inr d ↦ rw d (
              subst (λ (l : List (EvidenceItem p)). Stored items (l, false))
                (sym (nothing_dropped d e.ends)) whole)
        ]
    where
      why :
          ((b.limit_truncated ≡ false) × (e.rest ≡ []))
            ⊎ ((b.limit_truncated ≡ true)
                × (item : EvidenceItem p) × (rest : List (EvidenceItem p)) × (e.rest ≡ item ∷ rest)
                × Reached p limits e.seen item)
          → (b.limit_truncated || ltb 0 b.oversized_dropped || ltb 0 b.unmeasurable_dropped) ≡ true
          → Why e.seen e.rest
      why (inl (l, r)) d =
          inl (r, rw (sym e.facts.oversized, sym e.facts.unmeasured) (ground arith))
      why (inr (l, item, rest, r, reached)) d = inr (item, rest, r, reached)

      nothing_dropped :
          (b.limit_truncated || ltb 0 b.oversized_dropped || ltb 0 b.unmeasurable_dropped) ≡ false
          → ((b.limit_truncated ≡ false) × (e.rest ≡ []))
            ⊎ ((b.limit_truncated ≡ true)
                × (item : EvidenceItem p) × (rest : List (EvidenceItem p)) × (e.rest ≡ item ∷ rest)
                × Reached p limits e.seen item)
          → b.kept ≡ items
      nothing_dropped d (inr (x, item, rest, r, reached)) = absurd (ground arith)
      nothing_dropped d (inl (x, y)) =
          e.facts.kept_are
          ∙ filter_all e.seen (
              omega (
                arith,
                e.facts.counted,
                ap length e.facts.kept_are,
                ltb_zero b.oversized_dropped (ground arith),
                ltb_zero b.unmeasurable_dropped (ground arith),
              ))
          ∙ sym (append-nil e.seen)
          ∙ ap (◌++◌ e.seen) (sym y)
          ∙ sym e.parts

  -- With a byte cap below the largest `u64`: unless something is discarded the stored list is the
  -- given one. Otherwise it holds, in order, the items that fit their own cap out of a first part of
  -- the list, and one marker with the number of items in that part that are too large, the number that
  -- cannot be measured, and the number of items behind it. There are items behind it only where the
  -- next one reaches a cap: the places are full, or it is within its own cap and exceeds the bytes left.
  pub apply-Stored :
      (items : List (EvidenceItem p))
      → limits.max_payload_bytes_per_file < u64_max
      → Stored items (apply_evidence_limits p items limits)
  unfolding apply_evidence_limits
  apply-Stored items top = finish-Stored _ items (from_start p limits items top)

  finish_bounds :
      (b : EvidenceBudget p) (items : List (EvidenceItem p))
      → Ended p limits b items
      → 0 < limits.max_items_per_file
      → truncation_marker_reserve_bytes ≤ limits.max_payload_bytes_per_file
      → (marker : EvidenceItem p)
      → size p limits (p.encoded_len marker.payload) ≤ truncation_marker_reserve_bytes
      → (d : Bool)
      → (length (
            let r : List (EvidenceItem p) × Bool =
              if d then (b.kept ++ marker ∷ [], true) else (b.kept, false) in
            r.0)
          ≤ limits.max_items_per_file)
        × (bytes p limits (
              let r : List (EvidenceItem p) × Bool =
                if d then (b.kept ++ marker ∷ [], true) else (b.kept, false) in
              r.0)
            ≤ limits.max_payload_bytes_per_file)
  finish_bounds b items e h k marker m true = (
    omega (arith, length-append b.kept (marker ∷ []), e.facts.in_items, e.facts.items_cap),
    omega (
      arith,
      bytes-append p limits b.kept (marker ∷ []),
      e.facts.in_bytes,
      e.facts.bytes_cap,
      e.facts.measured,
    ),
  )
  finish_bounds b items e h k marker m false = (
    omega (arith, e.facts.in_items, e.facts.items_cap),
    omega (arith, e.facts.in_bytes, e.facts.bytes_cap, e.facts.measured),
  )

  -- With caps of at least one item and at least the marker's reserve, the byte cap below the largest
  -- `u64`, a `u64` number of items, and serde_json's compact form of a marker: the stored list, its
  -- marker included, has at most `max_items_per_file` items and at most `max_payload_bytes_per_file`
  -- encoded bytes.
  pub apply_bounds :
      (items : List (EvidenceItem p))
      → limits.max_payload_bytes_per_file < u64_max
      → 0 < limits.max_items_per_file
      → truncation_marker_reserve_bytes ≤ limits.max_payload_bytes_per_file
      → length items < u64_mod
      → Compact p
      → (length (apply_evidence_limits p items limits).0 ≤ limits.max_items_per_file)
        × (bytes p limits (apply_evidence_limits p items limits).0
            ≤ limits.max_payload_bytes_per_file)
  unfolding apply_evidence_limits
  apply_bounds items top h k few c =
      let b = admit_all p (new_budget p limits) items in
      let e = from_start p limits items top in
      let whole : length items ≡ length e.seen + length e.rest =
        ap length e.parts ∙ length-append e.seen e.rest in
      finish_bounds b items e h k
        (truncation_evidence p (length items) (length b.kept) b.oversized_dropped
          b.unmeasurable_dropped)
        (marker_le_reserve p limits (length items) (length b.kept) b.oversized_dropped
          b.unmeasurable_dropped c few (omega (arith, whole, e.facts.counted))
          (omega (arith, whole, e.facts.counted)) (omega (arith, whole, e.facts.counted)))
        (anything_discarded p b)
