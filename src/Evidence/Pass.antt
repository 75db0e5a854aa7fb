-- ===== src/Evidence/Pass.antt =====
-- One pass over the items of a file: what the budget counts.
use slugaudit.Base.{
  suc, if◌then◌else◌, leb→le, ℕ, ◌+◌, ◌-◌, ◌≤◌, ◌<◌, ◌≡◌, refl, sym, ap, subst, ◌∙◌, ◌⊎◌, inl, inr,
  Bool, true, false, Option, none, some, List, [], ◌∷◌, ◌++◌, arith, ltb, leb, length,
  length-append, filter, saturating_add, Bool-cases, Option-cases, u64_max,
}
use mathlib.Core.List.{append-nil, append_assoc}
use slugaudit.Evidence.{
  Payloads, EvidenceItem, EvidenceLimits, EvidenceBudget, Admission, drop_item, is_stop,
  truncation_marker_reserve_bytes, new_budget, admit, admit_measured, admit_all,
}

module _ (p : Payloads) (limits : EvidenceLimits) where
  -- An item that its own cap lets through.
  abbrev pub fits_item : Option ℕ → Bool
  fits_item none = false
  fits_item (some n) = leb n limits.max_payload_bytes_per_item

  abbrev pub fits : EvidenceItem p → Bool
  fits item = fits_item (p.encoded_len item.payload)

  -- An item over its own cap, and one that has no encoding.
  abbrev pub is_oversized : Option ℕ → Bool
  is_oversized none = false
  is_oversized (some n) = ltb limits.max_payload_bytes_per_item n

  abbrev pub is_unmeasured : Option ℕ → Bool
  is_unmeasured none = true
  is_unmeasured (some n) = false

  abbrev pub count : (Option ℕ → Bool) → List (EvidenceItem p) → ℕ
  count f [] = 0
  count f (item ∷ items) =
      let rest = count f items in if f (p.encoded_len item.payload) then suc rest else rest

  abbrev pub size : Option ℕ → ℕ
  size none = 0
  size (some n) = n

  -- The encoded bytes of a list.
  abbrev pub bytes : List (EvidenceItem p) → ℕ
  bytes [] = 0
  bytes (item ∷ items) = size (p.encoded_len item.payload) + bytes items

  -- A cap on the list was reached at an item: the kept ones fill the places, or the item, within its own
  -- cap, takes more than the bytes that the kept ones leave beside the marker's reserve.
  abbrev pub Reached : List (EvidenceItem p) → EvidenceItem p → Type 0
  Reached seen item =
      (limits.max_items_per_file - 1 ≤ length (filter fits seen))
      ⊎ ((k : ℕ) × (p.encoded_len item.payload ≡ some k)
          × (k ≤ limits.max_payload_bytes_per_item)
          × (limits.max_payload_bytes_per_file - truncation_marker_reserve_bytes
              < bytes (filter fits seen) + k))

  -- The pass has seen the items `seen`.
  pub record Seen (b : EvidenceBudget p) (seen : List (EvidenceItem p)) : Type 0 where
    pub kept_are : b.kept ≡ filter fits seen
    pub counted : length seen ≡ length b.kept + b.oversized_dropped + b.unmeasurable_dropped
    pub oversized : b.oversized_dropped ≡ count is_oversized seen
    pub unmeasured : b.unmeasurable_dropped ≡ count is_unmeasured seen
    pub measured : b.cumulative_bytes ≡ bytes b.kept
    pub in_bytes : b.cumulative_bytes ≤ b.max_bytes
    pub in_items : length b.kept ≤ b.max_items
    pub items_cap : b.max_items ≡ limits.max_items_per_file - 1
    pub bytes_cap :
        b.max_bytes ≡ limits.max_payload_bytes_per_file - truncation_marker_reserve_bytes
    pub item_cap : b.max_payload_bytes_per_item ≡ limits.max_payload_bytes_per_item

  -- The pass ends after `seen`; it leaves `rest` exactly when a cap on the whole list was reached.
  pub record Ended (b : EvidenceBudget p) (items : List (EvidenceItem p)) : Type 0 where
    pub seen : List (EvidenceItem p)
    pub rest : List (EvidenceItem p)
    pub parts : items ≡ seen ++ rest
    pub facts : Seen b seen
    pub ends :
        ((b.limit_truncated ≡ false) × (rest ≡ []))
        ⊎ ((b.limit_truncated ≡ true)
            × (item : EvidenceItem p) × (items' : List (EvidenceItem p)) × (rest ≡ item ∷ items')
            × Reached seen item)

  filter-append :
      (xs ys : List (EvidenceItem p)) → filter fits (xs ++ ys) ≡ filter fits xs ++ filter fits ys
  filter-append [] ys = refl
  filter-append (x ∷ xs) ys = ground (arith, filter-append xs ys)

  pub bytes-append : (xs ys : List (EvidenceItem p)) → bytes (xs ++ ys) ≡ bytes xs + bytes ys
  bytes-append [] ys = omega arith
  bytes-append (x ∷ xs) ys = omega (arith, bytes-append xs ys)

  count-snoc :
      (f : Option ℕ → Bool) (xs : List (EvidenceItem p)) (x : EvidenceItem p) (b : Bool)
      → f (p.encoded_len x.payload) ≡ b
      → count f (xs ++ x ∷ []) ≡ count f xs + (if b then 1 else 0)
  count-snoc f [] x b h = rw h (elim b [ true ↦ omega arith | false ↦ omega arith ])
  count-snoc f (y ∷ xs) x b h = ground (arith, count-snoc f xs x b h)

  -- What one call of `admit` does to the facts.
  abbrev Step :
      EvidenceBudget p
      → List (EvidenceItem p)
      → EvidenceItem p
      → EvidenceBudget p × Admission
      → Type 0
  Step b seen item (b', a) =
      ((is_stop a ≡ false) × (b'.limit_truncated ≡ b.limit_truncated) × Seen b' (seen ++ item ∷ []))
      ⊎ ((is_stop a ≡ true) × (b'.limit_truncated ≡ true) × Seen b' seen × Reached seen item)

  filter-snoc_out :
      (xs : List (EvidenceItem p)) (x : EvidenceItem p)
      → fits x ≡ false
      → filter fits (xs ++ x ∷ []) ≡ filter fits xs
  filter-snoc_out xs x h = filter-append xs (x ∷ []) ∙ rw h (append-nil _)

  filter-snoc_in :
      (xs : List (EvidenceItem p)) (x : EvidenceItem p)
      → fits x ≡ true
      → filter fits (xs ++ x ∷ []) ≡ filter fits xs ++ x ∷ []
  filter-snoc_in xs x h = filter-append xs (x ∷ []) ∙ rw h

  saturated :
      (b : EvidenceBudget p) (k : ℕ)
      → b.max_bytes < u64_max
      → ltb b.max_bytes (saturating_add b.cumulative_bytes k) ≡ true
      → b.max_bytes < b.cumulative_bytes + k
  saturated b k top g = ground arith

  admit_measured-Step :
      (b : EvidenceBudget p) (seen : List (EvidenceItem p)) (item : EvidenceItem p) (k : ℕ)
      → b.max_bytes < u64_max
      → length b.kept < b.max_items
      → p.encoded_len item.payload ≡ some k
      → Seen b seen
      → Step b seen item (admit_measured p b item k)
  unfolding admit_measured
  admit_measured-Step b seen item k top room n i =
      elim (Bool-cases (ltb b.max_payload_bytes_per_item k)) [
        | inl e ↦ rw e (
            inl (
              refl,
              refl,
              record {
                kept_are =
                    i.kept_are
                    ∙ sym (filter-snoc_out seen item (rw n (ground (arith, i.item_cap))));
                counted = omega (arith, i.counted, length-append seen (item ∷ []));
                oversized = omega (
                  arith,
                  i.oversized,
                  count-snoc is_oversized seen item true (rw n (ground (arith, i.item_cap))),
                );
                unmeasured =
                    omega
                      (arith, i.unmeasured, count-snoc is_unmeasured seen item false (rw n refl));
                measured = i.measured;
                in_bytes = i.in_bytes;
                in_items = i.in_items;
                items_cap = i.items_cap;
                bytes_cap = i.bytes_cap;
                item_cap = i.item_cap;
              },
            ))
        | inr e ↦ rw e (elim (Bool-cases (ltb b.max_bytes (saturating_add b.cumulative_bytes k))) [
          | inl g ↦ rw g (
              inr (
                refl,
                refl,
                record {
                  kept_are = i.kept_are;
                  counted = i.counted;
                  oversized = i.oversized;
                  unmeasured = i.unmeasured;
                  measured = i.measured;
                  in_bytes = i.in_bytes;
                  in_items = i.in_items;
                  items_cap = i.items_cap;
                  bytes_cap = i.bytes_cap;
                  item_cap = i.item_cap;
                },
                inr (
                  k,
                  n,
                  ground (arith, i.item_cap),
                  let m = ap bytes i.kept_are in
                      omega (arith, saturated b k top g, i.measured, i.bytes_cap, m),
                ),
              ))
          | inr g ↦ rw g (
              inl (
                refl,
                refl,
                record {
                  kept_are =
                      ap (λ (l : List (EvidenceItem p)). l ++ item ∷ []) i.kept_are
                      ∙ sym (filter-snoc_in seen item (rw n (ground (arith, i.item_cap))));
                  counted = omega (
                    arith,
                    i.counted,
                    length-append seen (item ∷ []),
                    length-append b.kept (item ∷ []),
                  );
                  oversized = omega (
                    arith,
                    i.oversized,
                    count-snoc is_oversized seen item false (rw n (ground (arith, i.item_cap))),
                  );
                  unmeasured =
                      omega
                        (arith, i.unmeasured, count-snoc is_unmeasured seen item false (rw n refl));
                  measured = rw (bytes-append b.kept (item ∷ []), n) (omega (arith, i.measured));
                  in_bytes = ground arith;
                  in_items = omega (arith, length-append b.kept (item ∷ []));
                  items_cap = i.items_cap;
                  bytes_cap = i.bytes_cap;
                  item_cap = i.item_cap;
                },
              ))
        ])
      ]

  admit-Step :
      (b : EvidenceBudget p) (seen : List (EvidenceItem p)) (item : EvidenceItem p)
      → b.max_bytes < u64_max
      → Seen b seen
      → Step b seen item (admit p b item)
  unfolding admit
  admit-Step b seen item top i = elim (Bool-cases (leb b.max_items (length b.kept))) [
    | inl e ↦ rw e (
        inr (
          refl,
          refl,
          record {
            kept_are = i.kept_are;
            counted = i.counted;
            oversized = i.oversized;
            unmeasured = i.unmeasured;
            measured = i.measured;
            in_bytes = i.in_bytes;
            in_items = i.in_items;
            items_cap = i.items_cap;
            bytes_cap = i.bytes_cap;
            item_cap = i.item_cap;
          },
          inl (
              omega
                (arith, leb→le b.max_items (length b.kept) e, i.items_cap, ap length i.kept_are)),
        ))
    | inr e ↦ rw e (elim (Option-cases (p.encoded_len item.payload)) [
      | inl n ↦ rw n (
          inl (
            refl,
            refl,
            record {
              kept_are = i.kept_are ∙ sym (filter-snoc_out seen item (rw n));
              counted = omega (arith, i.counted, length-append seen (item ∷ []));
              oversized =
                  omega (arith, i.oversized, count-snoc is_oversized seen item false (rw n refl));
              unmeasured =
                  omega (arith, i.unmeasured, count-snoc is_unmeasured seen item true (rw n refl));
              measured = i.measured;
              in_bytes = i.in_bytes;
              in_items = i.in_items;
              items_cap = i.items_cap;
              bytes_cap = i.bytes_cap;
              item_cap = i.item_cap;
            },
          ))
      | inr (k, n) ↦
          subst
            (λ (x : Option ℕ). Step b seen item (elim x [
              | none ↦ (record b { unmeasurable_dropped = b.unmeasurable_dropped + 1 }, drop_item)
              | some payload_bytes ↦ admit_measured p b item payload_bytes
            ]))
            (sym n) (admit_measured-Step b seen item k top (ground arith) n i)
    ])
  ]

  pub admit_all-Ended :
      (b : EvidenceBudget p) (seen items : List (EvidenceItem p))
      → b.max_bytes < u64_max
      → b.limit_truncated ≡ false
      → Seen b seen
      → Ended (admit_all p b items) (seen ++ items)
  unfolding admit_all
  admit_all-Ended b seen [] top l i = record {
    seen = seen;
    rest = [];
    parts = refl;
    facts = i;
    ends = inl (l, refl);
  }
  admit_all-Ended b seen (item ∷ items) top l i = elim (admit-Step b seen item top i) [
    | inr (s, t, i', reached) ↦
        rw (s, admit_all)
          (record {
            seen = seen;
            rest = item ∷ items;
            parts = refl;
            facts = i';
            ends = inr (t, item, items, refl, reached);
          })
    | inl (s, t, i') ↦
        rw (s, admit_all)
          (subst (Ended _) (append_assoc seen (item ∷ []) items) (
            admit_all-Ended (admit p b item).0 (seen ++ item ∷ []) items
              (omega (arith, i'.bytes_cap, i.bytes_cap)) (t ∙ l) i'))
  ]

  -- The pass from an empty budget.
  pub from_start :
      (items : List (EvidenceItem p))
      → limits.max_payload_bytes_per_file < u64_max
      → Ended (admit_all p (new_budget p limits) items) items
  unfolding new_budget
  from_start items top = admit_all-Ended (new_budget p limits) [] items (omega arith) refl (record {
    kept_are = refl;
    counted = omega arith;
    oversized = refl;
    unmeasured = refl;
    measured = refl;
    in_bytes = omega arith;
    in_items = omega arith;
    items_cap = refl;
    bytes_cap = refl;
    item_cap = refl;
  })
