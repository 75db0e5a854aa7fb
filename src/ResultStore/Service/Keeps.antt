-- ===== src/ResultStore/Service/Keeps.antt =====
-- What each operation of the store keeps: its nonce, its limits, and the registry's validity.
use slugaudit.Base.{
  ℕ, ◌<◌, ◌≡◌, refl, ◌∙◌, inl, inr, Bool, true, false, Option, none, some, ltb, ◌==◌, ℤ, Result, ok,
  err, Bool-cases, u64_max, Text,
}
use slugaudit.ResultStore.Entry.{ResultMeta, Entry}
use slugaudit.ResultStore.Cell.{StoreError, Float, StoredRow, Take}
use slugaudit.ResultStore.Row.{JsonMarks}
use slugaudit.ResultStore.Reader.{PageRows}
use slugaudit.ResultStore.Cursor.{Uuids, Cursor, parse}
use slugaudit.ResultStore.Registry
use slugaudit.ResultStore.Registry.{Registry, Admission, admitted, refused, find}
use slugaudit.ResultStore.Registry.Outcome.{IsValid}
use slugaudit.ResultStore.Registry.Budget.{admit-IsValid}
use slugaudit.ResultStore.Service.{
  ResultStore, with_registry, refuse_cursor, lookup, count_unknown, count_too_large, found_entry,
  decode_cursor, issued_here, admit, admission_result, refuse_too_large,
}
use slugaudit.ResultStore.Service.Stats.{stats}
use slugaudit.ResultStore.Service.Reading.{
  is_complete, Files, read_page, read_entry, read_complete, serve_page, renew_in, is_last,
}
use slugaudit.ResultStore.Service.Renewal.{renew-IsValid}

module _ {Conn Json : Type 0} where
  abbrev pub RegistryValid : ℕ → Option (Registry Conn Json) → Type 0
  RegistryValid budget none = Unit
  RegistryValid budget (some r) = IsValid budget r

  -- The registry, where its lock is not poisoned, keeps to the store's budget.
  abbrev pub StoreValid : ResultStore Conn Json → Type 0
  StoreValid s = RegistryValid s.limits.max_bytes s.registry

  -- No result is registered under the id.
  abbrev pub Unused : ℕ → Option (Registry Conn Json) → Type 0
  Unused id none = Unit
  Unused id (some r) = find id r.entries ≡ none

  -- What an operation keeps.
  pub record Keeps (s s' : ResultStore Conn Json) : Type 0 where
    pub nonce : s'.nonce ≡ s.nonce
    pub limits : s'.limits ≡ s.limits
    pub valid : s.limits.max_bytes < u64_max → StoreValid s → StoreValid s'

  pub Keeps-refl : (s : ResultStore Conn Json) → Keeps s s
  Keeps-refl s = record { nonce = refl; limits = refl; valid = λ b v. v }

  pub Keeps-trans : (s t w : ResultStore Conn Json) → Keeps s t → Keeps t w → Keeps s w
  Keeps-trans s t w a b = record {
    nonce = b.nonce ∙ a.nonce;
    limits = b.limits ∙ a.limits;
    valid = λ h v. b.valid (rw a.limits h) (a.valid h v);
  }

  pub with_registry-Keeps {ℓ} :
      {A : Type ℓ} (change : Registry Conn Json → Registry Conn Json × Result StoreError A)
      (s : ResultStore Conn Json) (o : Option (Registry Conn Json))
      → s.registry ≡ o
      → ((r : Registry Conn Json)
          → s.registry ≡ some r
          → s.limits.max_bytes < u64_max
          → IsValid s.limits.max_bytes r
          → IsValid s.limits.max_bytes (change r).0)
      → Keeps s (with_registry change s o).0
  with_registry-Keeps change s none e h = Keeps-refl s
  with_registry-Keeps change s (some r) e h = record {
    nonce = refl;
    limits = refl;
    valid = λ b v. h r e b (rw e at v);
  }

  counted-IsValid :
      (budget : ℕ) (r : Registry Conn Json) (c : Registry.Counters)
      → IsValid budget r
      → IsValid budget (record r { counters = c })
  counted-IsValid budget r c v = record {
    distinct = v.distinct;
    counted = v.counted;
    within = v.within;
  }

  found_entry-IsValid :
      (budget : ℕ) (r : Registry Conn Json) (o : Option (Entry Conn Json))
      → IsValid budget r
      → IsValid budget (found_entry r o).0
  found_entry-IsValid budget r none v = counted-IsValid budget r _ v
  found_entry-IsValid budget r (some e) v = v

  pub lookup-Keeps : (id : ℕ) (s : ResultStore Conn Json) → Keeps s (lookup id s).0
  unfolding lookup
  lookup-Keeps id s =
      with_registry-Keeps (λ r. found_entry r (find id r.entries)) s s.registry refl
        (λ r e b v. found_entry-IsValid s.limits.max_bytes r (find id r.entries) v)

  pub refuse_cursor-Keeps {ℓ} :
      (A : Type ℓ) (s : ResultStore Conn Json) → Keeps s (refuse_cursor {A = A} s).0
  unfolding refuse_cursor
  refuse_cursor-Keeps A s =
      with_registry-Keeps (λ r. (count_unknown r, err StoreError.unknown)) s s.registry refl
        (λ r e b v. counted-IsValid s.limits.max_bytes r _ v)

  pub refuse_too_large-Keeps {ℓ} :
      (A : Type ℓ) (s : ResultStore Conn Json) → Keeps s (refuse_too_large {A = A} s).0
  unfolding refuse_too_large
  refuse_too_large-Keeps A s =
      with_registry-Keeps (λ r. (count_too_large r, err StoreError.too_large)) s s.registry refl
        (λ r e b v. counted-IsValid s.limits.max_bytes r _ v)

  pub stats-Keeps :
      (now : Result StoreError ℤ) (s : ResultStore Conn Json) → Keeps s (stats now s).0
  unfolding stats
  stats-Keeps (err e) s = Keeps-refl s
  stats-Keeps (ok now) s = with_registry-Keeps _ s s.registry refl (λ r e b v. v)

  admission_result-registry :
      (x : Registry Conn Json × Admission Conn Json) → (admission_result x).0 ≡ x.0
  admission_result-registry (r, admitted _) = refl
  admission_result-registry (r, refused _ _) = refl

  pub admit-Keeps :
      (id : ℕ) (entry : Entry Conn Json) (now : Result StoreError ℤ) (s : ResultStore Conn Json)
      → Unused id s.registry
      → Keeps s (admit id entry now s).0
  unfolding admit
  admit-Keeps id entry (err e) s n = Keeps-refl s
  admit-Keeps id entry (ok now) s n = with_registry-Keeps _ s s.registry refl (λ r e b v.
      rw admission_result-registry (
        admit-IsValid id entry s.limits.max_bytes now s.limits.active_grace_secs r v b (rw e at n)))

  pub issued_here-Keeps :
      (s : ResultStore Conn Json) (o : Option Cursor) → Keeps s (issued_here s o).0
  issued_here-Keeps s none = refuse_cursor-Keeps _ s
  issued_here-Keeps s (some c) = elim (Bool-cases (c.nonce == s.nonce)) [
    | inl h ↦ rw h (Keeps-refl s)
    | inr h ↦ rw h (refuse_cursor-Keeps _ s)
  ]

  pub decode_cursor-Keeps :
      (u : Uuids) (token : Text) (s : ResultStore Conn Json) → Keeps s (decode_cursor u token s).0
  unfolding decode_cursor
  decode_cursor-Keeps u token s = issued_here-Keeps s (parse u token)

  pub renew_in-Keeps :
      (id : ℕ) (now : ℤ) (last_page : Bool) (s : ResultStore Conn Json)
      (o : Option (Registry Conn Json))
      → s.registry ≡ o
      → Keeps s (record s { registry = renew_in id now last_page o })
  renew_in-Keeps id now last_page s none e = record {
    nonce = refl;
    limits = refl;
    valid = λ b v. tt;
  }
  renew_in-Keeps id now last_page s (some r) e = record {
    nonce = refl;
    limits = refl;
    valid = λ b v. renew-IsValid s.limits.max_bytes id now last_page r (rw e at v);
  }

module _ (f : Float) (j : JsonMarks) (files : Files f.F) {Json S : Type 0}
    (accept : S → StoredRow f.F → S × Take) where
  pub serve_page-Keeps :
      (id : ℕ) (meta : ResultMeta Json) (now : Result StoreError ℤ)
      (s : ResultStore files.Conn Json) (page : Result StoreError (PageRows f.F))
      → Keeps s (serve_page f j files accept id meta now s page).0
  serve_page-Keeps id meta now s (err e) = Keeps-refl s
  serve_page-Keeps id meta (err e) s (ok page) = Keeps-refl s
  serve_page-Keeps id meta (ok now) s (ok page) =
      renew_in-Keeps id now (is_last page.next_ord) s s.registry refl

  pub read_complete-Keeps :
      (id : ℕ) (entry : Entry files.Conn Json) (a : S) (from_ord : ℕ) (now : Result StoreError ℤ)
      (s : ResultStore files.Conn Json) (complete : Result StoreError Bool)
      → Keeps s (read_complete f j files accept id entry a from_ord now s complete).0
  read_complete-Keeps id entry a from_ord now s (err e) = Keeps-refl s
  read_complete-Keeps id entry a from_ord now s (ok false) = refuse_cursor-Keeps _ s
  read_complete-Keeps id entry a from_ord now s (ok true) = serve_page-Keeps id entry.meta now s _

  pub read_entry-Keeps :
      (id : ℕ) (a : S) (from_ord : ℕ) (now : Result StoreError ℤ) (s : ResultStore files.Conn Json)
      (found : Result StoreError (Entry files.Conn Json))
      → Keeps s (read_entry f j files accept id a from_ord now (s, found)).0
  read_entry-Keeps id a from_ord now s (err e) = Keeps-refl s
  read_entry-Keeps id a from_ord now s (ok entry) =
      elim (Bool-cases (ltb entry.meta.row_count from_ord)) [
        | inl h ↦ rw h (refuse_cursor-Keeps _ s)
        | inr h ↦ elim (Bool-cases (files.is_poisoned entry.conn)) [
          | inl p ↦ rw (h, p) (Keeps-refl s)
          | inr p ↦
              rw (h, p)
                (read_complete-Keeps id entry a from_ord now s (is_complete files entry.conn))
        ]
      ]

  pub read_page-Keeps :
      (id : ℕ) (a : S) (from_ord : ℕ) (now : Result StoreError ℤ) (s : ResultStore files.Conn Json)
      → Keeps s (read_page f j files accept id a from_ord now s).0
  unfolding read_page
  read_page-Keeps id a from_ord now s =
      Keeps-trans s (lookup id s).0 _ (lookup-Keeps id s)
        (read_entry-Keeps id a from_ord now (lookup id s).0 (lookup id s).1)
