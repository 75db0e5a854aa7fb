-- ===== src/ResultStore/Service/Issued.antt =====
-- The cursors that a store accepts.
use slugaudit.Base.{
  ◌≡◌, sym, ap, ◌∙◌, inl, inr, Option, none, some, ◌==◌, ==_iff, ok, err, Bool-cases, Text,
}
use slugaudit.ResultStore.Cell.{StoreError}
use slugaudit.ResultStore.Cursor.{Uuids, Cursor, parse, to_string}
use slugaudit.ResultStore.Cursor.Codec.{to_string-parse}
use slugaudit.ResultStore.Registry.{Registry}
use slugaudit.ResultStore.Service.{
  ResultStore, with_registry, refuse_cursor, count_unknown, decode_cursor, issued_here,
}

module _ {Conn Json : Type 0} where
  refused_result {ℓ} :
      {A : Type ℓ} (s : ResultStore Conn Json) (o : Option (Registry Conn Json))
      {t : ResultStore Conn Json} {a : A}
      → with_registry (λ r. (count_unknown r, err StoreError.unknown)) s o ≡ (t, ok a)
      → ⊥
  refused_result s none h = cc
  refused_result s (some r) h = cc

  pub refuse_cursor-err {ℓ} :
      {A : Type ℓ} (s : ResultStore Conn Json) {t : ResultStore Conn Json} {a : A}
      → refuse_cursor s ≡ (t, ok a)
      → ⊥
  unfolding refuse_cursor
  refuse_cursor-err s h = refused_result s s.registry h

  issued_here_sound :
      (s : ResultStore Conn Json) (o : Option Cursor) {t : ResultStore Conn Json} {c : Cursor}
      → issued_here s o ≡ (t, ok c)
      → (o ≡ some c) × (c.nonce ≡ s.nonce) × (t ≡ s)
  issued_here_sound s none h = absurd (refuse_cursor-err s h)
  issued_here_sound s (some d) {t} {c} h = elim (Bool-cases (d.nonce == s.nonce)) [
    | inl e ↦
        let h' = rw e at h in
        let n = (==_iff d.nonce s.nonce).0 e in
        let same : d ≡ c = cc in (ap some same, sym (ap (λ (x : Cursor). x.nonce) same) ∙ n, cc)
    | inr e ↦ absurd (refuse_cursor-err s (rw e at h))
  ]

  -- A store accepts only the exact token of a cursor that carries its own nonce, and accepting it
  -- changes nothing.
  pub decode_cursor_sound :
      (u : Uuids) (token : Text) (s : ResultStore Conn Json) {t : ResultStore Conn Json}
      {c : Cursor}
      → decode_cursor u token s ≡ (t, ok c)
      → (to_string u c ≡ token) × (c.nonce ≡ s.nonce) × (t ≡ s)
  unfolding decode_cursor
  decode_cursor_sound u token s h =
      let (p, n, e) = issued_here_sound s (parse u token) h in ((to_string-parse u token p).0, n, e)
