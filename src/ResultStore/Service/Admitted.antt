-- ===== src/ResultStore/Service/Admitted.antt =====
-- A result that the store admits is registered under its id.
use slugaudit.Base.{
  ℕ, ◌≡◌, refl, sym, ap, subst, inl, inr, Option, none, some, ltb, ==_iff, ℤ, Result, ok, err,
  Bool-cases,
}
use slugaudit.ResultStore.Entry.{Entry}
use slugaudit.ResultStore.Cell.{StoreError}
use slugaudit.ResultStore.Registry
use slugaudit.ResultStore.Registry.{
  Registry, Admission, Planned, planned, unplanned, admitted, refused, find, insert, enter,
  carry_out, plan_reclaim,
}
use slugaudit.ResultStore.Service.{ResultStore, with_registry, admission_result, admit}

module _ {Conn Json : Type 0} where
  -- The entry under the id, with the sequence number it was given.
  abbrev pub Entered : ℕ → Entry Conn Json → Registry Conn Json → Type 0
  Entered id entry r = (seq : ℕ) × (find id r.entries ≡ some (record entry { seq = seq }))

  enter-Entered :
      (id : ℕ) (entry : Entry Conn Json) (r : Registry Conn Json)
      → Entered id entry (enter id entry r)
  unfolding enter insert find
  enter-Entered id entry r = (r.next_seq, rw ((==_iff id id).1 refl) refl)

  carry_out-Entered :
      (id : ℕ) (entry : Entry Conn Json) (x : Registry Conn Json × Planned) {t : Registry Conn Json}
      {a : Unit {0}}
      → admission_result (carry_out id entry x) ≡ (t, ok a)
      → Entered id entry t
  carry_out-Entered id entry (r, unplanned why) h = absurd (cc)
  carry_out-Entered id entry (r, planned plan) {t} h =
      subst (λ (x : Registry Conn Json). Entered id entry x)
        (ap (λ (x : Registry Conn Json × Result StoreError (Unit {0})). x.0) h)
        (enter-Entered id entry _)

  admitted-Entered :
      (id : ℕ) (entry : Entry Conn Json) (budget : ℕ) (now : ℤ) (grace : ℕ) (r : Registry Conn Json)
      {t : Registry Conn Json} {a : Unit {0}}
      → admission_result (Registry.admit id entry budget now grace r) ≡ (t, ok a)
      → Entered id entry t
  unfolding Registry.admit
  admitted-Entered id entry budget now grace r h = elim (Bool-cases (ltb budget entry.bytes)) [
    | inl b ↦ absurd (let h' = rw b at h in cc)
    | inr b ↦ carry_out-Entered id entry (plan_reclaim entry.bytes budget now grace r) (rw b at h)
  ]

  at_registry :
      (change : Registry Conn Json → Registry Conn Json × Result StoreError (Unit {0})) (id : ℕ)
      (entry : Entry Conn Json) (s : ResultStore Conn Json) (o : Option (Registry Conn Json))
      {t : ResultStore Conn Json} {a : Unit {0}}
      → ((r r' : Registry Conn Json) → change r ≡ (r', ok tt) → Entered id entry r')
      → with_registry change s o ≡ (t, ok a)
      → (r : Registry Conn Json) × (t.registry ≡ some r) × Entered id entry r
  at_registry change id entry s none enters h = absurd (cc)
  at_registry change id entry s (some r) enters h =
      let result : (change r).1 ≡ ok tt =
        ap (λ (x : ResultStore Conn Json × Result StoreError (Unit {0})). x.1) h in
      (
        (change r).0,
        ap (λ (x : ResultStore Conn Json × Result StoreError (Unit {0})). x.0.registry) (sym h),
        enters r (change r).0 (ap (λ q. ((change r).0, q)) result),
      )

  pub admit-Entered :
      (id : ℕ) (entry : Entry Conn Json) (now : Result StoreError ℤ) (s : ResultStore Conn Json)
      {t : ResultStore Conn Json} {a : Unit {0}}
      → admit id entry now s ≡ (t, ok a)
      → (r : Registry Conn Json) × (t.registry ≡ some r) × Entered id entry r
  unfolding admit
  admit-Entered id entry (err e) s h = absurd (cc)
  admit-Entered id entry (ok now) s {t} h =
      at_registry
        (λ r.
          admission_result
            (Registry.admit id entry s.limits.max_bytes now s.limits.active_grace_secs r))
        id entry s s.registry
        (λ r r' q. admitted-Entered id entry s.limits.max_bytes now s.limits.active_grace_secs r q)
        h
