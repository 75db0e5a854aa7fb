-- ===== src/ResultStore/Service/Renewal.antt =====
-- Serving a page renews one entry of the map and nothing else.
use slugaudit.Base.{
  ℕ, ◌≡◌, refl, Bool, true, false, Option, none, some, List, [], ◌∷◌, arith, ◌==◌, ==_iff,
  if◌then◌else◌, ℤ,
}
use slugaudit.ResultStore.Entry.{Entry, served}
use slugaudit.ResultStore.Registry.{Registry, find}
use slugaudit.ResultStore.Registry.Map.{total, Distinct}
use slugaudit.ResultStore.Registry.Outcome.{IsValid}
use slugaudit.ResultStore.Service.Reading.{renew}

module _ {Conn Json : Type 0} where
  abbrev pub map_entry :
      (Entry Conn Json → Entry Conn Json) → Option (Entry Conn Json) → Option (Entry Conn Json)
  map_entry f none = none
  map_entry f (some e) = some (f e)

  pub find-renew :
      (id : ℕ) (now : ℤ) (last_page : Bool) (j : ℕ) (es : List (ℕ × Entry Conn Json))
      → find j (renew id now last_page es)
        ≡ (if id == j then map_entry (λ e. served e now last_page) (find j es) else find j es)
  unfolding find renew
  find-renew id now last_page j [] = ground arith
  find-renew id now last_page j ((k, e) ∷ es) =
      ground (arith, find-renew id now last_page j es, ==_iff k id, ==_iff k j, ==_iff id j)

  pub served-bytes :
      (e : Entry Conn Json) (now : ℤ) (last_page : Bool) → (served e now last_page).bytes ≡ e.bytes
  unfolding served
  served-bytes e now true = refl
  served-bytes e now false = refl

  pub served-meta :
      (e : Entry Conn Json) (now : ℤ) (last_page : Bool) → (served e now last_page).meta ≡ e.meta
  unfolding served
  served-meta e now true = refl
  served-meta e now false = refl

  pub served-conn :
      (e : Entry Conn Json) (now : ℤ) (last_page : Bool) → (served e now last_page).conn ≡ e.conn
  unfolding served
  served-conn e now true = refl
  served-conn e now false = refl

  renew-total :
      (id : ℕ) (now : ℤ) (last_page : Bool) (es : List (ℕ × Entry Conn Json))
      → total (renew id now last_page es) ≡ total es
  unfolding renew
  renew-total id now last_page [] = refl
  renew-total id now last_page ((k, e) ∷ es) =
      ground (arith, renew-total id now last_page es, served-bytes e now last_page)

  renew-Distinct :
      (id : ℕ) (now : ℤ) (last_page : Bool) (es : List (ℕ × Entry Conn Json))
      → Distinct es
      → Distinct (renew id now last_page es)
  unfolding renew
  renew-Distinct id now last_page [] d = tt
  renew-Distinct id now last_page ((k, e) ∷ es) d =
      ground (arith, d.0, find-renew id now last_page k es, renew-Distinct id now last_page es d.1)

  -- Renewal keeps a registry valid.
  pub renew-IsValid :
      (budget id : ℕ) (now : ℤ) (last_page : Bool) (r : Registry Conn Json)
      → IsValid budget r
      → IsValid budget (record r { entries = renew id now last_page r.entries })
  renew-IsValid budget id now last_page r v = record {
    distinct = renew-Distinct id now last_page r.entries v.distinct;
    counted = omega (arith, v.counted, renew-total id now last_page r.entries);
    within = v.within;
  }
