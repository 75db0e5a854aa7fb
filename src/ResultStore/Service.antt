-- ===== src/ResultStore/Service.antt =====
-- src/store/result_store/store.rs and limits.rs: the store around its registry. An operation takes the store and gives the store that it leaves and what it returns. The
-- registry's lock is poisoned where there is no registry; the clock's reading is an argument. What
-- SQLite answers about a result's file is a parameter.
pub mod Stats
pub mod Reading
pub mod Renewal
pub mod Keeps
pub mod Reachability
pub mod Issued
pub mod Admitted
use slugaudit.Base.{
  ℕ, zero, suc, ◌+◌, ◌-◌, ◌*◌, ◌/◌, ◌%◌, ◌^◌, ◌≤◌, ◌<◌, min, max, ◌≡◌, refl, sym, ap, subst, ◌∙◌,
  fun_ext, ◌≢◌, ◌↔◌, ◌⊎◌, inl, inr, Bool, true, false, not, ◌&&◌, ◌||◌, Option, none, some, List,
  [], ◌∷◌, ◌++◌, map, String, arith, ltb, leb, ◌==◌, ==_iff, if◌then◌else◌, ℤ, pos, negsuc,
  pos_part, neg_part, leb_ℤ, ◌≤ℤ◌, sub_ℕ, length, length-append, get_elem?, take, drop, filter, any,
  all, add64, sub64, u64_mod, i64_max, saturating_add, Result, ok, err, ok_or, ◌>>=◌, Result-cases,
  is_utf8, saturating_mul, All, All-append, All-mono, All-left, All-right, All-of, All-both,
  Bool-cases, Option-cases, u64_max, Text, text_eq, text_eq_sound, text_eq_refl, apart, text_in,
  strip_prefix, strip_prefix_sound, split_from, split, join, Without, split-append, split-alone,
  join-split, leb→le, le→leb, leb-false, str_eq, eq_iff,
}
use slugaudit.ResultStore.Entry.{
  ResultClass, ResultMeta, Entry, new_entry, class, served, age_key_le, is_active, is_idle,
  is_delivered,
}
use slugaudit.ResultStore.Registry
use slugaudit.ResultStore.Registry.{
  Registry, Refusal, Reclaimed, find, Admission, admitted, refused, count_class,
}
use slugaudit.ResultStore.Cell.{StoreError, Float, StoredRow, Take}
use slugaudit.ResultStore.Row.{RawRow, JsonMarks}
use slugaudit.ResultStore.Reader.{PageRows, read_rows}
use slugaudit.ResultStore.Cursor.{Uuids, Cursor, parse}
use slugaudit.Limits.{ResourceLimits}

pub record ResultStoreLimits : Type 0 where
  pub max_bytes : ℕ
  pub active_grace_secs : ℕ

abbrev pub limits_from : ResourceLimits → ResultStoreLimits
limits_from l = record {
  max_bytes = l.max_result_store_bytes;
  active_grace_secs = l.result_active_grace_secs;
}

-- What the startup sweep did.
pub record SweepOutcome : Type 0 where
  pub removed_files : ℕ
  pub live_owners_skipped : ℕ
  pub errors : ℕ
  pub first_error : Option String

pub record ResultStore (Conn : Type 0) (Json : Type 0) : Type 0 where
  pub session : ℕ
  pub nonce : ℕ
  pub limits : ResultStoreLimits
  pub registry : Option (Registry Conn Json)
  pub sweep : SweepOutcome

abbrev pub refusal_error : Refusal → StoreError
refusal_error (Refusal.full active_count) = StoreError.full active_count
refusal_error Refusal.too_large = StoreError.too_large

module _ {Conn Json : Type 0} where
  -- `registry()?`, and a change under its lock.
  abbrev pub with_registry {ℓ} :
      {A : Type ℓ}
      → (Registry Conn Json → Registry Conn Json × Result StoreError A)
      → ResultStore Conn Json
      → Option (Registry Conn Json)
      → ResultStore Conn Json × Result StoreError A
  with_registry change s none = (s, err StoreError.lock)
  with_registry change s (some r) = (record s { registry = some (change r).0 }, (change r).1)

  abbrev pub count_unknown : Registry Conn Json → Registry Conn Json
  count_unknown r = record r {
    counters = record (r.counters) { unknown_cursors = add64 r.counters.unknown_cursors 1 };
  }

  abbrev pub count_expired : Registry Conn Json → Registry Conn Json
  count_expired r = record r {
    counters = record (r.counters) { expired_cursors = add64 r.counters.expired_cursors 1 };
  }

  abbrev pub count_too_large : Registry Conn Json → Registry Conn Json
  count_too_large r = record r {
    counters = record (r.counters) { refused_too_large = add64 r.counters.refused_too_large 1 };
  }

  -- `refuse_foreign_tool` and `unknown_cursor`, which differ in what they log: a result that is the
  -- error.
  unfoldable pub refuse_cursor {ℓ} :
      {A : Type ℓ} → ResultStore Conn Json → ResultStore Conn Json × Result StoreError A
  refuse_cursor s = with_registry (λ r. (count_unknown r, err StoreError.unknown)) s s.registry

  abbrev pub found_entry :
      Registry Conn Json
      → Option (Entry Conn Json)
      → Registry Conn Json × Result StoreError (Entry Conn Json)
  found_entry r (some entry) = (r, ok entry)
  found_entry r none = (count_expired r, err StoreError.expired)

  unfoldable pub lookup :
      ℕ → ResultStore Conn Json → ResultStore Conn Json × Result StoreError (Entry Conn Json)
  unfolding find
  lookup id s = with_registry (λ r. found_entry r (find id r.entries)) s s.registry

  abbrev pub map_ok {ℓ κ} :
      {A : Type ℓ} {B : Type κ}
      → (A → B)
      → ResultStore Conn Json × Result StoreError A
      → ResultStore Conn Json × Result StoreError B
  map_ok f (s, ok a) = (s, ok (f a))
  map_ok f (s, err e) = (s, err e)

  unfoldable pub meta_of :
      ℕ → ResultStore Conn Json → ResultStore Conn Json × Result StoreError (ResultMeta Json)
  unfolding lookup
  meta_of id s = map_ok (λ e. e.meta) (lookup id s)

  unfoldable pub tool_of :
      ℕ → ResultStore Conn Json → ResultStore Conn Json × Result StoreError String
  unfolding lookup
  tool_of id s = map_ok (λ e. e.meta.tool) (lookup id s)

  abbrev pub admission_result :
      Registry Conn Json × Admission Conn Json → Registry Conn Json × Result StoreError (Unit {0})
  admission_result (r, admitted reclaimed) = (r, ok tt)
  admission_result (r, refused why entry) = (r, err (refusal_error why))

  -- `ResultStore::admit`: the clock is read before the registry is locked.
  unfoldable pub admit :
      ℕ
      → Entry Conn Json
      → Result StoreError ℤ
      → ResultStore Conn Json
      → ResultStore Conn Json × Result StoreError (Unit {0})
  admit id entry (err e) s = (s, err e)
  admit id entry (ok now) s =
      with_registry
        (λ r.
          admission_result
            (Registry.admit id entry s.limits.max_bytes now s.limits.active_grace_secs r))
        s s.registry

  -- A writer that outgrew the whole budget.
  unfoldable pub refuse_too_large {ℓ} :
      {A : Type ℓ} → ResultStore Conn Json → ResultStore Conn Json × Result StoreError A
  refuse_too_large s =
      with_registry (λ r. (count_too_large r, err StoreError.too_large)) s s.registry

  abbrev pub issued_here :
      ResultStore Conn Json → Option Cursor → ResultStore Conn Json × Result StoreError Cursor
  issued_here s none = refuse_cursor s
  issued_here s (some c) = if c.nonce == s.nonce then (s, ok c) else refuse_cursor s

  unfoldable pub decode_cursor :
      Uuids → Text → ResultStore Conn Json → ResultStore Conn Json × Result StoreError Cursor
  unfolding parse refuse_cursor
  decode_cursor u token s = issued_here s (parse u token)

  -- The cursor for an ordinal of a result.
  abbrev pub cursor : ResultStore Conn Json → ℕ → ℕ → Cursor
  cursor s result ord = record { nonce = s.nonce; result = result; ord = ord }
