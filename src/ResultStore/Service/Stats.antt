-- ===== src/ResultStore/Service/Stats.antt =====
-- src/store/result_store/stats.rs and `stats` of store.rs: what the health check is shown.
pub mod Totals
use slugaudit.Base.{
  ℕ, zero, suc, ◌+◌, ◌-◌, ◌*◌, ◌/◌, ◌%◌, ◌^◌, ◌≤◌, ◌<◌, min, max, ◌≡◌, refl, sym, ap, subst, ◌∙◌,
  fun_ext, ◌≢◌, ◌↔◌, ◌⊎◌, inl, inr, Bool, true, false, not, ◌&&◌, ◌||◌, Option, none, some, List,
  [], ◌∷◌, ◌++◌, map, String, arith, ltb, leb, ◌==◌, ==_iff, if◌then◌else◌, ℤ, pos, negsuc,
  pos_part, neg_part, leb_ℤ, ◌≤ℤ◌, sub_ℕ, length, length-append, get_elem?, take, drop, filter, any,
  all, add64, sub64, u64_mod, i64_max, saturating_add, Result, ok, err, ok_or, ◌>>=◌, Result-cases,
  is_utf8, saturating_mul, All, All-append, All-mono, All-left, All-right, All-of, All-both,
  Bool-cases, Option-cases, u64_max, Text, text_eq, text_eq_sound, text_eq_refl, apart, text_in,
  strip_prefix, strip_prefix_sound, split_from, split, join, Without, split-append, split-alone,
  join-split, leb→le, le→leb, leb-false, str_eq, eq_iff,
}
use slugaudit.ResultStore.Entry.{
  ResultClass, ResultMeta, Entry, new_entry, class, served, age_key_le, is_active, is_idle,
  is_delivered,
}
use slugaudit.ResultStore.Registry
use slugaudit.ResultStore.Registry.{
  Registry, Refusal, Reclaimed, find, Admission, admitted, refused, count_class,
}
use slugaudit.ResultStore.Cell.{StoreError, Float, StoredRow, Take}
use slugaudit.ResultStore.Row.{RawRow, JsonMarks}
use slugaudit.ResultStore.Reader.{PageRows, read_rows}
use slugaudit.ResultStore.Cursor.{Uuids, Cursor, parse}
use slugaudit.Limits.{ResourceLimits}
use slugaudit.ResultStore.Service.{
  ResultStoreLimits, SweepOutcome, ResultStore, with_registry, refuse_cursor, lookup, count_unknown,
  count_expired, count_too_large, found_entry, decode_cursor, issued_here, meta_of, tool_of, map_ok,
  admit, admission_result, refuse_too_large, cursor,
}

-- Results and bytes held in one class.
pub record ClassStats : Type 0 where
  pub results : ℕ
  pub bytes : ℕ

abbrev pub no_results : ClassStats
no_results = record { results = 0; bytes = 0 }

pub record StoreStats : Type 0 where
  pub active : ClassStats
  pub idle : ClassStats
  pub delivered : ClassStats
  pub budget_bytes : ℕ
  pub admitted_bytes : ℕ
  pub reclaimed_delivered : ℕ
  pub reclaimed_idle : ℕ
  pub refused_full : ℕ
  pub refused_too_large : ℕ
  pub unknown_cursors : ℕ
  pub expired_cursors : ℕ
  pub sweep : SweepOutcome

abbrev pub add_entry : ClassStats → ℕ → ClassStats
add_entry c bytes = record { results = c.results + 1; bytes = add64 c.bytes bytes }

-- The slot that an entry of the class is counted in.
abbrev pub count_in : ResultClass → ℕ → StoreStats → StoreStats
count_in ResultClass.active bytes s = record s { active = add_entry s.active bytes }
count_in ResultClass.idle bytes s = record s { idle = add_entry s.idle bytes }
count_in ResultClass.delivered bytes s = record s { delivered = add_entry s.delivered bytes }

module _ {Conn Json : Type 0} where
  unfoldable pub count_entries : ℤ → ℕ → List (ℕ × Entry Conn Json) → StoreStats → StoreStats
  unfolding class
  count_entries now grace_secs [] stats = stats
  count_entries now grace_secs ((k, e) ∷ es) stats =
      count_entries now grace_secs es (count_in (class e now grace_secs) e.bytes stats)

  abbrev pub nothing_counted : ℕ → SweepOutcome → Registry Conn Json → StoreStats
  nothing_counted budget_bytes sweep r = record {
    active = no_results;
    idle = no_results;
    delivered = no_results;
    budget_bytes = budget_bytes;
    admitted_bytes = r.admitted_bytes;
    reclaimed_delivered = r.counters.reclaimed_delivered;
    reclaimed_idle = r.counters.reclaimed_idle;
    refused_full = r.counters.refused_full;
    refused_too_large = r.counters.refused_too_large;
    unknown_cursors = r.counters.unknown_cursors;
    expired_cursors = r.counters.expired_cursors;
    sweep = sweep;
  }

  -- `Registry::snapshot`.
  unfoldable pub snapshot : ℕ → ℤ → ℕ → SweepOutcome → Registry Conn Json → StoreStats
  unfolding count_entries
  snapshot budget_bytes now grace_secs sweep r =
      count_entries now grace_secs r.entries (nothing_counted budget_bytes sweep r)

  unfoldable pub stats :
      Result StoreError ℤ
      → ResultStore Conn Json
      → ResultStore Conn Json × Result StoreError StoreStats
  unfolding snapshot
  stats (err e) s = (s, err e)
  stats (ok now) s =
      with_registry
        (λ r. (r, ok (snapshot s.limits.max_bytes now s.limits.active_grace_secs s.sweep r))) s
        s.registry
