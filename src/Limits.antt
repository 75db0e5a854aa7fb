-- ===== src/Limits.antt =====
-- src/model/limits.rs, profile.rs, limit_overrides.rs and env_overrides.rs: the resource limits, the
-- profiles they start from, and the overrides of the environment. Durations are whole seconds. The
-- ledger of warnings is a state; `none` is a ledger whose lock is poisoned.
pub mod Overrides
pub mod Usable
use slugaudit.Base.{
  ℕ, zero, suc, ◌+◌, ◌-◌, ◌*◌, ◌/◌, ◌%◌, ◌^◌, ◌≤◌, ◌<◌, min, max, ◌≡◌, refl, sym, ap, subst, ◌∙◌,
  fun_ext, ◌≢◌, ◌↔◌, ◌⊎◌, inl, inr, Bool, true, false, not, ◌&&◌, ◌||◌, Option, none, some, List,
  [], ◌∷◌, ◌++◌, map, String, arith, ltb, leb, ◌==◌, ==_iff, if◌then◌else◌, ℤ, pos, negsuc,
  pos_part, neg_part, leb_ℤ, ◌≤ℤ◌, sub_ℕ, length, length-append, get_elem?, take, drop, filter, any,
  all, add64, sub64, u64_mod, i64_max, saturating_add, Result, ok, err, ok_or, ◌>>=◌, Result-cases,
  is_utf8, saturating_mul, All, All-append, All-mono, All-left, All-right, All-of, All-both,
  Bool-cases, Option-cases, u64_max, leb→le, le→leb, leb-false, str_eq, eq_iff,
}
use slugaudit.Evidence.{EvidenceLimits}

pub record ResourceLimits : Type 0 where
  pub max_file_bytes : ℕ
  pub max_parse_bytes : ℕ
  pub max_parse_wall_clock_ms : ℕ
  pub max_total_import_bytes : ℕ
  pub max_query_response_bytes : ℕ
  pub default_page_bytes : ℕ
  pub max_query_sql_bytes : ℕ
  pub max_query_vm_steps : ℕ
  pub max_query_wall_clock : ℕ
  pub max_query_value_bytes : ℕ
  pub max_structure_query_bytes : ℕ
  pub max_structure_matches : ℕ
  pub max_structure_execution_time : ℕ
  pub max_sync_wall_clock : ℕ
  pub max_result_store_bytes : ℕ
  pub result_active_grace_secs : ℕ
  pub evidence : EvidenceLimits

pub data AuditProfile : Type 0 where
  lean audit adaptive : AuditProfile

pub record SystemMemoryInfo : Type 0 where
  pub total_bytes : ℕ
  pub available_bytes : ℕ

abbrev pub sqlite_max_value_bytes : ℕ
sqlite_max_value_bytes = 1_000_000_000

abbrev pub default_page_size : ℕ
default_page_size = 64 * 1024

abbrev pub default_max_parse_bytes : ℕ
default_max_parse_bytes = 2 * 1024 * 1024

abbrev pub default_max_parse_wall_clock_ms : ℕ
default_max_parse_wall_clock_ms = 5_000

abbrev pub default_max_structure_query_bytes : ℕ
default_max_structure_query_bytes = 16 * 1024

abbrev pub result_store_budget_factor : ℕ
result_store_budget_factor = 4

abbrev pub default_result_active_grace_secs : ℕ
default_result_active_grace_secs = 900

unfoldable pub result_store_budget : ℕ → ℕ
result_store_budget max_query_response_bytes =
    saturating_mul max_query_response_bytes result_store_budget_factor

unfoldable pub lean_limits : ResourceLimits
unfolding result_store_budget
lean_limits = record {
  max_file_bytes = 32 * 1024 * 1024;
  max_parse_bytes = default_max_parse_bytes;
  max_parse_wall_clock_ms = default_max_parse_wall_clock_ms;
  max_total_import_bytes = 2 * 1024 * 1024 * 1024;
  max_query_response_bytes = 32 * 1024 * 1024;
  default_page_bytes = default_page_size;
  max_query_sql_bytes = 50_000;
  max_query_vm_steps = 5_000_000;
  max_query_wall_clock = 10;
  max_query_value_bytes = 32 * 1024 * 1024;
  max_structure_query_bytes = default_max_structure_query_bytes;
  max_structure_matches = 2_000;
  max_structure_execution_time = 10;
  max_sync_wall_clock = 2 * 60;
  max_result_store_bytes = result_store_budget (32 * 1024 * 1024);
  result_active_grace_secs = default_result_active_grace_secs;
  evidence = record {
    max_items_per_file = 50_000;
    max_payload_bytes_per_item = 128 * 1024;
    max_payload_bytes_per_file = 32 * 1024 * 1024;
  };
}

unfoldable pub audit_limits : ResourceLimits
unfolding result_store_budget
audit_limits = record {
  max_file_bytes = 256 * 1024 * 1024;
  max_parse_bytes = default_max_parse_bytes;
  max_parse_wall_clock_ms = default_max_parse_wall_clock_ms;
  max_total_import_bytes = 32 * 1024 * 1024 * 1024;
  max_query_response_bytes = 256 * 1024 * 1024;
  default_page_bytes = default_page_size;
  max_query_sql_bytes = 200_000;
  max_query_vm_steps = 50_000_000;
  max_query_wall_clock = 60;
  max_query_value_bytes = 256 * 1024 * 1024;
  max_structure_query_bytes = default_max_structure_query_bytes;
  max_structure_matches = 20_000;
  max_structure_execution_time = 60;
  max_sync_wall_clock = 20 * 60;
  max_result_store_bytes = result_store_budget (256 * 1024 * 1024);
  result_active_grace_secs = default_result_active_grace_secs;
  evidence = record {
    max_items_per_file = 200_000;
    max_payload_bytes_per_item = 512 * 1024;
    max_payload_bytes_per_file = 256 * 1024 * 1024;
  };
}

-- `Ord::clamp`.
abbrev pub clamp : ℕ → ℕ → ℕ → ℕ
clamp x lo hi = min (max x lo) hi

unfoldable pub adaptive_limits : SystemMemoryInfo → ResourceLimits
unfolding result_store_budget
adaptive_limits ram =
    let import_budget = max (ram.available_bytes / 2) (4 * 1024 * 1024 * 1024) in
    let max_file = clamp (ram.total_bytes / 10) (256 * 1024 * 1024) sqlite_max_value_bytes in
    record {
      max_file_bytes = max_file;
      max_parse_bytes = default_max_parse_bytes;
      max_parse_wall_clock_ms = default_max_parse_wall_clock_ms;
      max_total_import_bytes = import_budget;
      max_query_response_bytes = max_file;
      default_page_bytes = default_page_size;
      max_query_sql_bytes = 200_000;
      max_query_vm_steps = 50_000_000;
      max_query_wall_clock = 60;
      max_query_value_bytes = max_file;
      max_structure_query_bytes = default_max_structure_query_bytes;
      max_structure_matches = 20_000;
      max_structure_execution_time = 60;
      max_sync_wall_clock = 20 * 60;
      max_result_store_bytes = result_store_budget max_file;
      result_active_grace_secs = default_result_active_grace_secs;
      evidence = record {
        max_items_per_file = 200_000;
        max_payload_bytes_per_item = 512 * 1024;
        max_payload_bytes_per_file = max_file;
      };
    }

-- `limits_for_profile_with`; the detector of the host's memory is an argument.
unfoldable pub limits_for_profile_with :
    {E : Type 0} → AuditProfile → Result E SystemMemoryInfo → Result E ResourceLimits
unfolding lean_limits audit_limits adaptive_limits
limits_for_profile_with lean detect = ok lean_limits
limits_for_profile_with audit detect = ok audit_limits
limits_for_profile_with adaptive detect = do ram ← detect; ok (adaptive_limits ram)
