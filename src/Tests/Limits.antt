-- ===== src/Tests/Limits.antt =====
-- The limits of the audit profile under an override that raises the parse cap above the file cap.
use slugaudit.Base.{false, none, some, [], String, arith, ok}
use slugaudit.Limits.{
  adaptive, SystemMemoryInfo, audit_limits, result_store_budget, limits_for_profile_with,
}
use slugaudit.Limits.Overrides.{EnvOverrides, apply, resolve}
use slugaudit.Limits.Usable.{
  IsUsable, IsProfileOf, limits_for_profile_with-IsProfile, IsRead, IsApplied, apply-IsUsable,
  IsPageSize, resolve-IsPageSize,
}

abbrev ram : SystemMemoryInfo
ram = record { total_bytes = 16_000_000_000; available_bytes = 8_000_000_000 }

limits_for_profile_with-IsProfile_example :
    IsProfileOf {E = String} adaptive (ok ram) (limits_for_profile_with adaptive (ok ram))
limits_for_profile_with-IsProfile_example = limits_for_profile_with-IsProfile adaptive (ok ram)

audit_limits-IsUsable : IsUsable audit_limits
unfolding audit_limits result_store_budget
audit_limits-IsUsable = omega arith

abbrev raised : EnvOverrides
raised = record {
  profile = none;
  max_file_bytes = none;
  max_parse_bytes = some 300_000_000;
  max_parse_wall_clock_ms = none;
  max_total_import_bytes = none;
  max_query_response_bytes = none;
  default_page_bytes = none;
  max_query_sql_bytes = none;
  max_query_vm_steps = none;
  max_query_wall_clock_secs = none;
  max_query_value_bytes = none;
  max_structure_query_bytes = none;
  max_structure_matches = none;
  max_structure_execution_time_secs = none;
  max_sync_wall_clock_secs = none;
  max_result_store_bytes = none;
  result_active_grace_secs = none;
}

raised-IsRead : IsRead raised
raised-IsRead = omega arith

apply-IsUsable_example : IsApplied (some []) (apply raised audit_limits false (some []))
apply-IsUsable_example =
    apply-IsUsable raised audit_limits false (some []) raised-IsRead audit_limits-IsUsable

resolve-IsPageSize_example : IsPageSize (some 100) audit_limits (resolve (some 100) audit_limits)
resolve-IsPageSize_example = resolve-IsPageSize (some 100) audit_limits audit_limits-IsUsable
