-- ===== src/Limits/Overrides.antt =====
-- src/model/env_overrides.rs, limit_overrides.rs and src/tools/page_size.rs: what replaces a limit.
use slugaudit.Base.{
  ℕ, min, Bool, true, false, not, ◌&&◌, ◌||◌, Option, none, some, List, [], ◌∷◌, String, ltb, leb,
  ◌==◌, if◌then◌else◌, Result, ok, err, ◌>>=◌, str_eq,
}
use slugaudit.Limits.{ResourceLimits, AuditProfile, sqlite_max_value_bytes, result_store_budget}

-- Every limit override the environment sets.
pub record EnvOverrides : Type 0 where
  pub profile : Option AuditProfile
  pub max_file_bytes : Option ℕ
  pub max_parse_bytes : Option ℕ
  pub max_parse_wall_clock_ms : Option ℕ
  pub max_total_import_bytes : Option ℕ
  pub max_query_response_bytes : Option ℕ
  pub default_page_bytes : Option ℕ
  pub max_query_sql_bytes : Option ℕ
  pub max_query_vm_steps : Option ℕ
  pub max_query_wall_clock_secs : Option ℕ
  pub max_query_value_bytes : Option ℕ
  pub max_structure_query_bytes : Option ℕ
  pub max_structure_matches : Option ℕ
  pub max_structure_execution_time_secs : Option ℕ
  pub max_sync_wall_clock_secs : Option ℕ
  pub max_result_store_bytes : Option ℕ
  pub result_active_grace_secs : Option ℕ

-- The (setting, configured value) pairs already warned about.
abbrev pub Ledger : Type 0
Ledger = Option (List (String × ℕ))

pub data LockPoisoned : Type 0 where
  lock_poisoned : LockPoisoned

abbrev pub reported : String × ℕ → List (String × ℕ) → Bool
reported (s, n) [] = false
reported (s, n) ((t, m) ∷ l) = (str_eq s t && n == m) || reported (s, n) l

-- `true` the first time the ledger sees the pair; the ledger with the pair in it.
unfoldable pub first_report : String → ℕ → Ledger → Result LockPoisoned (Bool × Ledger)
first_report setting value none = err lock_poisoned
first_report setting value (some l) =
    if reported (setting, value) l
    then ok (false, some l)
    else ok (true, some ((setting, value) ∷ l))

unfoldable pub clamp_sqlite_value : String → ℕ → Ledger → Result LockPoisoned (ℕ × Ledger)
unfolding first_report
clamp_sqlite_value setting value l =
    if leb value sqlite_max_value_bytes
    then ok (value, l)
    else first_report setting value l >>= λ (_, l'). ok (sqlite_max_value_bytes, l')

unfoldable pub refuse_zero : String → ℕ → Ledger → Result LockPoisoned (Option ℕ × Ledger)
unfolding first_report
refuse_zero setting value l =
    if not (value == 0)
    then ok (some value, l)
    else first_report setting 0 l >>= λ (_, l'). ok (none, l')

unfoldable pub config_nonzero : String → Option ℕ → Ledger → Result LockPoisoned (Option ℕ × Ledger)
unfolding refuse_zero
config_nonzero key none l = ok (none, l)
config_nonzero key (some value) l = refuse_zero key value l

unfoldable pub clamp_parse_to_file_bytes :
    ResourceLimits → Ledger → Result LockPoisoned (ResourceLimits × Ledger)
unfolding first_report
clamp_parse_to_file_bytes limits l =
    if ltb limits.max_file_bytes limits.max_parse_bytes
    then (first_report "max_parse_bytes clamp" limits.max_parse_bytes l >>= λ (_, l').
        ok (record limits { max_parse_bytes = limits.max_file_bytes }, l'))
    else ok (limits, l)

-- `set`: replaces the target when the environment set a value.
abbrev pub set : ℕ → Option ℕ → ℕ
set target none = target
set target (some value) = value

-- All of `EnvOverrides::apply` above its last line.
unfoldable pub override : EnvOverrides → ResourceLimits → Bool → ResourceLimits
unfolding result_store_budget
override env limits result_store_pinned =
    let response = set limits.max_query_response_bytes env.max_query_response_bytes in
    let store =
      if not result_store_pinned
      then result_store_budget response
      else limits.max_result_store_bytes in
    record limits {
      max_file_bytes = set limits.max_file_bytes env.max_file_bytes;
      max_parse_bytes = set limits.max_parse_bytes env.max_parse_bytes;
      max_parse_wall_clock_ms = set limits.max_parse_wall_clock_ms env.max_parse_wall_clock_ms;
      max_total_import_bytes = set limits.max_total_import_bytes env.max_total_import_bytes;
      max_query_response_bytes = response;
      default_page_bytes = set limits.default_page_bytes env.default_page_bytes;
      max_query_sql_bytes = set limits.max_query_sql_bytes env.max_query_sql_bytes;
      max_query_vm_steps = set limits.max_query_vm_steps env.max_query_vm_steps;
      max_query_wall_clock = set limits.max_query_wall_clock env.max_query_wall_clock_secs;
      max_query_value_bytes = set limits.max_query_value_bytes env.max_query_value_bytes;
      max_structure_query_bytes =
          set limits.max_structure_query_bytes env.max_structure_query_bytes;
      max_structure_matches = set limits.max_structure_matches env.max_structure_matches;
      max_structure_execution_time =
          set limits.max_structure_execution_time env.max_structure_execution_time_secs;
      max_sync_wall_clock = set limits.max_sync_wall_clock env.max_sync_wall_clock_secs;
      max_result_store_bytes = set store env.max_result_store_bytes;
      result_active_grace_secs = set limits.result_active_grace_secs env.result_active_grace_secs;
    }

unfoldable pub apply :
    EnvOverrides → ResourceLimits → Bool → Ledger → Result LockPoisoned (ResourceLimits × Ledger)
unfolding override clamp_parse_to_file_bytes
apply env limits result_store_pinned l =
    clamp_parse_to_file_bytes (override env limits result_store_pinned) l

-- `tools::page_size`: the page size that a call resolves to.
pub record PageSize : Type 0 where
  pub bytes : ℕ
  pub at_ceiling : Bool

pub data InvalidParams : Type 0 where
  invalid_params : String → InvalidParams

unfoldable pub refuse_zero_page : Option ℕ → Result InvalidParams (Unit {0})
refuse_zero_page none = ok tt
refuse_zero_page (some n) =
    if n == 0
    then err (invalid_params "page_bytes must be at least 1; omit it for the default page size")
    else ok tt

abbrev pub wanted : Option ℕ → ℕ → ℕ
wanted (some bytes) default_page_bytes = bytes
wanted none default_page_bytes = default_page_bytes

unfoldable pub resolve : Option ℕ → ResourceLimits → Result InvalidParams PageSize
unfolding refuse_zero_page
resolve requested limits =
    let w = wanted requested limits.default_page_bytes in
    let ceiling = limits.max_query_response_bytes in
    refuse_zero_page requested >>= λ _.
    ok (record { bytes = min w ceiling; at_ceiling = leb ceiling w })
