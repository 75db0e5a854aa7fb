-- ===== src/Limits/Usable.antt =====
-- Which limits are usable, and that the profiles and the overrides give no others.
use slugaudit.Base.{
  ℕ, ◌*◌, ◌≤◌, ◌<◌, ◌≡◌, refl, ◌≢◌, ◌↔◌, inl, inr, Bool, true, false, not, Option, none, some,
  String, arith, ltb, ◌==◌, if◌then◌else◌, Result, ok, err, Result-cases, Bool-cases,
}
use slugaudit.Limits.{
  ResourceLimits, AuditProfile, lean, audit, adaptive, SystemMemoryInfo, sqlite_max_value_bytes,
  result_store_budget, limits_for_profile_with,
}
use slugaudit.Limits.Overrides.{
  EnvOverrides, Ledger, LockPoisoned, first_report, clamp_parse_to_file_bytes, set, override, apply,
  PageSize, InvalidParams, resolve,
}

-- No limit of the server is zero; the caps on stored files and read values are within what SQLite can
-- hold; and the parse cap is at most the file cap.
pub record IsUsable (l : ResourceLimits) : Type 0 where
  pub file : 0 < l.max_file_bytes
  pub file_stored : l.max_file_bytes ≤ sqlite_max_value_bytes
  pub parse : 0 < l.max_parse_bytes
  pub parse_acts : l.max_parse_bytes ≤ l.max_file_bytes
  pub parse_clock : 0 < l.max_parse_wall_clock_ms
  pub import : 0 < l.max_total_import_bytes
  pub response : 0 < l.max_query_response_bytes
  pub page : 0 < l.default_page_bytes
  pub sql : 0 < l.max_query_sql_bytes
  pub steps : 0 < l.max_query_vm_steps
  pub query_clock : 0 < l.max_query_wall_clock
  pub value : 0 < l.max_query_value_bytes
  pub value_stored : l.max_query_value_bytes ≤ sqlite_max_value_bytes
  pub pattern : 0 < l.max_structure_query_bytes
  pub matches : 0 < l.max_structure_matches
  pub structure_clock : 0 < l.max_structure_execution_time
  pub sync_clock : 0 < l.max_sync_wall_clock
  pub store : 0 < l.max_result_store_bytes
  pub grace : 0 < l.result_active_grace_secs

-- Beyond that, a profile's page fits its response ceiling, and its store holds four such responses.
pub record IsProfile (l : ResourceLimits) : Type 0 where
  pub usable : IsUsable l
  pub page_fits : l.default_page_bytes ≤ l.max_query_response_bytes
  pub four : l.max_result_store_bytes ≡ 4 * l.max_query_response_bytes
  pub evidence_fits : l.evidence.max_payload_bytes_per_item ≤ l.evidence.max_payload_bytes_per_file

-- The limits of a profile, or the failure to detect the memory, which only the adaptive profile needs.
abbrev pub IsProfileOf :
    {E : Type 0} → AuditProfile → Result E SystemMemoryInfo → Result E ResourceLimits → Type 0
IsProfileOf profile detect (ok l) = IsProfile l
IsProfileOf profile detect (err e) = (profile ≡ adaptive) × (detect ≡ err e)

-- Every profile gives usable limits, whose page fits the response ceiling and whose store holds four
-- full responses, the adaptive one whatever memory was detected. It fails only where the adaptive
-- profile cannot detect the memory.
pub limits_for_profile_with-IsProfile :
    {E : Type 0} (profile : AuditProfile) (detect : Result E SystemMemoryInfo)
    → IsProfileOf profile detect (limits_for_profile_with profile detect)
unfolding limits_for_profile_with
limits_for_profile_with-IsProfile lean detect = omega arith
limits_for_profile_with-IsProfile audit detect = omega arith
limits_for_profile_with-IsProfile adaptive (err e) = (refl, refl)
limits_for_profile_with-IsProfile adaptive (ok ram) = omega arith

abbrev pub Positive : Option ℕ → Type 0
Positive none = Unit
Positive (some n) = 0 < n

abbrev pub Storable : Option ℕ → Type 0
Storable none = Unit
Storable (some n) = (0 < n) × (n ≤ sqlite_max_value_bytes)

-- What `EnvOverrides::read` lets through: no zero, and no value that SQLite cannot store.
pub record IsRead (env : EnvOverrides) : Type 0 where
  pub file : Storable env.max_file_bytes
  pub value : Storable env.max_query_value_bytes
  pub parse : Positive env.max_parse_bytes
  pub store : Positive env.max_result_store_bytes
  pub parse_clock : Positive env.max_parse_wall_clock_ms
  pub import : Positive env.max_total_import_bytes
  pub response : Positive env.max_query_response_bytes
  pub page : Positive env.default_page_bytes
  pub sql : Positive env.max_query_sql_bytes
  pub steps : Positive env.max_query_vm_steps
  pub query_clock : Positive env.max_query_wall_clock_secs
  pub pattern : Positive env.max_structure_query_bytes
  pub matches : Positive env.max_structure_matches
  pub structure_clock : Positive env.max_structure_execution_time_secs
  pub sync_clock : Positive env.max_sync_wall_clock_secs
  pub grace : Positive env.result_active_grace_secs

set_pos : (x : ℕ) (o : Option ℕ) → 0 < x → Positive o → 0 < set x o
set_pos x none h p = h
set_pos x (some n) h p = p

set-Storable :
    (x : ℕ) (o : Option ℕ)
    → 0 < x
    → x ≤ sqlite_max_value_bytes
    → Storable o
    → (0 < set x o) × (set x o ≤ sqlite_max_value_bytes)
set-Storable x none h k s = (h, k)
set-Storable x (some n) h k s = s

-- Everything but the parse cap's bound holds before the last line of `apply`.
pub record IsOverridden (l : ResourceLimits) : Type 0 where
  pub file : 0 < l.max_file_bytes
  pub file_stored : l.max_file_bytes ≤ sqlite_max_value_bytes
  pub parse : 0 < l.max_parse_bytes
  pub value : 0 < l.max_query_value_bytes
  pub value_stored : l.max_query_value_bytes ≤ sqlite_max_value_bytes
  pub store : 0 < l.max_result_store_bytes
  pub parse_clock : 0 < l.max_parse_wall_clock_ms
  pub import : 0 < l.max_total_import_bytes
  pub response : 0 < l.max_query_response_bytes
  pub page : 0 < l.default_page_bytes
  pub sql : 0 < l.max_query_sql_bytes
  pub steps : 0 < l.max_query_vm_steps
  pub query_clock : 0 < l.max_query_wall_clock
  pub pattern : 0 < l.max_structure_query_bytes
  pub matches : 0 < l.max_structure_matches
  pub structure_clock : 0 < l.max_structure_execution_time
  pub sync_clock : 0 < l.max_sync_wall_clock
  pub grace : 0 < l.result_active_grace_secs

store_pos :
    (response store : ℕ) (pinned : Bool)
    → 0 < response
    → 0 < store
    → 0 < (if not pinned then result_store_budget response else store)
unfolding result_store_budget
store_pos response store true h k = k
store_pos response store false h k = omega arith

override-IsOverridden :
    (env : EnvOverrides) (l : ResourceLimits) (pinned : Bool)
    → IsRead env
    → IsUsable l
    → IsOverridden (override env l pinned)
unfolding override
override-IsOverridden env l pinned e u = record {
  file = (set-Storable l.max_file_bytes env.max_file_bytes u.file u.file_stored e.file).0;
  file_stored = (set-Storable l.max_file_bytes env.max_file_bytes u.file u.file_stored e.file).1;
  parse = set_pos l.max_parse_bytes env.max_parse_bytes u.parse e.parse;
  value =
      (set-Storable l.max_query_value_bytes env.max_query_value_bytes u.value u.value_stored
        e.value).0;
  value_stored =
      (set-Storable l.max_query_value_bytes env.max_query_value_bytes u.value u.value_stored
        e.value).1;
  store =
      set_pos _ env.max_result_store_bytes
        (store_pos (set l.max_query_response_bytes env.max_query_response_bytes)
          l.max_result_store_bytes pinned
          (set_pos l.max_query_response_bytes env.max_query_response_bytes u.response e.response)
          u.store)
        e.store;
  parse_clock =
      set_pos l.max_parse_wall_clock_ms env.max_parse_wall_clock_ms u.parse_clock e.parse_clock;
  import = set_pos l.max_total_import_bytes env.max_total_import_bytes u.import e.import;
  response = set_pos l.max_query_response_bytes env.max_query_response_bytes u.response e.response;
  page = set_pos l.default_page_bytes env.default_page_bytes u.page e.page;
  sql = set_pos l.max_query_sql_bytes env.max_query_sql_bytes u.sql e.sql;
  steps = set_pos l.max_query_vm_steps env.max_query_vm_steps u.steps e.steps;
  query_clock =
      set_pos l.max_query_wall_clock env.max_query_wall_clock_secs u.query_clock e.query_clock;
  pattern = set_pos l.max_structure_query_bytes env.max_structure_query_bytes u.pattern e.pattern;
  matches = set_pos l.max_structure_matches env.max_structure_matches u.matches e.matches;
  structure_clock =
      set_pos l.max_structure_execution_time env.max_structure_execution_time_secs u.structure_clock
        e.structure_clock;
  sync_clock = set_pos l.max_sync_wall_clock env.max_sync_wall_clock_secs u.sync_clock e.sync_clock;
  grace = set_pos l.result_active_grace_secs env.result_active_grace_secs u.grace e.grace;
}

-- Usable limits, or the failure on a poisoned ledger of warnings.
abbrev pub IsApplied : Ledger → Result LockPoisoned (ResourceLimits × Ledger) → Type 0
IsApplied ledger (ok r) = IsUsable r.0
IsApplied ledger (err e) = ledger ≡ none

poisoned :
    (setting : String) (n : ℕ) (ledger : Ledger) (x : LockPoisoned)
    → first_report setting n ledger ≡ err x
    → ledger ≡ none
unfolding first_report
poisoned setting n none x e = refl
poisoned setting n (some l) x e = absurd (ground arith)

clamp-IsUsable :
    (l : ResourceLimits) (ledger : Ledger)
    → IsOverridden l
    → IsApplied ledger (clamp_parse_to_file_bytes l ledger)
unfolding clamp_parse_to_file_bytes
clamp-IsUsable l ledger o = elim (Bool-cases (ltb l.max_file_bytes l.max_parse_bytes)) [
  | inr e ↦ rw e (omega (arith, not_above l e))
  | inl e ↦
      rw e (elim (Result-cases (first_report "max_parse_bytes clamp" l.max_parse_bytes ledger)) [
        | inl ((b, l'), r) ↦ rw r (omega arith)
        | inr (x, r) ↦ rw r (poisoned "max_parse_bytes clamp" l.max_parse_bytes ledger x r)
      ])
]
  where
    not_above :
        (l : ResourceLimits)
        → ltb l.max_file_bytes l.max_parse_bytes ≡ false
        → l.max_parse_bytes ≤ l.max_file_bytes
    not_above l e = ground arith

-- Overrides that were read from the environment, on usable limits, leave usable limits: the parse cap
-- is at most the file cap afterwards. The only failure is a poisoned ledger of warnings.
pub apply-IsUsable :
    (env : EnvOverrides) (l : ResourceLimits) (pinned : Bool) (ledger : Ledger)
    → IsRead env
    → IsUsable l
    → IsApplied ledger (apply env l pinned ledger)
unfolding apply
apply-IsUsable env l pinned ledger e u =
    clamp-IsUsable (override env l pinned) ledger (override-IsOverridden env l pinned e u)

abbrev pub IsPageSize : Option ℕ → ResourceLimits → Result InvalidParams PageSize → Type 0
IsPageSize requested l (err e) = requested ≡ some 0
IsPageSize requested l (ok s) =
    (requested ≢ some 0)
    × (0 < s.bytes)
    × (s.bytes ≤ l.max_query_response_bytes)
    × ((s.at_ceiling ≡ true) ↔ (s.bytes ≡ l.max_query_response_bytes))

-- The page size of a call on usable limits: refused exactly for a request of 0 bytes; else positive,
-- at most the ceiling, and the ceiling itself exactly when `at_ceiling` says so.
pub resolve-IsPageSize :
    (requested : Option ℕ) (l : ResourceLimits)
    → IsUsable l
    → IsPageSize requested l (resolve requested l)
unfolding resolve
resolve-IsPageSize none l u =
    (λ e. cc, omega (arith, u.page, u.response), omega arith, ground arith)
resolve-IsPageSize (some n) l u = elim (Bool-cases (n == 0)) [
  | inl e ↦ rw e (ground arith)
  | inr e ↦
      rw e (λ f. ground arith, omega (arith, u.response, not_zero n e), omega arith, ground arith)
]
  where
    not_zero : (n : ℕ) → (n == 0) ≡ false → 0 < n
    not_zero n e = ground arith
