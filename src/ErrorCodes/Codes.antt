-- ===== src/ErrorCodes/Codes.antt =====
-- The closed set of codes on the wire.
use slugaudit.Base.{
  ℕ, ◌≡◌, refl, sym, ap, subst, ◌∙◌, ◌↔◌, Option, none, some, String, if◌then◌else◌, str_eq,
}
use slugaudit.ResultStore.Cell.{StoreError}
use slugaudit.ErrorCodes.{ErrorCode, as_str, Payload, payload, store_error}

-- The code that a wire string names.
code_of : String → Option ErrorCode
code_of s =
    if str_eq s "sync_budget_exhausted"
    then some ErrorCode.sync_budget_exhausted
    else if str_eq s "project_not_enabled"
    then some ErrorCode.project_not_enabled
    else if str_eq s "stale_revision"
    then some ErrorCode.stale_revision
    else if str_eq s "unknown_mechanic"
    then some ErrorCode.unknown_mechanic
    else if str_eq s "sql_too_large"
    then some ErrorCode.sql_too_large
    else if str_eq s "file_not_indexed"
    then some ErrorCode.file_not_indexed
    else if str_eq s "mechanic_budget_exhausted"
    then some ErrorCode.mechanic_budget_exhausted
    else if str_eq s "sql_error"
    then some ErrorCode.sql_error
    else if str_eq s "unknown_language"
    then some ErrorCode.unknown_language
    else if str_eq s "unknown_cursor"
    then some ErrorCode.unknown_cursor
    else if str_eq s "result_expired"
    then some ErrorCode.result_expired
    else if str_eq s "result_store_full"
    then some ErrorCode.result_store_full
    else if str_eq s "result_too_large"
    then some ErrorCode.result_too_large
    else if str_eq s "result_store_unavailable"
    then some ErrorCode.result_store_unavailable
    else if str_eq s "paging_parameter_removed"
    then some ErrorCode.paging_parameter_removed
    else none

code_of-as_str : (c : ErrorCode) → code_of (as_str c) ≡ some c
unfolding code_of as_str
code_of-as_str ErrorCode.sync_budget_exhausted = refl
code_of-as_str ErrorCode.project_not_enabled = refl
code_of-as_str ErrorCode.stale_revision = refl
code_of-as_str ErrorCode.unknown_mechanic = refl
code_of-as_str ErrorCode.sql_too_large = refl
code_of-as_str ErrorCode.file_not_indexed = refl
code_of-as_str ErrorCode.mechanic_budget_exhausted = refl
code_of-as_str ErrorCode.sql_error = refl
code_of-as_str ErrorCode.unknown_language = refl
code_of-as_str ErrorCode.unknown_cursor = refl
code_of-as_str ErrorCode.result_expired = refl
code_of-as_str ErrorCode.result_store_full = refl
code_of-as_str ErrorCode.result_too_large = refl
code_of-as_str ErrorCode.result_store_unavailable = refl
code_of-as_str ErrorCode.paging_parameter_removed = refl

-- A wire string names one code: two codes with the same string are the same code.
pub as_str-injective : (c d : ErrorCode) → as_str c ≡ as_str d → c ≡ d
as_str-injective c d e =
    let s : some c ≡ some d = sym (code_of-as_str c) ∙ ap code_of e ∙ code_of-as_str d in cc

-- The condition that a code stands for: those of the result store, each by its failure.
abbrev pub Names : ErrorCode → StoreError → Type 0
Names ErrorCode.unknown_cursor e = e ≡ StoreError.unknown
Names ErrorCode.result_expired e = e ≡ StoreError.expired
Names ErrorCode.result_store_full e = (active_count : ℕ) × (e ≡ StoreError.full active_count)
Names ErrorCode.result_too_large e = e ≡ StoreError.too_large
Names ErrorCode.result_store_unavailable e =
    (context : String) × (e ≡ StoreError.unavailable context)
Names _ e = ⊥

code_for : StoreError → Option ErrorCode
code_for (StoreError.unavailable _) = some ErrorCode.result_store_unavailable
code_for (StoreError.full _) = some ErrorCode.result_store_full
code_for StoreError.too_large = some ErrorCode.result_too_large
code_for StoreError.expired = some ErrorCode.result_expired
code_for StoreError.unknown = some ErrorCode.unknown_cursor
code_for _ = none

abbrev payload_of : Option ErrorCode → Option Payload
payload_of none = none
payload_of (some c) = payload c

store_error-code_for : (e : StoreError) → (store_error e).data_value ≡ payload_of (code_for e)
unfolding store_error code_for
store_error-code_for (StoreError.unavailable x) = refl
store_error-code_for (StoreError.full n) = refl
store_error-code_for StoreError.too_large = refl
store_error-code_for StoreError.expired = refl
store_error-code_for StoreError.unknown = refl
store_error-code_for StoreError.lock = refl
store_error-code_for StoreError.clock = refl
store_error-code_for (StoreError.invalid x) = refl
store_error-code_for (StoreError.io x) = refl
store_error-code_for (StoreError.sqlite x) = refl
store_error-code_for (StoreError.json x) = refl
store_error-code_for (StoreError.corrupt x) = refl

payload_of_sound : (o : Option ErrorCode) (c : ErrorCode) → payload_of o ≡ payload c → o ≡ some c
unfolding payload
payload_of_sound none c h = absurd (cc)
payload_of_sound (some d) c h = ap some (as_str-injective d c (cc))

Names-sound : (e : StoreError) (c : ErrorCode) → code_for e ≡ some c → Names c e
unfolding code_for
Names-sound (StoreError.unavailable x) c h =
    let d : ErrorCode.result_store_unavailable ≡ c = cc in
    subst (λ k. Names k (StoreError.unavailable x)) d (x, refl)
Names-sound (StoreError.full n) c h =
    let d : ErrorCode.result_store_full ≡ c = cc in
    subst (λ k. Names k (StoreError.full n)) d (n, refl)
Names-sound StoreError.too_large c h =
    let d : ErrorCode.result_too_large ≡ c = cc in subst (λ k. Names k StoreError.too_large) d refl
Names-sound StoreError.expired c h =
    let d : ErrorCode.result_expired ≡ c = cc in subst (λ k. Names k StoreError.expired) d refl
Names-sound StoreError.unknown c h =
    let d : ErrorCode.unknown_cursor ≡ c = cc in subst (λ k. Names k StoreError.unknown) d refl
Names-sound StoreError.lock c h = absurd (cc)
Names-sound StoreError.clock c h = absurd (cc)
Names-sound (StoreError.invalid x) c h = absurd (cc)
Names-sound (StoreError.io x) c h = absurd (cc)
Names-sound (StoreError.sqlite x) c h = absurd (cc)
Names-sound (StoreError.json x) c h = absurd (cc)
Names-sound (StoreError.corrupt x) c h = absurd (cc)

Names-complete : (c : ErrorCode) (e : StoreError) → Names c e → code_for e ≡ some c
unfolding code_for
Names-complete ErrorCode.sync_budget_exhausted e h = absurd h
Names-complete ErrorCode.project_not_enabled e h = absurd h
Names-complete ErrorCode.stale_revision e h = absurd h
Names-complete ErrorCode.unknown_mechanic e h = absurd h
Names-complete ErrorCode.sql_too_large e h = absurd h
Names-complete ErrorCode.file_not_indexed e h = absurd h
Names-complete ErrorCode.mechanic_budget_exhausted e h = absurd h
Names-complete ErrorCode.sql_error e h = absurd h
Names-complete ErrorCode.unknown_language e h = absurd h
Names-complete ErrorCode.unknown_cursor e h = ap code_for h
Names-complete ErrorCode.result_expired e h = ap code_for h
Names-complete ErrorCode.result_store_full e h = ap code_for h.1
Names-complete ErrorCode.result_too_large e h = ap code_for h
Names-complete ErrorCode.result_store_unavailable e h = ap code_for h.1
Names-complete ErrorCode.paging_parameter_removed e h = absurd h

-- A failure of the result store carries the payload of a code exactly when the code stands for it: an
-- unknown cursor, an expired result, a full store, a result too large or an unavailable store; every
-- other code is sent for none of them.
pub store_error_iff :
    (e : StoreError) (c : ErrorCode) → ((store_error e).data_value ≡ payload c) ↔ Names c e
store_error_iff e c = (
  λ h. Names-sound e c (payload_of_sound (code_for e) c (sym (store_error-code_for e) ∙ h)),
  λ n. store_error-code_for e ∙ ap payload_of (Names-complete c e n),
)
