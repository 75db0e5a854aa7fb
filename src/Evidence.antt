-- ===== src/Evidence.antt =====
-- src/sync/evidence_limits.rs, and `truncation_evidence` of src/sync/sample.rs: the caps that bound the
-- evidence stored with one file. `serde_json` (the payload's type, its encoding's size, the object
-- that `json!` builds for a marker) is a parameter.
pub mod Pass
pub mod Marker
pub mod Caps
use slugaudit.Base.{
  Text, ℕ, zero, suc, ◌+◌, ◌-◌, ◌*◌, ◌/◌, ◌%◌, ◌^◌, ◌≤◌, ◌<◌, min, max, ◌≡◌, refl, sym, ap, subst,
  ◌∙◌, fun_ext, ◌≢◌, ◌↔◌, ◌⊎◌, inl, inr, Bool, true, false, not, ◌&&◌, ◌||◌, Option, none, some,
  List, [], ◌∷◌, ◌++◌, map, String, arith, ltb, leb, ◌==◌, ==_iff, if◌then◌else◌, ℤ, pos, negsuc,
  pos_part, neg_part, leb_ℤ, ◌≤ℤ◌, sub_ℕ, length, length-append, get_elem?, take, drop, filter, any,
  all, add64, sub64, u64_mod, i64_max, saturating_add, Result, ok, err, ok_or, ◌>>=◌, Result-cases,
  is_utf8, saturating_mul, All, All-append, All-mono, All-left, All-right, All-of, All-both,
  Bool-cases, Option-cases, u64_max, leb→le, le→leb, leb-false, str_eq, eq_iff,
}
use slugaudit.Span.{Span}
use slugaudit.ResultStore.Cursor.{digits}

pub data EvidenceKind : Type 0 where
  structure import export comment docstring symbol diagnostic call : EvidenceKind

pub data EvidenceOrigin : Type 0 where
  pack_structure pack_symbol raw_tree source_content derived_relationship generic_walker
        rust_call_walker :
      EvidenceOrigin

pub data SpanAvailability : Type 0 where
  present : Span → SpanAvailability
  pack_omitted normalizer_unavailable derived_evidence : SpanAvailability

-- The parts of a marker's message.
abbrev pub discarded_text : Text
discarded_text =
    b'e' ∷ b'v' ∷ b'i' ∷ b'd' ∷ b'e' ∷ b'n' ∷ b'c' ∷ b'e' ∷ 32 ∷ b'l' ∷ b'i' ∷ b'm' ∷ b'i' ∷ b't'
    ∷ b's' ∷ 32 ∷ b'd' ∷ b'i' ∷ b's' ∷ b'c' ∷ b'a' ∷ b'r' ∷ b'd' ∷ b'e' ∷ b'd' ∷ 32 ∷ b'r' ∷ b'e'
    ∷ b'c' ∷ b'o' ∷ b'r' ∷ b'd' ∷ b's' ∷ b':' ∷ 32 ∷ []

abbrev pub exceeded_text : Text
exceeded_text =
    32 ∷ b'i' ∷ b't' ∷ b'e' ∷ b'm' ∷ b'(' ∷ b's' ∷ b')' ∷ 32 ∷ b'e' ∷ b'x' ∷ b'c' ∷ b'e' ∷ b'e'
    ∷ b'd' ∷ b'e' ∷ b'd' ∷ 32 ∷ b't' ∷ b'h' ∷ b'e' ∷ 32 ∷ b'p' ∷ b'e' ∷ b'r' ∷ b'-' ∷ b'i' ∷ b't'
    ∷ b'e' ∷ b'm' ∷ 32 ∷ b'b' ∷ b'y' ∷ b't' ∷ b'e' ∷ 32 ∷ b'c' ∷ b'a' ∷ b'p' ∷ 44 ∷ 32 ∷ []

abbrev pub dropped_text : Text
dropped_text =
    32 ∷ b'i' ∷ b't' ∷ b'e' ∷ b'm' ∷ b'(' ∷ b's' ∷ b')' ∷ 32 ∷ b'd' ∷ b'r' ∷ b'o' ∷ b'p' ∷ b'p'
    ∷ b'e' ∷ b'd' ∷ 32 ∷ b'b' ∷ b'y' ∷ 32 ∷ b't' ∷ b'h' ∷ b'e' ∷ 32 ∷ b'i' ∷ b't' ∷ b'e' ∷ b'm'
    ∷ b'-' ∷ b'c' ∷ b'o' ∷ b'u' ∷ b'n' ∷ b't' ∷ 32 ∷ b'o' ∷ b'r' ∷ 32 ∷ b'c' ∷ b'u' ∷ b'm' ∷ b'u'
    ∷ b'l' ∷ b'a' ∷ b't' ∷ b'i' ∷ b'v' ∷ b'e' ∷ b'-' ∷ b'b' ∷ b'y' ∷ b't' ∷ b'e' ∷ 32 ∷ b'c' ∷ b'a'
    ∷ b'p' ∷ []

abbrev pub failed_text : Text
failed_text =
    32 ∷ b'i' ∷ b't' ∷ b'e' ∷ b'm' ∷ b'(' ∷ b's' ∷ b')' ∷ 32 ∷ b'f' ∷ b'a' ∷ b'i' ∷ b'l' ∷ b'e'
    ∷ b'd' ∷ 32 ∷ b't' ∷ b'o' ∷ 32 ∷ b's' ∷ b'e' ∷ b'r' ∷ b'i' ∷ b'a' ∷ b'l' ∷ b'i' ∷ b'z' ∷ b'e'
    ∷ []

-- A marker's message.
unfoldable pub truncation_message : ℕ → ℕ → ℕ → Text
unfolding digits
truncation_message oversized_dropped dropped_for_cap unmeasurable_dropped =
    let unmeasurable_note =
      if ltb 0 unmeasurable_dropped
      then 44 ∷ 32 ∷ (digits unmeasurable_dropped ++ failed_text)
      else [] in
    discarded_text
    ++ (digits oversized_dropped
        ++ (exceeded_text ++ (digits dropped_for_cap ++ (dropped_text ++ unmeasurable_note))))

pub record Payloads : Type 1 where
  pub Value : Type 0
  -- The length of `serde_json::to_vec`, or its failure.
  pub encoded_len : Value → Option ℕ
  -- `json!` of a marker: its message, the severity `warning`, `original_item_count`, `kept_item_count`.
  pub truncation_value : Text → ℕ → ℕ → Value

pub record EvidenceLimits : Type 0 where
  pub max_items_per_file : ℕ
  pub max_payload_bytes_per_item : ℕ
  pub max_payload_bytes_per_file : ℕ

pub data Admission : Type 0 where
  keep drop_item stop : Admission

abbrev pub truncation_marker_reserve_bytes : ℕ
truncation_marker_reserve_bytes = 512

abbrev pub is_stop : Admission → Bool
is_stop stop = true
is_stop _ = false

module _ (p : Payloads) where
  pub record EvidenceItem : Type 0 where
    pub key : String
    pub kind : EvidenceKind
    pub origin : EvidenceOrigin
    pub span : SpanAvailability
    pub payload : p.Value

  pub record EvidenceBudget : Type 0 where
    pub max_items : ℕ
    pub max_bytes : ℕ
    pub max_payload_bytes_per_item : ℕ
    pub kept : List EvidenceItem
    pub cumulative_bytes : ℕ
    pub oversized_dropped : ℕ
    pub unmeasurable_dropped : ℕ
    pub limit_truncated : Bool

  unfoldable pub truncation_evidence : ℕ → ℕ → ℕ → ℕ → EvidenceItem
  unfolding truncation_message
  truncation_evidence original_count kept_count oversized_dropped unmeasurable_dropped = record {
    key = "evidence:truncated";
    kind = diagnostic;
    origin = source_content;
    span = derived_evidence;
    payload =
        p.truncation_value
          (truncation_message oversized_dropped
            (original_count - kept_count - oversized_dropped - unmeasurable_dropped)
            unmeasurable_dropped)
          original_count kept_count;
  }

  -- `EvidenceBudget::new`.
  unfoldable pub new_budget : EvidenceLimits → EvidenceBudget
  new_budget cap = record {
    max_items = cap.max_items_per_file - 1;
    max_bytes = cap.max_payload_bytes_per_file - truncation_marker_reserve_bytes;
    max_payload_bytes_per_item = cap.max_payload_bytes_per_item;
    kept = [];
    cumulative_bytes = 0;
    oversized_dropped = 0;
    unmeasurable_dropped = 0;
    limit_truncated = false;
  }

  unfoldable pub admit_measured : EvidenceBudget → EvidenceItem → ℕ → EvidenceBudget × Admission
  admit_measured b item payload_bytes =
      if ltb b.max_payload_bytes_per_item payload_bytes
      then (record b { oversized_dropped = b.oversized_dropped + 1 }, drop_item)
      else if ltb b.max_bytes (saturating_add b.cumulative_bytes payload_bytes)
      then (record b { limit_truncated = true }, stop)
      else (
        record b {
          cumulative_bytes = b.cumulative_bytes + payload_bytes;
          kept = b.kept ++ item ∷ [];
        },
        keep,
      )

  -- `EvidenceBudget::admit`.
  unfoldable pub admit : EvidenceBudget → EvidenceItem → EvidenceBudget × Admission
  unfolding admit_measured
  admit b item =
      if leb b.max_items (length b.kept)
      then (record b { limit_truncated = true }, stop)
      else elim (p.encoded_len item.payload) [
        | none ↦ (record b { unmeasurable_dropped = b.unmeasurable_dropped + 1 }, drop_item)
        | some payload_bytes ↦ admit_measured b item payload_bytes
      ]

  -- The loop over the drained items, which ends at the first `Stop`.
  unfoldable pub admit_all : EvidenceBudget → List EvidenceItem → EvidenceBudget
  admit_all b [] = b
  admit_all b (item ∷ items) = elim (is_stop (admit b item).1) [
    | true ↦ (admit b item).0
    | false ↦ admit_all (admit b item).0 items
  ]

  unfoldable pub anything_discarded : EvidenceBudget → Bool
  anything_discarded b =
      b.limit_truncated || ltb 0 b.oversized_dropped || ltb 0 b.unmeasurable_dropped

  -- The list that the file's record stores, and whether anything was discarded.
  unfoldable pub apply_evidence_limits :
      List EvidenceItem → EvidenceLimits → List EvidenceItem × Bool
  unfolding anything_discarded new_budget truncation_evidence
  apply_evidence_limits items limits =
      let budget = admit_all (new_budget limits) items in
      if anything_discarded budget
      then (
        budget.kept
            ++ truncation_evidence (length items) (length budget.kept) budget.oversized_dropped
                budget.unmeasurable_dropped
              ∷ [],
        true,
      )
      else (budget.kept, false)
