-- ===== src/Tests/Evidence.antt =====
-- Five items under caps of three items, 50 bytes an item and 600 bytes a file.
use slugaudit.Base.{◌+◌, refl, ℕ, ◌≤◌, some, List, [], ◌∷◌, arith, length}
use slugaudit.ResultStore.Cursor.{digits}
use slugaudit.Evidence.Marker.{Compact}
use slugaudit.Evidence.{
  comment, source_content, derived_evidence, Payloads, EvidenceItem, EvidenceLimits,
  apply_evidence_limits,
}
use slugaudit.Evidence.Pass.{bytes}
use slugaudit.Evidence.Caps.{Stored, apply-Stored, apply_bounds}

-- A payload is the length of its encoding, which is compact JSON for a marker.
abbrev sizes : Payloads
sizes = record {
  Value = ℕ;
  encoded_len = λ n. some n;
  truncation_value = λ message o k. 77 + length message + length (digits o) + length (digits k);
}

abbrev item : ℕ → EvidenceItem sizes
item n = record {
  key = "k";
  kind = comment;
  origin = source_content;
  span = derived_evidence;
  payload = n;
}

abbrev items : List (EvidenceItem sizes)
items = item 10 ∷ item 60 ∷ item 20 ∷ item 30 ∷ item 5 ∷ []

abbrev caps : EvidenceLimits
caps = record {
  max_items_per_file = 3;
  max_payload_bytes_per_item = 50;
  max_payload_bytes_per_file = 600;
}

apply-Stored_example : Stored sizes caps items (apply_evidence_limits sizes items caps)
apply-Stored_example = apply-Stored sizes caps items (omega arith)

sizes-Compact : Compact sizes
sizes-Compact = record { compact = λ message o k h. refl }

apply_bounds_example :
    (length (apply_evidence_limits sizes items caps).0 ≤ 3)
    × (bytes sizes caps (apply_evidence_limits sizes items caps).0 ≤ 600)
apply_bounds_example =
    apply_bounds sizes caps items (omega arith) (omega arith) (omega arith) (omega arith)
      sizes-Compact
