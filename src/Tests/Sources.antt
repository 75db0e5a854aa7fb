-- ===== src/Tests/Sources.antt =====
-- A position behind a multi-byte character, and one change of each kind.
use slugaudit.Base.{text_in}
use slugaudit.Base.{
  ◌++◌, not, ℕ, ◌≡◌, refl, false, ◌&&◌, none, List, [], ◌∷◌, map, String, if◌then◌else◌, take,
  filter, ok, ◌>>=◌,
}
use slugaudit.SourceLimits.{newline}
use slugaudit.Span.{position, position_u32, new_index}
use slugaudit.Span.Starts.{walk}
use slugaudit.Span.Positions.{IsFloor, position-walk}
use slugaudit.Diff.{compare, add_load_failed_retries}
use slugaudit.Diff.Retries.{listings, is_changed, statuses_at-retries}
use slugaudit.Diff.Publish.{Sample, build_upserts_and_deletions}
use slugaudit.Diff.Written.{is_written, is_gone, build_upserts_and_deletions-compare}
use slugaudit.Diff.Maps.{last_hash}
use slugaudit.Diff.Status.{statuses_at, expected, statuses_at-compare}

-- `a`, a newline, a character of two bytes, `b`.
abbrev source : List ℕ
source = b'a' ∷ newline ∷ 195 ∷ 169 ∷ b'b' ∷ []

position-walk_example :
    (n : ℕ) × IsFloor source 4 n
    × (position (new_index source) 4 ≡ (
        let (l, c) = walk 0 0 (take n source) in
        position_u32 l >>= λ line.
        position_u32 c >>= λ column. ok (record { line = line; column = column })))
position-walk_example = position-walk source 4

-- On the second line, one character in.
position-4 : position (new_index source) 4 ≡ ok (record { line = 1; column = 1 })
unfolding position new_index
position-4 = refl

abbrev stored : List (List ℕ × List ℕ)
stored = (b'a' ∷ [], 1 ∷ []) ∷ (b'b' ∷ [], 2 ∷ []) ∷ []

abbrev current : List (List ℕ × List ℕ)
current = (b'c' ∷ [], 3 ∷ []) ∷ (b'b' ∷ [], 4 ∷ []) ∷ []

statuses_at-compare_example :
    statuses_at (b'b' ∷ []) (compare stored current)
    ≡ expected (last_hash (b'b' ∷ []) none stored) (last_hash (b'b' ∷ []) none current)
statuses_at-compare_example = statuses_at-compare (b'b' ∷ []) stored current

abbrev sample : ℕ → Sample
sample name = record {
  relative_path = name ∷ [];
  is_binary = false;
  content = none;
  identity = record { relative_path = name ∷ []; content_hash = []; hash_algorithm = "blake3-v1" };
  byte_len = 0;
  modified_unix_seconds = none;
}

-- The record of a file is its length here.
abbrev record_of : Sample → ℕ
record_of s = s.byte_len

build_upserts_and_deletions-compare_example :
    (gone : List (List ℕ)) × (build_upserts_and_deletions {E = String}
        (λ s. ok (record_of s))
        (λ k. none)
        (sample b'b' ∷ sample b'd' ∷ [])
        (compare stored current)
        false
      ≡ ok (
        map record_of (filter (is_written false stored current) (sample b'b' ∷ sample b'd' ∷ [])),
        gone,
      ))
    × ((p : List ℕ) → text_in p gone ≡ is_gone (last_hash p none stored) (last_hash p none current))
build_upserts_and_deletions-compare_example =
    build_upserts_and_deletions-compare (λ s. ok (record_of s)) record_of
      (sample b'b' ∷ sample b'd' ∷ []) stored current false (λ s. refl)

statuses_at-retries_example :
    statuses_at (b'c' ∷ []) (add_load_failed_retries [] current ((b'c' ∷ []) ∷ []))
    ≡ statuses_at (b'c' ∷ []) []
      ++ (if text_in (b'c' ∷ []) ((b'c' ∷ []) ∷ []) && not (is_changed (statuses_at (b'c' ∷ []) []))
          then listings (b'c' ∷ []) current
          else [])
statuses_at-retries_example = statuses_at-retries (b'c' ∷ []) [] current ((b'c' ∷ []) ∷ [])
