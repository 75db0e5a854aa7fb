-- ===== src/SourceLimits/Steps.antt =====
-- The steps of the scanner: every handler keeps the facts of a scan and consumes a byte.
use slugaudit.Base.{
  ℕ, ◌+◌, ◌<◌, ◌≡◌, refl, ap, inl, inr, true, ◌&&◌, some, List, arith, ◌==◌, if◌then◌else◌, length,
  get_elem?, drop, sub64, Bool-cases, Option-cases, u64_max,
}
use slugaudit.SourceLimits.{
  State, normal, line_comment, block_comment, string, char, raw_string, ScanCursor, backslash,
  quote, double_quote, advance_byte, at_pair, enter, with_code, step_line_comment,
  step_block_comment, step_quoted, hash_run, step_raw_string, is_char_literal_start,
  is_raw_string_start, step_normal, step_state, is_ascii_whitespace, scan_step,
}
use slugaudit.SourceLimits.Scan.{
  in_block, IsScan, Consumes, in_range, advance_byte-counted, advance_byte-Consumes, jump-counted,
  code-IsScan, enter-Consumes, Consumes-code, skip-Consumes, raw_start-Consumes, plain-Consumes,
  either, block-Consumes,
}

module _ (bytes : List ℕ) where
  step_line_comment-Consumes :
      (byte : ℕ) (c : ScanCursor)
      → get_elem? bytes c.index ≡ some byte
      → IsScan bytes c
      → Consumes bytes c (step_line_comment byte c)
  unfolding step_line_comment advance_byte
  step_line_comment-Consumes byte c h s = record {
    scan = record {
      counted = ground (arith, advance_byte-counted bytes byte c h s.counted);
      deep = ground (arith, s.deep);
      shallow = ground (arith, s.shallow);
    };
    forward = ground arith;
  }

  step_block_comment-Consumes :
      (byte : ℕ) (c : ScanCursor)
      → get_elem? bytes c.index ≡ some byte
      → c.index < u64_max
      → in_block c.state ≡ true
      → IsScan bytes c
      → Consumes bytes c (step_block_comment bytes byte c)
  unfolding step_block_comment
  step_block_comment-Consumes byte c h top b s =
      let d : 0 < c.block_depth = s.deep b in
      elim (Bool-cases (at_pair bytes c b'/' b'*')) [
        | inl e ↦ rw e (record {
          scan = record {
            counted = jump-counted bytes c 2 s;
            deep = λ x. omega arith;
            shallow = omega (arith, s.shallow);
          };
          forward = omega arith;
        })
        | inr e ↦ rw e (elim (Bool-cases (at_pair bytes c b'*' b'/')) [
          | inr g ↦ rw g (advance_byte-Consumes bytes byte c h s)
          | inl g ↦ rw g (elim (Bool-cases (sub64 c.block_depth 1 == 0)) [
            | inl k ↦ rw k (record {
              scan = record {
                counted = jump-counted bytes c 2 s;
                deep = λ x. cc;
                shallow = omega (arith, s.shallow);
              };
              forward = omega arith;
            })
            | inr k ↦ rw k (record {
              scan = record {
                counted = jump-counted bytes c 2 s;
                deep = λ x. ground arith;
                shallow = omega (arith, s.shallow);
              };
              forward = omega arith;
            })
          ])
        ])
      ]

  step_quoted-Consumes :
      (byte close : ℕ) (c : ScanCursor)
      → get_elem? bytes c.index ≡ some byte
      → IsScan bytes c
      → Consumes bytes c (step_quoted bytes byte close c)
  unfolding step_quoted
  step_quoted-Consumes byte close c h s = elim (Bool-cases (byte == backslash)) [
    | inr e ↦ rw e plain
    | inl e ↦ rw e (elim (Option-cases (get_elem? bytes (c.index + 1))) [
      | inl n ↦ rw n plain
      | inr (x, n) ↦
          rw n (
            Consumes-code bytes c _ (skip-Consumes bytes x (with_code c) n (code-IsScan bytes c s)))
    ])
  ]
    where
      plain :
          Consumes bytes c (
            if byte == close then enter normal 1 (with_code c) else advance_byte byte (with_code c))
      plain = elim (Bool-cases (byte == close)) [
        | inl e ↦ rw e (
            Consumes-code bytes c _ (
              enter-Consumes bytes (with_code c) normal 1 (omega arith) refl
                (code-IsScan bytes c s)))
        | inr e ↦ rw e (
            Consumes-code bytes c _
              (advance_byte-Consumes bytes byte (with_code c) h (code-IsScan bytes c s)))
      ]

  step_raw_string-Consumes :
      (byte : ℕ) (c : ScanCursor)
      → get_elem? bytes c.index ≡ some byte
      → IsScan bytes c
      → Consumes bytes c (step_raw_string bytes byte c)
  unfolding step_raw_string
  step_raw_string-Consumes byte c h s =
      elim (Bool-cases (byte == double_quote && hash_run bytes (c.index + 1) c.raw_hashes)) [
        | inl e ↦ rw e (
            Consumes-code bytes c _ (
              enter-Consumes bytes (with_code c) normal (c.raw_hashes + 1) (omega arith) refl
                (code-IsScan bytes c s)))
        | inr e ↦ rw e (
            Consumes-code bytes c _
              (advance_byte-Consumes bytes byte (with_code c) h (code-IsScan bytes c s)))
      ]

  step_normal-Consumes :
      (byte : ℕ) (c : ScanCursor)
      → get_elem? bytes c.index ≡ some byte
      → IsScan bytes c
      → Consumes bytes c (step_normal bytes byte c)
  unfolding step_normal
  step_normal-Consumes byte c h s =
      let plain = plain-Consumes bytes byte c h s (is_ascii_whitespace byte) in
      either bytes c _ _ (at_pair bytes c 47 47)
        (enter-Consumes bytes c line_comment 2 (omega arith) refl s)
        (either bytes c _ _ (at_pair bytes c 47 42) (block-Consumes bytes c s) (
          either bytes c _ _ (byte == double_quote)
            (Consumes-code bytes c _ (
              enter-Consumes bytes (with_code c) string 1 (omega arith) refl
                (code-IsScan bytes c s)))
            (either bytes c _ _ (byte == quote && is_char_literal_start (drop c.index bytes))
              (Consumes-code bytes c _ (
                enter-Consumes bytes (with_code c) char 1 (omega arith) refl
                  (code-IsScan bytes c s)))
              (either bytes c _ _ (byte == b'r')
                (raw_start-Consumes bytes (is_raw_string_start (drop c.index bytes)) c _ s plain)
                plain))))

  step_state-Consumes :
      (st : State) (byte : ℕ) (c : ScanCursor)
      → c.state ≡ st
      → get_elem? bytes c.index ≡ some byte
      → c.index < u64_max
      → IsScan bytes c
      → Consumes bytes c (step_state st bytes byte c)
  unfolding step_state
  step_state-Consumes normal byte c e h top s = step_normal-Consumes byte c h s
  step_state-Consumes line_comment byte c e h top s = step_line_comment-Consumes byte c h s
  step_state-Consumes block_comment byte c e h top s =
      step_block_comment-Consumes byte c h top (ap in_block e) s
  step_state-Consumes string byte c e h top s = step_quoted-Consumes byte double_quote c h s
  step_state-Consumes char byte c e h top s = step_quoted-Consumes byte quote c h s
  step_state-Consumes raw_string byte c e h top s = step_raw_string-Consumes byte c h s

  -- At an offset inside the source, each step of the scanner keeps its facts and consumes a byte.
  pub scan_step-Consumes :
      (c : ScanCursor)
      → length bytes < u64_max
      → c.index < length bytes
      → IsScan bytes c
      → Consumes bytes c (scan_step bytes c)
  unfolding scan_step
  scan_step-Consumes c top h s =
      let (byte, e) = in_range bytes c.index h in
      rw e (step_state-Consumes c.state byte c refl e (omega arith) s)
