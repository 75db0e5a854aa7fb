-- ===== src/Lib.antt =====
-- A model of the core of slugaudit, a server that indexes a repository and answers queries about it
-- in pages. Paths are from the repository's root.
--
-- The parts, and the files that model them:
-- - `src/store/result_store/registry.rs`: the registry of materialised results and its admission policy.
--   ResultStore/Entry.antt has one result (`Entry`, `class`, `served`); ResultStore/Registry.antt has the
--   registry (`admit`, `plan_reclaim`, `count_class`). The hash map is an association list with one entry
--   for each key, a result's identifier is a number, an atomic field is a field. The modules below
--   Registry go from the map (Map) over the plan of a reclaim (Candidates, Plan) and its execution
--   (Reclaim) to the three outcomes of an admission (Outcome), and from there to Budget and Choice.
-- - `src/store/result_store/cell.rs`, `error.rs`, `writer.rs` (`encode_marks`), `reader.rs`
--   (`decode_row`, `decode_marks`, `read_rows`): ResultStore/Cell.antt, Row.antt and Reader.antt. A stored
--   value is its SQLite storage class. Doubles, serde_json's two functions and the rows that a SQL
--   statement yields are parameters. `read_all` of Reader/Coverage.antt is a client that follows the
--   cursors; its fuel is one more than the rows that are left.
-- - `src/store/result_store/cursor.rs`: ResultStore/Cursor.antt. A token is its code points; the `uuid`
--   library is a parameter, a UUID a number below 2^128.
-- - `src/store/result_store/store.rs`, `stats.rs`, `limits.rs` and `read_page` of `reader.rs`:
--   ResultStore/Service.antt, Service/Stats.antt and Service/Reading.antt. An operation takes the store and
--   gives the store that it leaves with its result; a store whose registry lock is poisoned has none. The
--   clock's readings and what SQLite answers about a file are arguments. Service/Reachability.antt has the
--   store as a step relation.
-- - `src/store/result_store/writer.rs` and `measure_bytes` of `result_file.rs`: ResultStore/Writer.antt. The
--   statements are a parameter; the laws of Writer/Contents.antt say what they do to the tables
--   `rows` and `meta`.
-- - `src/store/result_store/owner.rs` (`sweep` and what it calls): ResultStore/Owner.antt. The answers of
--   the file system during the sweep are a parameter.
-- - `src/error_codes.rs`: ErrorCodes.antt. An error is its kind and its payload.
-- - `src/tools/paginate.rs`, `src/tools/page.rs`: Paginate.antt, the continuation of a stored result and the
--   page block. `follow` of Paginate/Follow.antt is a client that follows the tokens, each call with a spec
--   and a time of its own; its fuel is one more than the rows that are left.
-- - `src/sync/evidence_limits.rs`, `truncation_evidence` of `src/sync/sample.rs`, the types of
--   `src/model/evidence.rs`: Evidence.antt. serde_json is a parameter (the size of a payload's encoding
--   and the object of a marker). Logging is left out.
-- - `src/model/limits.rs`, `profile.rs`, `env_overrides.rs`, `limit_overrides.rs` and
--   `src/tools/page_size.rs`: Limits.antt and Limits/Overrides.antt. Durations are seconds. The
--   environment that was read and the memory that was detected are inputs. The ledger of warnings is a
--   list, or nothing when its lock is poisoned.
-- - `src/model/span.rs`: Span.antt. A source is its bytes. The totals of the blocks take a byte of fuel
--   for each byte; each block consumes at least one.
-- - `src/sync/manifest.rs` and `src/sync/publish_diff.rs`: Diff.antt and Diff/Publish.antt. A `BTreeMap`
--   is an association list in key order; paths and hashes are bytes. The database's rows, the clock and
--   the analysis of a file are parameters.
-- - `src/graph/resolve.rs`, `rust_paths.rs`, `resolve_rust.rs` and `resolver/types.rs`: Graph.antt and
--   Graph/Rust.antt, the imports of Rust. A path is its characters; the loop of `crate_src_dir` takes one
--   unit of fuel for each character of the directory and one more, the loop over `super::` one for each
--   character of the text.
-- - `src/sync/classify.rs`: Classify.antt.
-- - `src/util/time.rs` (`Deadline`): Deadline.antt, in nanoseconds.
-- - `src/bin/check_source_limits/scanner.rs`, `counter.rs`, `approval.rs`: SourceLimits.antt, the gate
--   that counts code lines. The loop takes a byte of fuel for each byte; each step consumes one.
--
-- The parts meet in the limits: a profile with its overrides gives the evidence caps, the page size, and
-- the budget and grace period under which the registry admits the results that a writer materialises
-- and that a client then pages through by tokens. A publish compares the tree with the stored revision,
-- and the evidence of each file that it writes passes the caps.
--
-- 64-bit sums and differences wrap (`add64`, `sub64` of Base/Words.antt), saturating ones saturate.
--
-- Not modelled: SQLite connections, migrations and statements; threads and locks, but for the outcome of
-- a poisoned lock; the file system; discovery, hashing and the retry loop of a publish; tree-sitter
-- parsing and the normalisation of its output; the references of languages other than Rust; the tool
-- handlers and their JSON, and the fresh request of a paged tool before its first row; the command line,
-- the installer and the updater; taking the owner lock of the result store.
-- These are input and output around the parts above, or build on libraries that are not in the
-- repository.
mod Base
pub mod ResultStore
pub mod Evidence
pub mod Limits
pub mod SourceLimits
pub mod Span
pub mod Diff
pub mod ErrorCodes
pub mod Paginate
pub mod Graph
pub mod Classify
pub mod Deadline
mod Tests
