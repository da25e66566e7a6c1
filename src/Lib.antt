-- ===== src/Lib.antt =====
-- FlistWalker: fast fuzzy search over the files below a root, or over a list of files.
--
-- The modelled part is the search, from the query that the user types to the results and the
-- positions that are highlighted. `rust/src/query.rs` parses a query into include, exact and exclude
-- terms. `rust/src/query/compiled.rs` compiles them once and then, for each candidate, decides
-- whether it matches, scores it and finds its highlighted positions. `rust/src/search` runs a
-- compiled query over the entries of an index: `cache.rs` keeps the indices that earlier queries
-- matched, so that a longer query looks only at these; `execute.rs` collects the matches one after
-- the other or with a thread pool, as `config.rs` decides; `rank.rs` and `mod.rs` order them and
-- cut them off at the limit.
--
-- Around the search, `rust/src/app` keeps the query with the history of earlier queries, exchanges
-- them as the tabs change, and hands the searches to worker threads over bounded channels whose load
-- it counts.
--
-- The updater replaces the program and the three documents beside it, by a transaction
-- (`rust/src/updater/transaction.rs`): a marker on disk notes each step before it is taken, a
-- helper process applies the prepared files when the program has exited, and every start of the
-- program takes up what an interrupted helper has left. The phases and the states in the marker say
-- which of the four targets the helper has come to.
--
-- The files, and the code that each is about:
--   Prelude           names of the libraries, Boolean tests, lists, Rust's `Result`
--   Text              the operations of `str` that the program uses; a text is a list of code points
--   Paths             rust/src/path_utils.rs and the parts of `std::path` that it uses
--   Sorting           `sort_by` as insertion sort, and the contract of `select_nth_unstable_by`
--   Query/Parse       rust/src/query.rs: parse_query, split_anchor, parse_include_alternative
--   Query/Regex       the regex crate, as a parameter
--   Query/Pattern     rust/src/query/compiled.rs: literal patterns and sets of alternatives
--   Query/Match       rust/src/query/compiled.rs: the tests of a pattern on a text
--   Query/Candidate   rust/src/query/compiled.rs: PreparedCandidate, CompiledIgnoreTerms
--   Query/Compiled    rust/src/query/compiled.rs: CompiledQuery
--   Query/Score       rust/src/query/compiled.rs: score_entry, evaluate_with_matcher
--   Query/Spans       rust/src/query/compiled.rs: collect_spans and what it calls
--   Search/Config     rust/src/search/config.rs
--   Search/Cache      rust/src/search/cache.rs: SearchPrefixCache
--   Search/Rank       rust/src/search/rank.rs
--   Search/Collect    rust/src/search/execute.rs and match_eval.rs
--   Search/Execute    rust/src/search/execute.rs and mod.rs: the resolved execution mode
--   Search/Modes      rust/src/search/mod.rs: sorting by name and by metadata
--   Search/Engine     rust/src/search/mod.rs: rank_search_results and the public searches
--   App/QueryState    rust/src/app/query_state.rs
--   App/History       rust/src/app/input/history.rs: the history of queries and the search in it
--   App/TabState      rust/src/app/tab_state.rs: what a tab keeps of the query
--   App/Tabs          rust/src/app/tabs.rs: the query state as the tabs change
--   App/Window        rust/src/app/render_panels.rs and input/navigation.rs: rows, clearing
--   App/IgnoreMatcher rust/src/app/cache.rs: the compiled ignore terms
--   App/WorkerChannel rust/src/app/worker_channel.rs: the counters of a bounded channel
--   Updater           rust/src/updater/transaction.rs:
--     Updater/Marker      the marker and validate_marker
--     Updater/Disk        the files of one target, and the calls on them
--     Updater/World       the installation directory; read_marker, write_marker_atomic
--     Updater/Rollback    rollback_transaction, verify_bundle_hashes
--     Updater/Cleanup     cleanup_committed, cleanup_rolled_back
--     Updater/Apply       execute_registered_transaction
--     Updater/Register    register_helper, acknowledge_registered_helper, run_internal_helper
--     Updater/Recover     recover_transaction
--     Updater/Exec        actions on files that can fail or stop at any call
--     Updater/Recoverable the invariant of a transaction, and its proofs
--   Tests             runs on small inputs
--
-- A function of the source is a definition of the same name; what a loop keeps in variables are
-- arguments of the definition that stands for the loop. A method that changes its object returns
-- the new object: the cache is passed in and returned. `usize` has 64 bits; saturating operations
-- are written out, and subtraction stops at zero where the source's does. Numbers of bytes are those
-- of UTF-8. An `Arc<Vec<Entry>>` is the address of the allocation with the list that it holds, and a
-- weak pointer is the address, with a test that tells whether the allocation lives.
--
-- In the updater a file is its SHA-256, a marker file is the marker that its JSON holds, and the
-- variable `marker` of the running function is a part of the state. Each call of the file system is
-- one step, and a schedule says of each step whether it works, fails, or is the last of the process;
-- what was done before stays on disk. A call that makes a file makes it whole or not at all, a sync
-- is a step that changes nothing, and neither reading metadata nor the reads by which a recovery
-- decides on a living helper fail. A link to nothing is taken for a file that is there. Whether a
-- process lives is asked of a parameter; waiting for the parent, starting the new program and the
-- hook of the tests give the results that a parameter says. That the installation directory is
-- itself no link, and that the derived paths lie in it, is taken for granted. Of the branches by
-- system the model has those of Linux.
--
-- Two loops run on fuel: `count_from` on the length of the text, since each occurrence that it skips
-- is not empty, and `chunks` on the length of the list, since a chunk is not empty.
--
-- Parameters: the regex crate (RegexEngine); `f64` and the fuzzy matcher (Scoring), of which the
-- order of the matches needs that scores other than NaN compare like numbers (NumberOrder);
-- the environment (Environment); the thread pool, which must cover the list and merge its parts in
-- order (IsPool); `select_nth_unstable_by` (IsSelection); and the metadata of files.
--
-- Not modelled: the Windows branches, among them the `.previous` file of the marker; non-UTF-8 names
-- and logging; the parts of the program around the search (the indexer, the rest of the application
-- with its workers and window, the session, and all of a tab but its query); of the updater, the
-- search for releases, the download, the preparation of a transaction, the waiting of its helper,
-- and files that are written in part. A user's actions on the query, its history and the tabs are a
-- list of commands, and the threads at a channel are a relation of single steps, in any order.
pub mod Prelude
pub mod Text
pub mod Paths
pub mod Sorting
pub mod Query
pub mod Search
pub mod App
pub mod Updater
pub mod Tests
