-- ===== src/Search/Execute.antt =====
-- rust/src/search/execute.rs, mod.rs: the matches of a query, collected in the resolved execution mode.
pub mod Same
use flist_walker.Prelude.{
  ℕ, Bool, Option, none, some, List, [], length, is_empty, Result, ◌>>=◌, ok, if◌then◌else◌,
}
use flist_walker.Text.{Text, trim}
use flist_walker.Paths.{FilePath}
use flist_walker.Query.Regex.{RegexEngine}
use flist_walker.Query.Score.{Scoring}
use flist_walker.Query.Compiled.{CompiledQuery, compile}
use flist_walker.Search.Config.{
  Environment, SearchExecutionMode, auto, parallel, search_parallel_chunk_size,
  resolve_execution_mode,
}
use flist_walker.Search.Rank.{SearchCandidateScore}
use flist_walker.Search.Modes.{Metadata}
use flist_walker.Search.Collect.{
  SearchContext, evaluate_candidate, collect_sequential, parallel_parts,
}

-- What a search takes from the process besides the environment: `rayon`'s splitting and reducing,
-- `select_nth_unstable_by`, and the file system's metadata.
pub record Runtime (S : Type 0) : Type 0 where
  pub env : Environment
  pub segments : ℕ → List FilePath → List (List FilePath)
  pub reduce : List (List S) → List S
  pub select : ℕ → List S → List S
  pub metadata : FilePath → Option Metadata

abbrev pub Match : Scoring → Type 0
Match scoring = SearchCandidateScore scoring

pub record SearchCollectOptions : Type 0 where
  pub use_regex : Bool
  pub ignore_case : Bool
  pub root : Option FilePath
  pub prefer_relative : Bool
  pub candidate_indices : Option (List ℕ)
  pub mode : SearchExecutionMode

abbrev pub candidate_count : List FilePath → Option (List ℕ) → ℕ
candidate_count entries none = length entries
candidate_count entries (some indices) = length indices

module _ (engine : RegexEngine) (scoring : Scoring) where
  open scoring use {Score, of_nat}

  abbrev pub eval_with :
      CompiledQuery engine → SearchContext → FilePath → ℕ → ℕ → Option (Match scoring)
  eval_with compiled ctx path index ordinal =
      evaluate_candidate engine scoring path index ordinal compiled ctx

  -- `collect_entries_parallel` and `collect_parallel`
  unfoldable pub collect_parallel :
      Runtime (Match scoring)
      → List FilePath
      → CompiledQuery engine
      → SearchContext
      → Option (List ℕ)
      → List (Match scoring)
  collect_parallel rt entries compiled ctx candidate_indices =
      let count = candidate_count entries candidate_indices in
      let chunk_size = search_parallel_chunk_size rt.env count in
      rt.reduce (
        parallel_parts (eval_with compiled ctx) entries candidate_indices chunk_size
          (rt.segments chunk_size entries))

  -- The arm of `Auto` is unreachable.
  unfoldable pub collect_with :
      Runtime (Match scoring)
      → List FilePath
      → CompiledQuery engine
      → SearchContext
      → Option (List ℕ)
      → SearchExecutionMode
      → List (Match scoring)
  collect_with rt entries compiled ctx candidate_indices parallel =
      collect_parallel rt entries compiled ctx candidate_indices
  collect_with rt entries compiled ctx candidate_indices _ =
      collect_sequential (eval_with compiled ctx) entries candidate_indices

  -- `try_collect_entry_matches_with_mode` and `try_collect_search_matches_with_mode`
  unfoldable pub try_collect_matches_with_mode :
      Runtime (Match scoring)
      → Text
      → List FilePath
      → SearchCollectOptions
      → Result (List (Match scoring)) Text
  try_collect_matches_with_mode rt query entries options =
      let q = trim query in
      if is_empty q then ok [] else do
        compiled ←
            compile engine q
              (record { use_regex = options.use_regex; ignore_case = options.ignore_case })
        let ctx : SearchContext = record {
          root = options.root;
          prefer_relative = options.prefer_relative;
        }
        ok (
            collect_with rt entries compiled ctx options.candidate_indices (
              resolve_execution_mode rt.env options.mode
                (candidate_count entries options.candidate_indices)))

  -- `try_collect_entry_matches` and `try_collect_search_matches`
  unfoldable pub try_collect_matches :
      Runtime (Match scoring)
      → Text
      → List FilePath
      → Bool
      → Bool
      → Option FilePath
      → Bool
      → Option (List ℕ)
      → Result (List (Match scoring)) Text
  try_collect_matches rt query entries use_regex ignore_case root prefer_relative
        candidate_indices =
      try_collect_matches_with_mode rt query entries (record {
        use_regex = use_regex;
        ignore_case = ignore_case;
        root = root;
        prefer_relative = prefer_relative;
        candidate_indices = candidate_indices;
        mode = auto;
      })
