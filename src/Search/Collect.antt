-- ===== src/Search/Collect.antt =====
-- rust/src/search/execute.rs and match_eval.rs: the candidates are evaluated one after the other or
-- by the thread pool.
pub mod Parallel
pub mod Members
use flist_walker.Prelude.{
  ℕ, zero, suc, ◌+◌, ◌≡◌, Bool, Option, none, some, List, [], ◌∷◌, ◌++◌, length, get_elem?, take,
  drop,
}
use flist_walker.Paths.{FilePath}
use flist_walker.Query.Regex.{RegexEngine}
use flist_walker.Query.Score.{Scoring, evaluate, rank_only}
use flist_walker.Query.Compiled.{CompiledQuery, prepare_candidate}
use flist_walker.Search.Config.{saturating_mul}
use flist_walker.Search.Rank.{SearchCandidateScore}

pub record SearchContext : Type 0 where
  pub root : Option FilePath
  pub prefer_relative : Bool

module _ (engine : RegexEngine) (scoring : Scoring) where
  unfoldable pub evaluate_candidate :
      FilePath
      → ℕ
      → ℕ
      → CompiledQuery engine
      → SearchContext
      → Option (SearchCandidateScore scoring)
  evaluate_candidate path index ordinal compiled ctx =
      let prepared = prepare_candidate engine compiled path ctx.root ctx.prefer_relative in
      elim (evaluate scoring engine compiled prepared rank_only) [
        | none ↦ none
        | some evaluation ↦
            some (record { index = index; score = evaluation.score; ordinal = ordinal })
      ]

-- `par_chunks(chunk_size)`: fuel is the length of the list.
unfoldable pub chunks : ℕ → ℕ → List ℕ → List (List ℕ)
chunks zero size xs = []
chunks (suc fuel) size [] = []
chunks (suc fuel) size (x ∷ xs) = take size (x ∷ xs) ∷ chunks fuel size (drop size (x ∷ xs))

module _ {E S : Type 0} (eval : E → ℕ → ℕ → Option S) where
  -- `indices.iter().copied().enumerate().filter_map(..)`, with the entry at each index evaluated;
  -- `ordinal` is the number of the first.
  unfoldable pub collect_indices : List E → ℕ → List ℕ → List S
  collect_indices entries ordinal [] = []
  collect_indices entries ordinal (index ∷ indices) =
      let rest = collect_indices entries (ordinal + 1) indices in
      elim (get_elem? entries index) [
        | none ↦ rest
        | some entry ↦ elim (eval entry index ordinal) [ none ↦ rest | some item ↦ item ∷ rest ]
      ]

  -- `entries.iter().enumerate().filter_map(..)`, from the index `index` on
  unfoldable pub collect_all : ℕ → List E → List S
  collect_all index [] = []
  collect_all index (entry ∷ entries) =
      let rest = collect_all (index + 1) entries in
      elim (eval entry index index) [ none ↦ rest | some item ↦ item ∷ rest ]

  -- `collect_sequential` and, for entries of an index, `collect_entries_sequential`
  unfoldable pub collect_sequential : List E → Option (List ℕ) → List S
  collect_sequential entries (some indices) = collect_indices entries 0 indices
  collect_sequential entries none = collect_all 0 entries

  -- `.enumerate().map(..)` over the chunks; `chunk_idx` is the number of the first.
  unfoldable pub collect_chunks : List E → ℕ → ℕ → List (List ℕ) → List (List S)
  collect_chunks entries size chunk_idx [] = []
  collect_chunks entries size chunk_idx (chunk ∷ rest) =
      let base_ordinal = saturating_mul chunk_idx size in
      collect_indices entries base_ordinal chunk ∷ collect_chunks entries size (chunk_idx + 1) rest

  -- The segments into which the pool splits the range of all entries, each folded into a vector.
  unfoldable pub collect_segments : ℕ → List (List E) → List (List S)
  collect_segments index [] = []
  collect_segments index (segment ∷ segments) =
      collect_all index segment ∷ collect_segments (index + length segment) segments

  -- What `collect_parallel` (and `collect_entries_parallel`) reduces: the results of the chunks of
  -- `indices`, or of the segments that the pool chose.
  unfoldable pub parallel_parts : List E → Option (List ℕ) → ℕ → List (List E) → List (List S)
  parallel_parts entries (some indices) size segments =
      collect_chunks entries size 0 (chunks (length indices) size indices)
  parallel_parts entries none size segments = collect_segments 0 segments

-- `reduce(default, merge_chunk_results)`: neighbours are merged in any nesting, and the empty result
-- may be put in anywhere.
pub data Reduces {S : Type 0} : List (List S) → List S → Type 0 where
  identity : Reduces [] []
  single : (result : List S) → Reduces (result ∷ []) result
  merge :
      {parts left right : List (List S)} {result a b : List S}
      → parts ≡ left ++ right
      → result ≡ a ++ b
      → Reduces left a
      → Reduces right b
      → Reduces parts result
