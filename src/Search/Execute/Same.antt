-- ===== src/Search/Execute/Same.antt =====
-- The execution mode does not show in the matches.
use flist_walker.Prelude.{ℕ, ◌≤◌, ◌≡◌, refl, Option, none, some, List, [], arith, length}
use flist_walker.Paths.{FilePath}
use flist_walker.Query.Regex.{RegexEngine}
use flist_walker.Query.Score.{Scoring}
use flist_walker.Query.Compiled.{CompiledQuery}
use flist_walker.Search.Config.{
  SearchExecutionMode, auto, sequential, parallel, usize_max, search_parallel_chunk_size,
  search_config_bounds,
}
use flist_walker.Search.Collect.{SearchContext, Reduces, collect_sequential}
use flist_walker.Search.Collect.Parallel.{flatten, parallel-sequential}
use flist_walker.Search.Execute.{
  Runtime, Match, eval_with, collect_parallel, collect_with, candidate_count,
}

-- What the search relies on of the thread pool: the segments of a list are the list, and the parts
-- are merged in order.
pub record IsPool {S : Type 0} (rt : Runtime S) : Type 0 where
  pub covers : (n : ℕ) (entries : List FilePath) → flatten (rt.segments n entries) ≡ entries
  pub reduces : (parts : List (List S)) → Reduces parts (rt.reduce parts)

module _ (engine : RegexEngine) (scoring : Scoring) where
  collect_parallel-same :
      (rt : Runtime (Match scoring)) (entries : List FilePath) (compiled : CompiledQuery engine)
      (ctx : SearchContext) (candidates : Option (List ℕ))
      → IsPool rt
      → candidate_count entries candidates ≤ usize_max
      → collect_parallel engine scoring rt entries compiled ctx candidates
        ≡ collect_sequential (eval_with engine scoring compiled ctx) entries candidates
  unfolding collect_parallel
  collect_parallel-same rt entries compiled ctx candidates pool few =
      let size = search_parallel_chunk_size rt.env (candidate_count entries candidates) in
      let (lo, _, _, _, _) =
        search_config_bounds rt.env auto (candidate_count entries candidates) in
      parallel-sequential (eval_with engine scoring compiled ctx) entries candidates size
        (rt.segments size entries) _ (omega arith) (pool.covers size entries)
        (few_of candidates few) (pool.reduces _)
    where
      few_of :
          (c : Option (List ℕ))
          → candidate_count entries c ≤ usize_max
          → length (elim c [ none ↦ [] | some xs ↦ xs ]) ≤ usize_max
      few_of none h = omega arith
      few_of (some xs) h = h

  -- Whatever the execution mode, the matches are those of sequential collection, in its order and
  -- with its ordinals, for at most usize::MAX candidates and a thread pool that keeps its contract.
  pub collect_with-sequential :
      (rt : Runtime (Match scoring)) (entries : List FilePath) (compiled : CompiledQuery engine)
      (ctx : SearchContext) (candidates : Option (List ℕ)) (mode : SearchExecutionMode)
      → IsPool rt
      → candidate_count entries candidates ≤ usize_max
      → collect_with engine scoring rt entries compiled ctx candidates mode
        ≡ collect_sequential (eval_with engine scoring compiled ctx) entries candidates
  unfolding collect_with
  collect_with-sequential rt entries compiled ctx candidates auto pool few = refl
  collect_with-sequential rt entries compiled ctx candidates sequential pool few = refl
  collect_with-sequential rt entries compiled ctx candidates parallel pool few =
      collect_parallel-same rt entries compiled ctx candidates pool few
