-- ===== src/Tests/Searches.antt =====
-- Witnesses for the search.
use flist_walker.Prelude.{
  ℕ, zero, suc, ◌≤◌, ◌<◌, ◌≡◌, refl, ◌≢◌, ◌↔◌, true, false, Option, none, some, List, [], ◌∷◌, map,
  append-nil, arith, take, Member, here, there, ok,
}
use flist_walker.Tests.{program, literal_engine, whole_scores, scope, alive, no_entries, files}
use flist_walker.Text.{codes, trim}
use flist_walker.Paths.{FilePath, path_key}
use flist_walker.Sorting.{sort_by, insert_by}
use flist_walker.Query.Compiled.{CompiledQuery}
use flist_walker.Query.Compiled.Total.{compile-literal}
use flist_walker.Search.Config.{
  saturating_add, saturating_mul, Environment, auto, parallel, search_config_bounds,
  search_parallel_chunk_min, search_parallel_chunk_max, search_parallel_chunk_size, search_threads,
  search_threads_max, resolve_execution_mode, search_parallel_threshold,
}
use flist_walker.Search.Cache.{
  best_from, remove_at, evict_over_limit, is_same_key, remove_first, without_key, approx_bytes_of,
  SearchPrefixCache, is_eligible,
}
use flist_walker.Search.Collect.{
  collect_indices, collect_all, collect_chunks, collect_segments, evaluate_candidate, Reduces,
  identity, single, merge, collect_sequential, parallel_parts,
}
use flist_walker.Search.Collect.Parallel.{flatten, parallel-sequential}
use flist_walker.Search.Execute.{
  try_collect_matches, try_collect_matches_with_mode, collect_parallel, Runtime, Match, eval_with,
  collect_with,
}
use flist_walker.Search.Execute.Same.{IsPool, collect_with-sequential}
use flist_walker.Search.Engine.{
  finish_search, store_matches, rank_search_results, scored_matches_of, cached_candidates,
}
use flist_walker.Search.Engine.Complete.{MatchesAt, indices_of}
use flist_walker.Search.Engine.Cached.{IsSound, context, cached_search_matches}
use flist_walker.Search.Engine.Sound.{Agree, rank_search_results-IsSound}
use flist_walker.Search.Collect.Members.{Member-nil}
use flist_walker.Search.Rank.{compare_scored_candidates}
use mathlib.Core.List.{Permᴰ}
use flist_walker.Sorting.Selection.{IsSelection}
use flist_walker.Search.Rank.{scored_le, to_indexed, sort_scored_matches, top_ranked_scores}
use flist_walker.Search.Rank.Top.{NumberOrder, top_ranked_scores_lem}
use flist_walker.Search.Modes.{score, shown_results}

flatten-Reduces : {S : Type 0} (parts : List (List S)) → Reduces parts (flatten parts)
flatten-Reduces [] = identity
flatten-Reduces (part ∷ parts) =
    merge {left = part ∷ []} refl refl (single part) (flatten-Reduces parts)

abbrev env : Environment
env = record { parallel_threshold = some 2; threads = some 4; available_parallelism = none }

abbrev pub runtime : Runtime (Match whole_scores)
runtime = record {
  env = env;
  segments = λ size entries. entries ∷ [];
  reduce = flatten;
  select = λ k items. items;
  metadata = λ path. none;
}

runtime-IsPool : IsPool runtime
runtime-IsPool = record { covers = λ n entries. append-nil entries; reduces = flatten-Reduces }

no_entries-IsSound : IsSound literal_engine whole_scores alive scope no_entries
no_entries-IsSound e m = absurd (Member-nil m)

scope-Agree : Agree scope scope
scope-Agree = record { same_list = λ e. refl; same_root = λ e. refl }

abbrev after_mai : SearchPrefixCache
after_mai =
    (rank_search_results literal_engine whole_scores runtime alive scope (codes "mai") 10 false
      score shown_results no_entries).1

rank_search_results-IsSound_example : IsSound literal_engine whole_scores alive scope after_mai
rank_search_results-IsSound_example =
    rank_search_results-IsSound literal_engine whole_scores runtime alive scope scope (codes "mai")
      10 score shown_results no_entries runtime-IsPool (omega arith) scope-Agree no_entries-IsSound
      no_entries-IsSound

abbrev main_query : CompiledQuery literal_engine
main_query = (compile-literal literal_engine (trim (codes "main")) true).0

-- The second search takes its candidates from what the first has stored.
cached_search_matches_example :
    (scored : List (Match whole_scores)) × (scored_matches_of literal_engine whole_scores runtime
        scope
        (codes "main")
        false
        (cached_candidates literal_engine whole_scores alive scope
          (trim (codes "main"))
          false
          after_mai).0
      ≡ ok scored)
    × ((index : ℕ)
        → Member index (indices_of literal_engine whole_scores scored)
          ↔ MatchesAt literal_engine whole_scores main_query files (context scope) index)
unfolding program
cached_search_matches_example =
    cached_search_matches literal_engine whole_scores runtime alive scope (codes "main") after_mai
      runtime-IsPool (omega arith) rank_search_results-IsSound_example refl main_query
      (compile-literal literal_engine (trim (codes "main")) true).1

unfoldable pub engine_parts : Unit {0}
unfolding cached_candidates best_from is_eligible remove_at evict_over_limit is_same_key
    remove_first without_key approx_bytes_of finish_search store_matches scored_matches_of
    try_collect_matches try_collect_matches_with_mode collect_with collect_parallel collect_indices
    collect_all collect_chunks collect_segments parallel_parts evaluate_candidate
    compare_scored_candidates sort_by insert_by saturating_add saturating_mul path_key
    search_parallel_chunk_size resolve_execution_mode
engine_parts = tt

cached_candidates_of_main :
    (cached_candidates literal_engine whole_scores alive scope (codes "main") false after_mai).0
    ≡ some (0 ∷ 2 ∷ 1 ∷ [])
unfolding program engine_parts
cached_candidates_of_main = refl

abbrev query_context : FilePath → ℕ → ℕ → Option (Match whole_scores)
query_context = eval_with literal_engine whole_scores main_query (context scope)

-- Chunks of two candidates each, merged from the left.
parallel-sequential_example :
    flatten (parallel_parts query_context files (some (0 ∷ 2 ∷ 1 ∷ [])) 2 (files ∷ []))
    ≡ collect_sequential query_context files (some (0 ∷ 2 ∷ 1 ∷ []))
parallel-sequential_example =
    parallel-sequential query_context files (some (0 ∷ 2 ∷ 1 ∷ [])) 2 (files ∷ [])
      (flatten (parallel_parts query_context files (some (0 ∷ 2 ∷ 1 ∷ [])) 2 (files ∷ [])))
      (omega arith) refl (omega arith)
      (flatten-Reduces (parallel_parts query_context files (some (0 ∷ 2 ∷ 1 ∷ [])) 2 (files ∷ [])))

collect_with-sequential_example :
    collect_with literal_engine whole_scores runtime files main_query
      (context scope)
      (some (0 ∷ 2 ∷ 1 ∷ []))
      parallel
    ≡ collect_sequential query_context files (some (0 ∷ 2 ∷ 1 ∷ []))
collect_with-sequential_example =
    collect_with-sequential literal_engine whole_scores runtime files main_query (context scope)
      (some (0 ∷ 2 ∷ 1 ∷ [])) parallel runtime-IsPool (omega arith)

search_config_bounds_example :
    (search_parallel_chunk_min ≤ search_parallel_chunk_size env 100000)
    × (search_parallel_chunk_size env 100000 ≤ search_parallel_chunk_max)
    × (search_threads env ≤ search_threads_max)
    × (resolve_execution_mode env auto 100000 ≢ auto)
    × (resolve_execution_mode env auto 100000 ≡ parallel
        → (1 < search_threads env) × (search_parallel_threshold env ≤ 100000))
search_config_bounds_example = search_config_bounds env auto 100000

abbrev whole_numbers : NumberOrder whole_scores
whole_numbers = record { IsNumber = λ n. Unit; rank = λ n. n; compare_numbers = λ a b _ _. refl }

abbrev worse : Match whole_scores
worse = record { index = 4; score = 3; ordinal = 0 }

abbrev better : Match whole_scores
better = record { index = 9; score = 5; ordinal = 1 }

pair-distinct :
    (a b : Match whole_scores)
    → Member a (worse ∷ better ∷ [])
    → Member b (worse ∷ better ∷ [])
    → a.ordinal ≡ b.ordinal
    → a ≡ b
pair-distinct a b (here _) (here _) e = refl
pair-distinct a b (here _) (there _ (here _)) e = absurd (omega (arith, e))
pair-distinct a b (there _ (here _)) (here _) e = absurd (omega (arith, e))
pair-distinct a b (there _ (here _)) (there _ (here _)) e = refl
pair-distinct a b (there _ (there _ m)) k e = absurd (Member-nil m)
pair-distinct a b (here _) (there _ (there _ m)) e = absurd (Member-nil m)
pair-distinct a b (there _ (here _)) (there _ (there _ m)) e = absurd (Member-nil m)

-- The arrangement that a selection of the best leaves.
abbrev selected : ℕ → List (Match whole_scores) → List (Match whole_scores)
selected k items = better ∷ worse ∷ []

selected-IsSelection :
    (k : ℕ)
    → k < 2
    → IsSelection
        (scored_le whole_scores)
        k
        (worse ∷ better ∷ [])
        (selected k (worse ∷ better ∷ []))
unfolding program compare_scored_candidates
selected-IsSelection zero h = record {
  perm = Permᴰ.swap refl refl;
  before = [];
  nth = better;
  after = worse ∷ [];
  split = refl;
  index = refl;
  not_greater = tt;
  not_less = (refl, tt);
}
selected-IsSelection (suc zero) h = record {
  perm = Permᴰ.swap refl refl;
  before = better ∷ [];
  nth = worse;
  after = [];
  split = refl;
  index = refl;
  not_greater = (refl, tt);
  not_less = tt;
}
selected-IsSelection (suc (suc k)) h = absurd (omega arith)

top_ranked_scores_lem_example :
    top_ranked_scores whole_scores selected (worse ∷ better ∷ []) 1
    ≡ take 1
        (map (to_indexed whole_scores) (sort_scored_matches whole_scores (worse ∷ better ∷ [])))
top_ranked_scores_lem_example =
    top_ranked_scores_lem whole_scores whole_numbers (worse ∷ better ∷ []) pair-distinct selected 1
      (tt, (tt, tt)) selected-IsSelection
