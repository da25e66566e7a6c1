-- ===== src/Search/Engine.antt =====
-- rust/src/search/mod.rs: a search from the query to the results, through the prefix cache.
pub mod Complete
pub mod Cached
pub mod Sound
use flist_walker.Prelude.{
  ℕ, ◌+◌, Bool, ◌&&◌, Option, none, some, List, [], ◌∷◌, map, length, is_empty, Result, ◌>>=◌, ok,
  err, leb, if◌then◌else◌,
}
use flist_walker.Text.{Text, trim}
use flist_walker.Paths.{FilePath}
use flist_walker.Query.Regex.{RegexEngine}
use flist_walker.Query.Score.{Scoring}
use flist_walker.Search.Cache.{
  Scope, SearchPrefixCache, lookup_candidates, maybe_store, is_cacheable_query, max_matched_indices,
}
use flist_walker.Search.Rank.{
  IndexedScore, to_indexed, sort_scored_matches, top_ranked_scores, scored_indices_to_paths,
  materialize_scored_entries,
}
use flist_walker.Search.Modes.{
  SearchResultSortMode, SearchResultSortScope, name_asc, name_desc, score, all_matches,
  shown_results, top_name_sorted_scores, top_metadata_sorted_scores,
}
use flist_walker.Search.Execute.{candidate_count, Runtime, Match, try_collect_matches}

module _ (engine : RegexEngine) (scoring : Scoring) where
  open scoring use {Score, of_nat}

  pub record SearchResultSet : Type 0 where
    pub results : List (FilePath × Score)
    pub total_match_count : ℕ
    pub evaluated_candidate_count : ℕ

  abbrev pub no_results : SearchResultSet
  no_results = record { results = []; total_match_count = 0; evaluated_candidate_count = 0 }

  -- The matches of an empty query: every entry, with the score zero.
  unfoldable pub all_entries_from : ℕ → List FilePath → List (Match scoring)
  all_entries_from index [] = []
  all_entries_from index (entry ∷ entries) =
      record { index = index; score = of_nat 0; ordinal = index }
      ∷ all_entries_from (index + 1) entries

  abbrev ranked_by :
      Runtime (Match scoring)
      → List FilePath
      → List (Match scoring)
      → ℕ
      → SearchResultSortMode
      → SearchResultSortScope
      → List (IndexedScore scoring)
  ranked_by rt entries scored limit mode shown_results =
      top_ranked_scores scoring rt.select scored limit
  ranked_by rt entries scored limit score all_matches =
      top_ranked_scores scoring rt.select scored limit
  ranked_by rt entries scored limit name_asc all_matches =
      top_name_sorted_scores scoring entries scored limit name_asc
  ranked_by rt entries scored limit name_desc all_matches =
      top_name_sorted_scores scoring entries scored limit name_desc
  ranked_by rt entries scored limit mode all_matches =
      top_metadata_sorted_scores scoring rt.metadata entries scored limit mode

  -- The part of `rank_search_results` that stores the matches.
  unfoldable pub store_matches :
      Scope → Text → List (Match scoring) → SearchPrefixCache → SearchPrefixCache
  store_matches scope query_trimmed scored cache =
      if is_cacheable_query query_trimmed && leb (length scored) max_matched_indices
      then maybe_store scope query_trimmed
          (map (λ item. item.index) (sort_scored_matches scoring scored)) cache
      else cache

  -- `lookup_candidates`, which a search by regular expressions skips.
  unfoldable pub cached_candidates :
      (ℕ → Bool) → Scope → Text → Bool → SearchPrefixCache → Option (List ℕ) × SearchPrefixCache
  cached_candidates alive scope query_trimmed use_regex cache =
      if use_regex then (none, cache) else lookup_candidates alive scope query_trimmed cache

  -- The matches of `rank_search_results`: all entries for an empty query.
  unfoldable pub scored_matches_of :
      Runtime (Match scoring)
      → Scope
      → Text
      → Bool
      → Option (List ℕ)
      → Result (List (Match scoring)) Text
  scored_matches_of rt scope query use_regex candidates =
      if is_empty (trim query)
      then ok (all_entries_from 0 scope.entries.items)
      else try_collect_matches engine scoring rt query scope.entries.items use_regex
          scope.ignore_case (some scope.root) scope.prefer_relative candidates

  -- `rank_search_results` from the matches on: the returned pair, and the cache that the call leaves.
  -- `evaluated` is `evaluated_candidate_count`.
  unfoldable pub finish_search :
      Runtime (Match scoring)
      → Scope
      → Text
      → ℕ
      → SearchResultSortMode
      → SearchResultSortScope
      → ℕ
      → SearchPrefixCache
      → Result (List (Match scoring)) Text
      → (SearchResultSet × Option Text) × SearchPrefixCache
  finish_search rt scope query_trimmed limit mode sort_scope evaluated cache (err error) =
      ((no_results, some error), cache)
  finish_search rt scope query_trimmed limit mode sort_scope evaluated cache (ok scored) =
      let entries = scope.entries.items in
      (
        (
          record {
            results =
                scored_indices_to_paths scoring entries
                  (ranked_by rt entries scored limit mode sort_scope) limit;
            total_match_count = length scored;
            evaluated_candidate_count = evaluated;
          },
          none,
        ),
        store_matches scope query_trimmed scored cache,
      )

  unfoldable pub rank_search_results :
      Runtime (Match scoring)
      → (ℕ → Bool)
      → Scope
      → Text
      → ℕ
      → Bool
      → SearchResultSortMode
      → SearchResultSortScope
      → SearchPrefixCache
      → (SearchResultSet × Option Text) × SearchPrefixCache
  rank_search_results rt alive scope query limit use_regex mode sort_scope cache =
      let q = trim query in
      let (candidates, cache') = cached_candidates alive scope q use_regex cache in
      let evaluated = if is_empty q then 0 else candidate_count scope.entries.items candidates in
      finish_search rt scope q limit mode sort_scope evaluated cache'
        (scored_matches_of rt scope query use_regex candidates)

  -- `try_search_entries_with_scope_and_count`
  unfoldable pub try_search_entries :
      Runtime (Match scoring)
      → Text
      → List FilePath
      → ℕ
      → Bool
      → Bool
      → Option FilePath
      → Bool
      → Result SearchResultSet Text
  try_search_entries rt query entries limit use_regex ignore_case root prefer_relative = do
    scored ←
        try_collect_matches engine scoring rt query entries use_regex ignore_case root
          prefer_relative none
    ok (record {
      results =
          materialize_scored_entries scoring entries
            (top_ranked_scores scoring rt.select scored limit);
      total_match_count = length scored;
      evaluated_candidate_count = length entries;
    })

  -- `try_search_entries_indexed_with_scope`
  unfoldable pub try_search_entries_indexed :
      Runtime (Match scoring)
      → Text
      → List FilePath
      → Bool
      → Bool
      → Option FilePath
      → Bool
      → Option (List ℕ)
      → Result (List (IndexedScore scoring)) Text
  try_search_entries_indexed rt query entries use_regex ignore_case root prefer_relative indices =
      do
        scored ←
            try_collect_matches engine scoring rt query entries use_regex ignore_case root
              prefer_relative indices
        ok (map (to_indexed scoring) (sort_scored_matches scoring scored))
