-- ===== src/Tests.antt =====
-- Runs of the model on small inputs: the parameters of the model as concrete functions.
mod Queries
mod Searches
mod Caches
mod Ignored
mod MixedSearches
mod Modes
mod Channels
mod Histories
mod Updates
mod Registering
use flist_walker.Prelude.{ℕ, ◌+◌, Bool, true, none, some, List, [], ◌∷◌, ok}
use Prim.Native.Nat.{compare}
use flist_walker.Text.{
  words_from, Text, codes, contains, trim, len, split_whitespace, split, text_eq, starts_with,
  ends_with, lower_char, to_ascii_lowercase, has_char, strip_prefix,
}
use flist_walker.Paths.{FilePath, display_path_with_mode, file_name}
use flist_walker.Query.Regex.{RegexEngine}
use flist_walker.Query.Parse.{parse_query}
use flist_walker.Query.Match.{
  literal_occurrence_count, matches_anchored_literal, is_subsequence, matches_include_literal,
}
use flist_walker.Query.Compiled.{compile, prepare_candidate, matches_compiled_query}
use flist_walker.Query.Score.{Scoring, evaluate}
use flist_walker.Query.Spans.{collect_spans}
use flist_walker.Search.Cache.{
  Scope, SearchPrefixCache, is_cacheable_query, is_safe_prefix_extension, lookup_candidates,
  maybe_store,
}
use flist_walker.Search.Collect.{collect_sequential, chunks}
use flist_walker.Search.Rank.{top_ranked_scores, sort_scored_matches}
use flist_walker.Search.Engine.{rank_search_results, try_search_entries}

-- A definition that unfolds what the tests run.
unfoldable pub program : Unit {0}
unfolding words_from contains trim len parse_query literal_occurrence_count matches_anchored_literal
    is_subsequence matches_include_literal compile prepare_candidate matches_compiled_query evaluate
    collect_spans is_cacheable_query is_safe_prefix_extension lookup_candidates maybe_store
    collect_sequential chunks top_ranked_scores sort_scored_matches rank_search_results
    try_search_entries display_path_with_mode file_name
program = tt

-- A regular expression that is a literal.
abbrev pub literal_engine : RegexEngine
literal_engine = record {
  Regex = Text;
  build = λ term ignore_case. ok term;
  is_match = λ regex text. contains text regex;
  find_iter = λ regex text. [];
}

abbrev pub whole_scores : Scoring
whole_scores = record {
  Score = ℕ;
  of_nat = λ n. n;
  add = λ a b. a + b;
  partial_cmp = λ a b. some (compare a b);
  fuzzy_match = λ text query. none;
}

abbrev pub root : FilePath
root = record { absolute = true; names = codes "r" ∷ [] }

abbrev pub file : Text → FilePath
file name = record { absolute = true; names = codes "r" ∷ name ∷ [] }

abbrev pub files : List FilePath
files = file (codes "main.rs") ∷ file (codes "Makefile") ∷ file (codes "mail") ∷ []

abbrev pub scope : Scope
scope = record {
  entries = record { ptr = 7; items = files };
  root = root;
  ignore_case = true;
  prefer_relative = true;
}

-- Every allocation has an owner.
abbrev pub alive : ℕ → Bool
alive ptr = true

abbrev pub no_entries : SearchPrefixCache
no_entries = record { entries = []; total_bytes = 0 }
