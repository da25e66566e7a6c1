-- ===== src/Tests/MixedSearches.antt =====
-- A search by regular expressions, and a literal search behind it over the same cache.
use flist_walker.Prelude.{ℕ, ◌≡◌, refl, Bool, true, false, ◌&&◌, ◌||◌, [], ◌∷◌, ok, ◌==◌}
use flist_walker.Tests.{program, whole_scores, scope, alive, no_entries, file}
use flist_walker.Tests.Searches.{runtime, engine_parts}
use flist_walker.Text.{Text, codes}
use flist_walker.Query.Regex.{RegexEngine}
use flist_walker.Search.Cache.{Scope, SearchPrefixCache}
use flist_walker.Search.Modes.{score, shown_results}
use flist_walker.Search.Engine.{rank_search_results}

-- A dot in the expression stands for any character.
matches_front : Text → Text → Bool
matches_front [] text = true
matches_front (c ∷ pattern) [] = false
matches_front (c ∷ pattern) (d ∷ text) = (c == b'.' || c == d) && matches_front pattern text

matches_somewhere : Text → Text → Bool
matches_somewhere pattern [] = matches_front pattern []
matches_somewhere pattern (c ∷ text) =
    let rest = matches_somewhere pattern text in matches_front pattern (c ∷ text) || rest

abbrev dot_engine : RegexEngine
dot_engine = record {
  Regex = Text;
  build = λ term ignore_case. ok term;
  is_match = λ regex text. matches_somewhere regex text;
  find_iter = λ regex text. [];
}

abbrev two_files : Scope
two_files = record scope {
  entries = record { ptr = 7; items = file (codes "abcd") ∷ file (codes "a..cd") ∷ [] };
}

abbrev matches_after : SearchPrefixCache → ℕ
matches_after cache =
    (rank_search_results dot_engine whole_scores runtime alive two_files (codes "a.cd") 10 false
      score shown_results cache).0.0.total_match_count

abbrev after_regex : SearchPrefixCache
after_regex =
    (rank_search_results dot_engine whole_scores runtime alive two_files (codes "a.c") 10 true score
      shown_results no_entries).1

-- The literal query matches `a..cd`, and misses it behind the search for the expression `a.c`.
missed : (matches_after no_entries ≡ 1) × (matches_after after_regex ≡ 0)
unfolding program engine_parts matches_front matches_somewhere
missed = (refl, refl)
