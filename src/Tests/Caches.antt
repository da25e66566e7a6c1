-- ===== src/Tests/Caches.antt =====
-- Witnesses for the prefix cache.
use flist_walker.Prelude.{
  ℕ, ◌≡◌, refl, sym, ◌∙◌, subst, ◌↔◌, ◌⊎◌, inl, true, false, some, List, [], ◌∷◌, ◌++◌, arith, All,
  ok,
}
use flist_walker.Tests.{program, literal_engine, scope, alive, no_entries}
use flist_walker.Text.{codes}
use flist_walker.Text.Subsequence.{Subsequence}
use flist_walker.Query.Pattern.{normalize_text}
use flist_walker.Query.Candidate.{PreparedCandidate}
use flist_walker.Query.Compiled.{QueryOptions, CompiledQuery, compile, matches_compiled_query}
use flist_walker.Query.Compiled.Total.{compile-literal, ok-injective}
use flist_walker.Query.Match.Literal.{is_subsequence_iff}
use flist_walker.Paths.{path_key}
use flist_walker.Search.Config.{saturating_add, saturating_mul}
use flist_walker.Search.Cache.{
  SearchPrefixCache, SearchPrefixCacheEntry, maybe_store, lookup_candidates, is_eligible,
  evict_over_limit, is_same_key, remove_first, without_key, approx_bytes_of, best_from, remove_at,
}
use flist_walker.Search.Cache.Prefix.{safe_prefix_extension_sound, cacheable_query_matches}
use flist_walker.Search.Cache.Invariant.{
  sum_bytes, IsValid, maybe_store-IsValid, lookup_candidates-IsValid,
}
use flist_walker.Search.Cache.Stored.{stored_prefix_found}
use flist_walker.Search.Cache.Lookup.{IsHit, lookup_candidates-IsHit, lookup_candidates-miss}

cache_parts : Unit {0}
unfolding path_key evict_over_limit is_same_key remove_first without_key approx_bytes_of best_from
    remove_at is_eligible saturating_add saturating_mul
cache_parts = tt

abbrev plain : QueryOptions
plain = record { use_regex = false; ignore_case = true }

abbrev shown : PreparedCandidate
shown = record {
  name = codes "main.rs";
  full = codes "/r/main.rs";
  visible = codes "main.rs";
  filename = codes "main.rs";
  filename_start = 0;
}

abbrev of_prefix : CompiledQuery literal_engine
of_prefix = (compile-literal literal_engine (codes "mai") true).0

abbrev of_query : CompiledQuery literal_engine
of_query = (compile-literal literal_engine (codes "main") true).0

of_query_matches : matches_compiled_query literal_engine of_query shown ≡ true
unfolding program
of_query_matches =
    let (q, e, iff) = cacheable_query_matches literal_engine (codes "main") true refl refl in
    let same : of_query ≡ q =
      ok-injective (sym (compile-literal literal_engine (codes "main") true).1 ∙ e) in
    subst (λ c. matches_compiled_query literal_engine c shown ≡ true) (sym same)
      ((iff shown).1 (inl ((is_subsequence_iff (codes "main") (codes "main.rs")).0 refl)))

safe_prefix_extension_sound_example : matches_compiled_query literal_engine of_prefix shown ≡ true
unfolding program
safe_prefix_extension_sound_example =
    safe_prefix_extension_sound literal_engine (codes "mai") (codes "main") true refl refl refl
      of_prefix of_query (compile-literal literal_engine (codes "mai") true).1
      (compile-literal literal_engine (codes "main") true).1 shown of_query_matches

cacheable_query_matches_example :
    (compiled : CompiledQuery literal_engine) × (compile literal_engine (codes "mai") plain
      ≡ ok compiled)
    × ((c : PreparedCandidate)
        → (matches_compiled_query literal_engine compiled c ≡ true) ↔ (
            Subsequence (normalize_text (codes "mai") true) c.name
            ⊎ Subsequence (normalize_text (codes "mai") true) c.full))
unfolding program
cacheable_query_matches_example =
    cacheable_query_matches literal_engine (codes "mai") true refl refl

no_entries-IsValid : IsValid no_entries
unfolding sum_bytes
no_entries-IsValid = record { counted = refl; few = omega arith; small = omega arith }

abbrev stored : SearchPrefixCache
stored = maybe_store scope (codes "mai") (0 ∷ 2 ∷ []) no_entries

maybe_store-IsValid_example : IsValid stored
maybe_store-IsValid_example =
    maybe_store-IsValid scope (codes "mai") (0 ∷ 2 ∷ []) no_entries no_entries-IsValid

lookup_candidates-IsValid_example : IsValid (lookup_candidates alive scope (codes "main") stored).1
lookup_candidates-IsValid_example =
    lookup_candidates-IsValid alive scope (codes "main") stored maybe_store-IsValid_example

abbrev looked_up : SearchPrefixCache
looked_up = (lookup_candidates alive scope (codes "main") stored).1

lookup_candidates-IsHit_example :
    (e : SearchPrefixCacheEntry) × (before : List SearchPrefixCacheEntry) × (after : List
      SearchPrefixCacheEntry)
    × (stored.entries ≡ before ++ (e ∷ after))
    × (looked_up.entries ≡ (before ++ after) ++ (e ∷ []))
    × IsHit alive scope (codes "main") stored looked_up (0 ∷ 2 ∷ []) e
unfolding program cache_parts
lookup_candidates-IsHit_example =
    lookup_candidates-IsHit alive scope (codes "main") stored looked_up (0 ∷ 2 ∷ []) refl

lookup_candidates-miss_example :
    (no_entries ≡ no_entries)
    × All (λ e. is_eligible alive scope (codes "main") e ≡ false) no_entries.entries
unfolding program cache_parts
lookup_candidates-miss_example =
    lookup_candidates-miss alive scope (codes "main") no_entries no_entries refl

stored_prefix_found_example :
    (found : List ℕ) × ((lookup_candidates alive scope
        (codes "main")
        (maybe_store scope (codes "mai") (0 ∷ 2 ∷ []) no_entries)).0
      ≡ some found)
unfolding program cache_parts
stored_prefix_found_example =
    stored_prefix_found alive scope (codes "mai") (codes "main") (0 ∷ 2 ∷ []) no_entries
      no_entries-IsValid refl refl refl refl (omega arith) (omega arith)
