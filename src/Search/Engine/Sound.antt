-- ===== src/Search/Engine/Sound.antt =====
-- Searches keep the prefix cache sound.
use flist_walker.Prelude.{
  ℕ, ◌≤◌, ◌≡◌, refl, sym, ap, ◌∙◌, subst, inl, inr, Bool, true, false, ◌&&◌, List, [], ◌∷◌, map,
  arith, length, is_empty, Member, Result, ok, err, leb, Bool-cases, if_both,
}
use flist_walker.Text.{Text, len, trim, text_eq}
use flist_walker.Text.Trim.{trim-trim}
use flist_walker.Paths.{path_key}
use flist_walker.Query.Regex.{RegexEngine}
use flist_walker.Query.Score.{Scoring}
use flist_walker.Query.Compiled.{CompiledQuery, compile}
use flist_walker.Query.Compiled.Total.{ok-injective}
use flist_walker.Search.Config.{usize_max}
use flist_walker.Search.Cache.{
  Scope, SearchPrefixCache, is_eligible, max_matched_indices, new_entry, bool_eq,
  is_cacheable_query, maybe_store,
}
use flist_walker.Search.Cache.Members.{maybe_store-Member, lookup_candidates-Member}
use flist_walker.Search.Cache.Lookup.{pos_of_cacheable}
use flist_walker.Search.Execute.{Runtime, Match}
use flist_walker.Search.Execute.Same.{IsPool}
use flist_walker.Search.Modes.{SearchResultSortMode, SearchResultSortScope}
use flist_walker.Search.Rank.{scored_le, sort_scored_matches}
use flist_walker.Search.Engine.{
  scored_matches_of, cached_candidates, store_matches, finish_search, rank_search_results,
}
use flist_walker.Search.Engine.Complete.{MatchesAt, indices_of}
use flist_walker.Search.Engine.Cached.{context, IsSoundEntry, IsSound, cached_search_matches}
use flist_walker.Sorting.Members.{Member-map_sort}
use flist_walker.Text.Affix.{eq_of_text_eq}

-- Two scopes that the cache can tell apart only where they differ: an allocation holds one list,
-- and the key of a root is that of no other.
pub record Agree (watched scope : Scope) : Type 0 where
  pub same_list :
      watched.entries.ptr ≡ scope.entries.ptr → watched.entries.items ≡ scope.entries.items
  pub same_root : path_key watched.root ≡ path_key scope.root → watched.root ≡ scope.root

bool_eq→≡ : (a b : Bool) → bool_eq a b ≡ true → a ≡ b
bool_eq→≡ true b h = sym h
bool_eq→≡ false true h = absurd (cc)
bool_eq→≡ false false h = refl

same_scope :
    (alive : ℕ → Bool) (watched scope : Scope) (q q' : Text) (indices : List ℕ)
    → Agree watched scope
    → is_eligible alive watched q' (new_entry scope q indices) ≡ true
    → scope ≡ watched
unfolding is_eligible
same_scope alive watched scope q q' indices agree h =
    let ptr : scope.entries.ptr ≡ watched.entries.ptr = ground arith in
    let key : text_eq (path_key scope.root) (path_key watched.root) ≡ true = ground arith in
    let case_eq : bool_eq scope.ignore_case watched.ignore_case ≡ true = ground arith in
    let relative : bool_eq scope.prefer_relative watched.prefer_relative ≡ true = ground arith in
    let items = sym (agree.same_list (sym ptr)) in
    let root = sym (agree.same_root (sym (eq_of_text_eq _ _ key))) in
    let ic = bool_eq→≡ _ _ case_eq in
    let rel = bool_eq→≡ _ _ relative in
    λ i. record {
      entries = record { ptr = ptr i; items = items i };
      root = root i;
      ignore_case = ic i;
      prefer_relative = rel i;
    }

module _ (engine : RegexEngine) (scoring : Scoring) where
  -- The entry that a search stores is sound.
  stored_entry :
      (scope : Scope) (query : Text) (scored : List (Match scoring))
      → ((index : ℕ)
          → (compiled : _)
          → compile engine
              (trim query)
              (record { use_regex = false; ignore_case = scope.ignore_case })
            ≡ ok compiled
          → MatchesAt engine scoring compiled scope.entries.items (context scope) index
          → Member index (indices_of engine scoring scored))
      → length (map (λ item. item.index) (sort_scored_matches scoring scored)) ≤ max_matched_indices
      → IsSoundEntry engine scoring scope (
          new_entry scope
            (trim (trim query))
            (map (λ item. item.index) (sort_scored_matches scoring scored)))
  unfolding sort_scored_matches
  stored_entry scope query scored complete few = record {
    trimmed = trim-trim (trim query);
    complete = λ compiled c index at.
        Member-map_sort (λ item. item.index) (scored_le scoring) scored
          (complete index compiled
            (ap
                (λ q.
                  compile engine q (record { use_regex = false; ignore_case = scope.ignore_case }))
                (sym (trim-trim query))
              ∙ c)
            at);
    few = few;
  }

  store_matches-IsSound :
      (alive : ℕ → Bool) (watched scope : Scope) (query : Text) (scored : List (Match scoring))
      (cache : SearchPrefixCache)
      → Agree watched scope
      → IsSound engine scoring alive watched cache
      → ((index : ℕ)
          → (compiled : _)
          → compile engine
              (trim query)
              (record { use_regex = false; ignore_case = scope.ignore_case })
            ≡ ok compiled
          → MatchesAt engine scoring compiled scope.entries.items (context scope) index
          → Member index (indices_of engine scoring scored))
      → IsSound engine scoring alive watched
          (store_matches engine scoring scope (trim query) scored cache)
  unfolding store_matches len
  store_matches-IsSound alive watched scope query scored cache agree sound complete =
      if_both (IsSound engine scoring alive watched)
        (is_cacheable_query (trim query) && leb (length scored) max_matched_indices) (λ _. stored)
        (λ _. sound)
    where
      indices : List ℕ
      indices = map (λ item. item.index) (sort_scored_matches scoring scored)

      stored : IsSound engine scoring alive watched (maybe_store scope (trim query) indices cache)
      stored e m q' eligible = elim (maybe_store-Member scope (trim query) indices cache m) [
        | inl old ↦ sound e old q' eligible
        | inr (new, few, _) ↦
            let same =
              same_scope alive watched scope (trim (trim query)) q' indices agree
                (ap (is_eligible alive watched q') (sym new) ∙ eligible) in
            subst (IsSoundEntry engine scoring watched) (sym new) (
              subst
                (λ s. IsSoundEntry engine scoring s (new_entry scope (trim (trim query)) indices))
                same (stored_entry scope query scored complete few))
      ]

  cached-IsSound :
      (alive : ℕ → Bool) (watched scope : Scope) (query : Text) (cache : SearchPrefixCache)
      → IsSound engine scoring alive watched cache
      → IsSound engine scoring alive watched
          (cached_candidates engine scoring alive scope query false cache).1
  unfolding cached_candidates
  cached-IsSound alive watched scope query cache sound e m q eligible =
      sound e (lookup_candidates-Member alive scope query cache m) q eligible

  finish_search-IsSound :
      (rt : Runtime (Match scoring)) (alive : ℕ → Bool) (watched scope : Scope) (query : Text)
      (limit : ℕ) (mode : SearchResultSortMode) (sort_scope : SearchResultSortScope) (evaluated : ℕ)
      (cache : SearchPrefixCache) (r : Result (List (Match scoring)) Text)
      → IsSound engine scoring alive watched cache
      → ((scored : List (Match scoring))
          → r ≡ ok scored
          → IsSound engine scoring alive watched
              (store_matches engine scoring scope query scored cache))
      → IsSound engine scoring alive watched
          (finish_search engine scoring rt scope query limit mode sort_scope evaluated cache r).1
  unfolding finish_search
  finish_search-IsSound rt alive watched scope query limit mode sort_scope evaluated cache (err e) s
        f =
      s
  finish_search-IsSound rt alive watched scope query limit mode sort_scope evaluated cache
        (ok scored) s f =
      f scored refl

  store_nothing :
      (scope : Scope) (query : Text) (scored : List (Match scoring)) (cache : SearchPrefixCache)
      → is_empty query ≡ true
      → store_matches engine scoring scope query scored cache ≡ cache
  unfolding store_matches len
  store_nothing scope [] scored cache h = elim (Bool-cases (is_cacheable_query [])) [
    | inl c ↦ absurd (omega (arith, pos_of_cacheable [] c, len_nil))
    | inr c ↦ rw c refl
  ]
    where
      len_nil : len [] ≡ 0
      len_nil = refl
  store_nothing scope (c ∷ query) scored cache h = absurd (cc)

  -- A literal search keeps the prefix cache sound for its own scope and for any other that the keys
  -- of the cache tell apart from it, provided that the cache was sound for both, the thread pool
  -- keeps its contract and there are at most usize::MAX entries.
  pub rank_search_results-IsSound :
      (rt : Runtime (Match scoring)) (alive : ℕ → Bool) (watched scope : Scope) (query : Text)
      (limit : ℕ) (mode : SearchResultSortMode) (sort_scope : SearchResultSortScope)
      (cache : SearchPrefixCache)
      → IsPool rt
      → length scope.entries.items ≤ usize_max
      → Agree watched scope
      → IsSound engine scoring alive watched cache
      → IsSound engine scoring alive scope cache
      → IsSound engine scoring alive watched
          (rank_search_results engine scoring rt alive scope query limit false mode sort_scope
            cache).1
  unfolding rank_search_results
  rank_search_results-IsSound rt alive watched scope query limit mode sort_scope cache pool few
        agree sound sound' =
      let q = trim query in
      finish_search-IsSound rt alive watched scope q limit mode sort_scope _ _ _
        (cached-IsSound alive watched scope q cache sound)
        λ scored found. elim (Bool-cases (is_empty q)) [
          | inl empty ↦
              rw
                (store_nothing scope q scored
                  (cached_candidates engine scoring alive scope q false cache).1 empty)
                (cached-IsSound alive watched scope q cache sound)
          | inr some_query ↦
              store_matches-IsSound alive watched scope query scored _ agree
                (cached-IsSound alive watched scope q cache sound)
                (finds_all some_query scored found)
        ]
    where
      finds_all :
          is_empty (trim query) ≡ false
          → (scored : List (Match scoring))
          → scored_matches_of engine scoring rt scope query false
              (cached_candidates engine scoring alive scope (trim query) false cache).0
            ≡ ok scored
          → (index : ℕ) → (compiled : CompiledQuery engine)
          → compile engine
              (trim query)
              (record { use_regex = false; ignore_case = scope.ignore_case })
            ≡ ok compiled
          → MatchesAt engine scoring compiled scope.entries.items (context scope) index
          → Member index (indices_of engine scoring scored)
      finds_all some_query scored found index compiled c at =
          let (scored', found', iff) =
            cached_search_matches engine scoring rt alive scope query cache pool few sound'
              some_query compiled c in
          subst (λ x. Member index (indices_of engine scoring x))
            (ok-injective (sym found' ∙ found)) ((iff index).1 at)
