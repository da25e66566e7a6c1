-- ===== src/Search/Engine/Cached.antt =====
-- The prefix cache as a source of candidates: what it must hold for a search to miss nothing.
use flist_walker.Prelude.{
  ℕ, ◌≤◌, ◌≡◌, refl, sym, ap, ◌∙◌, subst, ◌↔◌, inl, inr, Bool, true, false, Option, some, List, [],
  ◌∷◌, ◌++◌, arith, length, is_empty, Member, here, there, ok, Option-cases,
}
use flist_walker.Text.{Text, trim}
use flist_walker.Text.Trim.{trim-trim}
use flist_walker.Paths.{FilePath}
use flist_walker.Query.Regex.{RegexEngine}
use flist_walker.Query.Score.{Scoring}
use flist_walker.Query.Candidate.{from_path}
use flist_walker.Query.Compiled.{CompiledQuery, compile, prepare_candidate, matches_compiled_query}
use flist_walker.Query.Compiled.Total.{compile-ignore_case, compile-literal}
use flist_walker.Search.Config.{usize_max, resolve_execution_mode, auto}
use flist_walker.Search.Cache.{
  Scope, SearchPrefixCache, SearchPrefixCacheEntry, lookup_candidates, is_eligible,
  max_matched_indices,
}
use flist_walker.Search.Cache.Prefix.{safe_prefix_extension_sound}
use flist_walker.Search.Cache.Lookup.{lookup_candidates-IsHit, eligible_parts}
use flist_walker.Search.Collect.{SearchContext}
use flist_walker.Search.Execute.{
  Runtime, Match, candidate_count, try_collect_matches, try_collect_matches_with_mode, collect_with,
}
use flist_walker.Search.Execute.Same.{IsPool, collect_with-sequential}
use flist_walker.Search.Engine.{scored_matches_of, cached_candidates}
use flist_walker.Search.Engine.Complete.{
  MatchesAt, indices_of, collect_sequential-found, collect_sequential_complete,
}

Member-middle {ℓ} :
    {A : Type ℓ} (before : List A) {x : A} (after : List A) → Member x (before ++ (x ∷ after))
Member-middle [] after = here after
Member-middle (y ∷ before) after = there y (Member-middle before after)

abbrev pub context : Scope → SearchContext
context scope = record { root = some scope.root; prefer_relative = scope.prefer_relative }

module _ (engine : RegexEngine) (scoring : Scoring) where
  -- The indices contain every index at which an entry matches the query as literal text.
  abbrev pub IsComplete : Scope → Text → List ℕ → Type 0
  IsComplete scope query indices =
      (compiled : CompiledQuery engine)
      → compile engine query (record { use_regex = false; ignore_case = scope.ignore_case })
        ≡ ok compiled
      → (index : ℕ) → MatchesAt engine scoring compiled scope.entries.items (context scope) index
      → Member index indices

  pub record IsSoundEntry (scope : Scope) (e : SearchPrefixCacheEntry) : Type 0 where
    pub trimmed : trim e.query ≡ e.query
    pub complete : IsComplete scope e.query e.matched_indices
    pub few : length e.matched_indices ≤ max_matched_indices

  -- Every entry that a search in the scope may use is complete.
  abbrev pub IsSound : (ℕ → Bool) → Scope → SearchPrefixCache → Type 0
  IsSound alive scope cache =
      (e : SearchPrefixCacheEntry)
      → Member e cache.entries
      → (q : Text) → is_eligible alive scope q e ≡ true
      → IsSoundEntry scope e

  prepare_same :
      (c d : CompiledQuery engine) (path : FilePath) (root : Option FilePath) (relative : Bool)
      → c.ignore_case ≡ d.ignore_case
      → prepare_candidate engine c path root relative
        ≡ prepare_candidate engine d path root relative
  unfolding prepare_candidate
  prepare_same c d path root relative e =
      ap (λ i. from_path path (record { root = root; prefer_relative = relative; ignore_case = i }))
        e

  IsComplete-extension :
      (alive : ℕ → Bool) (scope : Scope) (q : Text) (e : SearchPrefixCacheEntry)
      → trim q ≡ q
      → is_eligible alive scope q e ≡ true
      → IsSoundEntry scope e
      → IsComplete scope q e.matched_indices
  IsComplete-extension alive scope q e t ok_e sound compiled c index (path, p, m) =
      let (prefix, cp, ic) = compile-literal engine e.query scope.ignore_case in
      let same =
        prepare_same compiled prefix path (some scope.root) scope.prefer_relative
          (compile-ignore_case engine q _ compiled c ∙ sym ic) in
      sound.complete prefix cp index (
        path,
        p,
        ap (λ x. matches_compiled_query engine prefix x) (sym same)
            ∙ safe_prefix_extension_sound engine e.query q scope.ignore_case sound.trimmed t
                (eligible_parts alive scope q e ok_e) prefix compiled cp c _ m,
      )

  -- A sound cache gives a search candidates that contain every match, and no more than 20000 of them.
  pub lookup_candidates-IsComplete :
      (alive : ℕ → Bool) (scope : Scope) (q : Text) (cache : SearchPrefixCache) (indices : List ℕ)
      → trim q ≡ q
      → IsSound alive scope cache
      → (lookup_candidates alive scope q cache).0 ≡ some indices
      → IsComplete scope q indices × (length indices ≤ max_matched_indices)
  lookup_candidates-IsComplete alive scope q cache indices t sound h =
      let found = lookup_candidates alive scope q cache in
      let (e, before, after, split, moved, hit) =
        lookup_candidates-IsHit alive scope q cache found.1 indices (λ i. (h i, found.1)) in
      let s = sound e (subst (Member e) (sym split) (Member-middle before after)) q hit.eligible in
      (
        subst (IsComplete scope q) (sym hit.indices_of)
            (IsComplete-extension alive scope q e t hit.eligible s),
        subst (λ i. length i ≤ max_matched_indices) (sym hit.indices_of) s.few,
      )

  collected_lem :
      (rt : Runtime (Match scoring)) (scope : Scope) (query : Text) (candidates : Option (List ℕ))
      (compiled : CompiledQuery engine)
      → is_empty (trim query) ≡ false
      → compile engine (trim query) (record { use_regex = false; ignore_case = scope.ignore_case })
        ≡ ok compiled
      → scored_matches_of engine scoring rt scope query false candidates
        ≡ ok (
            collect_with engine scoring rt scope.entries.items compiled
              (context scope)
              candidates
              (resolve_execution_mode rt.env auto (candidate_count scope.entries.items candidates)))
  unfolding scored_matches_of try_collect_matches try_collect_matches_with_mode
  collected_lem rt scope query candidates compiled some_query c = rw (some_query, c) refl

  count_few :
      (alive : ℕ → Bool) (scope : Scope) (q : Text) (cache : SearchPrefixCache)
      → trim q ≡ q
      → length scope.entries.items ≤ usize_max
      → IsSound alive scope cache
      → candidate_count scope.entries.items (lookup_candidates alive scope q cache).0 ≤ usize_max
  count_few alive scope q cache t few sound =
      elim (Option-cases (lookup_candidates alive scope q cache).0) [
        | inl e ↦ rw e few
        | inr (indices, e) ↦
            let (_, n) = lookup_candidates-IsComplete alive scope q cache indices t sound e in
            rw e (omega (arith, n))
      ]

  -- A literal search for a query that is not empty returns matches, and finds exactly the entries
  -- that match the query, though it looks only at the candidates that the prefix cache gives,
  -- provided that the cache is sound, the thread pool keeps its contract and there are at most
  -- usize::MAX entries.
  pub cached_search_matches :
      (rt : Runtime (Match scoring)) (alive : ℕ → Bool) (scope : Scope) (query : Text)
      (cache : SearchPrefixCache)
      → IsPool rt
      → length scope.entries.items ≤ usize_max
      → IsSound alive scope cache
      → is_empty (trim query) ≡ false
      → (compiled : CompiledQuery engine)
      → compile engine (trim query) (record { use_regex = false; ignore_case = scope.ignore_case })
        ≡ ok compiled
      → (scored : List (Match scoring)) × (scored_matches_of engine scoring rt scope query false
            (cached_candidates engine scoring alive scope (trim query) false cache).0
          ≡ ok scored)
        × ((index : ℕ)
            → Member index (indices_of engine scoring scored)
              ↔ MatchesAt engine scoring compiled scope.entries.items (context scope) index)
  unfolding cached_candidates
  cached_search_matches rt alive scope query cache pool few sound some_query compiled c =
      let q = trim query in
      let candidates = (lookup_candidates alive scope q cache).0 in
      let mode =
        resolve_execution_mode rt.env auto (candidate_count scope.entries.items candidates) in
      let n = count_few alive scope q cache (trim-trim query) few sound in
      let same =
        collect_with-sequential engine scoring rt scope.entries.items compiled (context scope)
          candidates mode pool n in
      (
        _,
        collected_lem rt scope query candidates compiled some_query c ∙ ap ok same,
        λ index. (
          collect_sequential-found engine scoring compiled (context scope) scope.entries.items
              candidates index,
          λ at.
              collect_sequential_complete engine scoring compiled (context scope)
                scope.entries.items candidates index
                (λ indices e.
                  (lookup_candidates-IsComplete alive scope q cache indices (trim-trim query) sound
                      e).0
                    compiled c index at)
                at,
        ),
      )
