-- ===== src/Search/Engine/Complete.antt =====
-- A search finds exactly the entries that match, whether its candidates come from the cache or not.
use flist_walker.Prelude.{
  ℕ, ◌+◌, ◌≡◌, refl, sym, ap, ◌∙◌, subst, Bool, true, false, not, Option, none, some, List, map,
  arith, get_elem?, Member, if◌then◌else◌, some_inj,
}
use flist_walker.Paths.{FilePath}
use flist_walker.Query.Regex.{RegexEngine}
use flist_walker.Query.Score.{
  Scoring, rank_only, score_entry, QueryEvaluation, evaluation, evaluate_lem,
}
use flist_walker.Query.Compiled.{CompiledQuery, prepare_candidate, matches_compiled_query}
use flist_walker.Search.Collect.{SearchContext, evaluate_candidate, collect_sequential, collect_all}
use flist_walker.Search.Collect.Members.{
  Matches, FoundAt, collect_indices_complete, collect_all_complete, collect_indices-found,
  collect_all-found,
}
use flist_walker.Search.Execute.{Match, eval_with}

module _ (engine : RegexEngine) (scoring : Scoring) where
  -- The entry at the index matches the compiled query.
  abbrev pub MatchesAt : CompiledQuery engine → List FilePath → SearchContext → ℕ → Type 0
  MatchesAt compiled entries ctx index =
      (path : FilePath) × (get_elem? entries index ≡ some path)
      × (matches_compiled_query engine compiled
            (prepare_candidate engine compiled path ctx.root ctx.prefer_relative)
          ≡ true)

  abbrev pub indices_of : List (Match scoring) → List ℕ
  indices_of = map (λ item. item.index)

  -- The match that a candidate gives where it matches.
  abbrev match_of : CompiledQuery engine → SearchContext → FilePath → ℕ → ℕ → Match scoring
  match_of compiled ctx path index ordinal = record {
    index = index;
    score =
        score_entry scoring engine compiled
          (prepare_candidate engine compiled path ctx.root ctx.prefer_relative);
    ordinal = ordinal;
  }

  evaluate_candidate_lem :
      (compiled : CompiledQuery engine) (ctx : SearchContext) (path : FilePath) (index ordinal : ℕ)
      (b : Bool)
      → matches_compiled_query engine compiled
          (prepare_candidate engine compiled path ctx.root ctx.prefer_relative)
        ≡ b
      → eval_with engine scoring compiled ctx path index ordinal
        ≡ (if not b then none else some (match_of compiled ctx path index ordinal))
  unfolding evaluate_candidate
  evaluate_candidate_lem compiled ctx path index ordinal b h =
      ap as_match (
        evaluate_lem scoring engine compiled
          (prepare_candidate engine compiled path ctx.root ctx.prefer_relative) rank_only b h)
      ∙ by_test b
    where
      as_match : Option (QueryEvaluation scoring) → Option (Match scoring)
      as_match none = none
      as_match (some v) = some (record { index = index; score = v.score; ordinal = ordinal })

      by_test :
          (b : Bool)
          → as_match (
              if not b
              then none
              else some (
                  evaluation scoring engine compiled
                    (prepare_candidate engine compiled path ctx.root ctx.prefer_relative)
                    rank_only))
            ≡ (if not b then none else some (match_of compiled ctx path index ordinal))
      by_test true = refl
      by_test false = refl

  evaluate_candidate-Matches :
      (compiled : CompiledQuery engine) (ctx : SearchContext) (path : FilePath) (index : ℕ)
      → matches_compiled_query engine compiled
          (prepare_candidate engine compiled path ctx.root ctx.prefer_relative)
        ≡ true
      → Matches (eval_with engine scoring compiled ctx) (λ item. item.index) path index
  evaluate_candidate-Matches compiled ctx path index m ordinal = (
    match_of compiled ctx path index ordinal,
    evaluate_candidate_lem compiled ctx path index ordinal true m,
    refl,
  )

  evaluate_candidate-found :
      (compiled : CompiledQuery engine) (ctx : SearchContext) (path : FilePath) (index ordinal : ℕ)
      (s : Match scoring)
      → eval_with engine scoring compiled ctx path index ordinal ≡ some s
      → (s.index ≡ index)
        × (matches_compiled_query engine compiled
              (prepare_candidate engine compiled path ctx.root ctx.prefer_relative)
            ≡ true)
  evaluate_candidate-found compiled ctx path index ordinal s e =
      by_test _ refl (sym (evaluate_candidate_lem compiled ctx path index ordinal _ refl) ∙ e)
    where
      by_test :
          (b : Bool)
          → matches_compiled_query engine compiled
              (prepare_candidate engine compiled path ctx.root ctx.prefer_relative)
            ≡ b
          → (if not b then none else some (match_of compiled ctx path index ordinal)) ≡ some s
          → (s.index ≡ index)
            × (matches_compiled_query engine compiled
                  (prepare_candidate engine compiled path ctx.root ctx.prefer_relative)
                ≡ true)
      by_test true m h = (ap (λ m. m.index) (sym (some_inj h)), m)
      by_test false m h = absurd (cc)

  abbrev eval : CompiledQuery engine → SearchContext → FilePath → ℕ → ℕ → Option (Match scoring)
  eval = eval_with engine scoring

  abbrev index_of : Match scoring → ℕ
  index_of item = item.index

  labelled :
      (compiled : CompiledQuery engine) (ctx : SearchContext) (path : FilePath) (index ordinal : ℕ)
      (s : Match scoring)
      → eval compiled ctx path index ordinal ≡ some s
      → index_of s ≡ index
  labelled compiled ctx path index ordinal s e =
      (evaluate_candidate-found compiled ctx path index ordinal s e).0

  at_of_found :
      (compiled : CompiledQuery engine) (ctx : SearchContext) (entries : List FilePath)
      (k index : ℕ)
      → index ≡ k
      → FoundAt (eval compiled ctx) index_of (labelled compiled ctx) entries k index
      → MatchesAt compiled entries ctx index
  at_of_found compiled ctx entries k index at (path, o, s, p, e) = (
    path,
    subst (λ n. get_elem? entries n ≡ some path) (sym at) p,
    (evaluate_candidate-found compiled ctx path index o s e).1,
  )

  pub collect_sequential-found :
      (compiled : CompiledQuery engine) (ctx : SearchContext) (entries : List FilePath)
      (candidates : Option (List ℕ)) (index : ℕ)
      → Member index (indices_of (collect_sequential (eval compiled ctx) entries candidates))
      → MatchesAt compiled entries ctx index
  unfolding collect_sequential
  collect_sequential-found compiled ctx entries none index m =
      let (k, at, f) =
        collect_all-found (eval compiled ctx) index_of (labelled compiled ctx) entries 0 index m in
      at_of_found compiled ctx entries k index (omega (arith, at)) f
  collect_sequential-found compiled ctx entries (some indices) index m =
      at_of_found compiled ctx entries index index refl (
        collect_indices-found (eval compiled ctx) index_of (labelled compiled ctx) entries indices
          index 0 m)

  pub collect_sequential_complete :
      (compiled : CompiledQuery engine) (ctx : SearchContext) (entries : List FilePath)
      (candidates : Option (List ℕ)) (index : ℕ)
      → ((indices : List ℕ) → candidates ≡ some indices → Member index indices)
      → MatchesAt compiled entries ctx index
      → Member index (indices_of (collect_sequential (eval compiled ctx) entries candidates))
  unfolding collect_sequential
  collect_sequential_complete compiled ctx entries none index among (path, p, m) =
      let at : 0 + index ≡ index = omega arith in
      let matches : Matches (eval compiled ctx) index_of path (0 + index) =
        rw at (evaluate_candidate-Matches compiled ctx path index m) in
      subst (λ n. Member n (indices_of (collect_all (eval compiled ctx) 0 entries))) at
        (collect_all_complete (eval compiled ctx) index_of 0 entries index path p matches)
  collect_sequential_complete compiled ctx entries (some indices) index among (path, p, m) =
      collect_indices_complete (eval compiled ctx) index_of entries path 0 (among indices refl) p
        (evaluate_candidate-Matches compiled ctx path index m)
