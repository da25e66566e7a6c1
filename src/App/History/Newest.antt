-- ===== src/App/History/Newest.antt =====
-- A search for nothing shows the whole history, the newest query first.
use flist_walker.Prelude.{
  ℕ, ◌+◌, ◌-◌, ◌≤◌, ◌<◌, ◌≡◌, refl, ap, ◌∙◌, Bool, true, Option, List, [], ◌∷◌, map, arith, ℤ, pos,
  length, is_empty, All, length-append,
}
use mathlib.Core.List.{reverse, reverse-cons}
use flist_walker.Text.{Text, trim}
use flist_walker.Text.Trim.{trim-trim}
use flist_walker.Sorting.{sort_by, IsSorted, sort_by_sorted}
use flist_walker.Search.Rank.{is_le}
use flist_walker.App.History.{
  query_history_max, history_search_score, ScoredEntry, score_entries, compare_entries,
  history_search_results_for,
}

length-reversed : (history : List Text) → length (reverse history) ≡ length history
length-reversed [] = refl
length-reversed (entry ∷ history) =
    rw (reverse-cons entry history)
      (omega (arith, length-append (reverse history) (entry ∷ []), length-reversed history))

module _ (fuzzy_match : Text → Text → Option ℤ) where
  abbrev Scored : Type 0
  Scored = ScoredEntry fuzzy_match

  abbrev before : Scored → Scored → Bool
  before a b = is_le (compare_entries fuzzy_match a b)

  -- The entries with their ranks as scores.
  ranked : ℕ → List Text → List Scored
  ranked idx [] = []
  ranked idx (entry ∷ history) =
      record { entry = entry; score = pos (query_history_max - idx); idx = idx }
      ∷ ranked (idx + 1) history

  score_entries_blank :
      (query : Text) (idx : ℕ) (history : List Text)
      → is_empty (trim query) ≡ true
      → score_entries fuzzy_match query idx history ≡ ranked idx history
  unfolding score_entries history_search_score ranked
  score_entries_blank query idx [] blank = refl
  score_entries_blank query idx (entry ∷ history) blank =
      rw (blank, score_entries)
        (ap (◌∷◌ (record { entry = entry; score = pos (query_history_max - idx); idx = idx }))
          (score_entries_blank query (idx + 1) history blank))

  before_later :
      (entry entry' : Text) (i j : ℕ)
      → i < j
      → j ≤ query_history_max
      → before
          (record { entry = entry; score = pos (query_history_max - i); idx = i })
          (record { entry = entry'; score = pos (query_history_max - j); idx = j })
        ≡ true
  unfolding compare_entries
  before_later entry entry' i j h few = ground arith

  ranked_later :
      (entry : Text) (i idx : ℕ) (history : List Text)
      → i < idx
      → idx + length history ≤ query_history_max
      → All
          (λ b.
            before (record { entry = entry; score = pos (query_history_max - i); idx = i }) b
            ≡ true)
          (ranked idx history)
  unfolding ranked
  ranked_later entry i idx [] h few = tt
  ranked_later entry i idx (entry' ∷ history) h few = (
    before_later entry entry' i idx h (omega arith),
    ranked_later entry i (idx + 1) history (omega arith) (omega arith),
  )

  ranked-IsSorted :
      (idx : ℕ) (history : List Text)
      → idx + length history ≤ query_history_max
      → IsSorted before (ranked idx history)
  unfolding ranked
  ranked-IsSorted idx [] few = tt
  ranked-IsSorted idx (entry ∷ history) few = (
    ranked_later entry idx (idx + 1) history (omega arith) (omega arith),
    ranked-IsSorted (idx + 1) history (omega arith),
  )

  entries-ranked :
      (idx : ℕ) (history : List Text) → map (λ s. s.entry) (ranked idx history) ≡ history
  unfolding ranked
  entries-ranked idx [] = refl
  entries-ranked idx (entry ∷ history) = ap (◌∷◌ entry) (entries-ranked (idx + 1) history)

  blank_trimmed :
      (query : Text) → is_empty (trim query) ≡ true → is_empty (trim (trim query)) ≡ true
  blank_trimmed query h = rw (trim-trim query) h

  -- A blank search in the history shows the whole history, the newest query first, for a history of
  -- at most 100 queries.
  pub history_search_newest :
      (query : Text) (history : List Text)
      → is_empty (trim query) ≡ true
      → length history ≤ query_history_max
      → history_search_results_for fuzzy_match query history ≡ reverse history
  unfolding history_search_results_for
  history_search_newest query history blank few =
      let newest = reverse history in
      let size : 0 + length newest ≤ query_history_max = omega (arith, length-reversed history) in
      ap (λ es. map (λ s. s.entry) (sort_by before es))
        (score_entries_blank (trim query) 0 newest (blank_trimmed query blank))
      ∙ ap (map (λ s. s.entry))
          (sort_by_sorted before (ranked 0 newest) (ranked-IsSorted 0 newest size))
      ∙ entries-ranked 0 newest
