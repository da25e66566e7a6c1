-- ===== src/Search/Rank.antt =====
-- rust/src/search/rank.rs: the order of the matches and the best of them.
pub mod Top
use flist_walker.Prelude.{
  ℕ, ◌-◌, Bool, true, false, ◌||◌, Option, none, some, List, [], map, length, get_elem?, take,
  is_empty, filter_map, ltb, ◌==◌, if◌then◌else◌,
}
use Prim.Native.Nat.{compare, Ordering}
use flist_walker.Paths.{FilePath}
use flist_walker.Sorting.{sort_by}
use flist_walker.Query.Score.{Scoring}

-- `Ordering::then_with` and `unwrap_or(Ordering::Equal)`
abbrev pub then_with : Ordering → Ordering → Ordering
then_with Ordering.eq second = second
then_with Ordering.lt second = Ordering.lt
then_with Ordering.gt second = Ordering.gt

abbrev pub or_equal : Option Ordering → Ordering
or_equal none = Ordering.eq
or_equal (some o) = o

abbrev pub is_le : Ordering → Bool
is_le Ordering.gt = false
is_le Ordering.eq = true
is_le Ordering.lt = true

module _ (scoring : Scoring) where
  open scoring use {Score, partial_cmp}

  pub record SearchCandidateScore : Type 0 where
    pub index : ℕ
    pub score : Score
    pub ordinal : ℕ

  pub record IndexedScore : Type 0 where
    pub index : ℕ
    pub score : Score

  unfoldable pub compare_scored_candidates : SearchCandidateScore → SearchCandidateScore → Ordering
  compare_scored_candidates a b =
      then_with (or_equal (partial_cmp b.score a.score)) (compare a.ordinal b.ordinal)

  abbrev pub scored_le : SearchCandidateScore → SearchCandidateScore → Bool
  scored_le a b = is_le (compare_scored_candidates a b)

  unfoldable pub sort_scored_matches : List SearchCandidateScore → List SearchCandidateScore
  sort_scored_matches = sort_by scored_le

  abbrev pub to_indexed : SearchCandidateScore → IndexedScore
  to_indexed item = record { index = item.index; score = item.score }

  -- `select` is `select_nth_unstable_by` with the comparison above.
  unfoldable pub top_ranked_scores :
      (ℕ → List SearchCandidateScore → List SearchCandidateScore)
      → List SearchCandidateScore
      → ℕ
      → List IndexedScore
  top_ranked_scores select scored limit =
      if limit == 0 || is_empty scored
      then []
      else (let kept =
            (if ltb limit (length scored)
              then (let keep = limit - 1 in take limit (select keep scored))
              else scored) in
          map to_indexed (sort_scored_matches kept))

  abbrev located : List FilePath → IndexedScore → Option (FilePath × Score)
  located entries item = elim (get_elem? entries item.index) [
    | none ↦ none
    | some path ↦ some (path, item.score)
  ]

  unfoldable pub scored_indices_to_paths :
      List FilePath → List IndexedScore → ℕ → List (FilePath × Score)
  scored_indices_to_paths entries scored limit =
      if limit == 0 || is_empty scored then [] else filter_map (located entries) (take limit scored)

  unfoldable pub materialize_scored_entries :
      List FilePath → List IndexedScore → List (FilePath × Score)
  materialize_scored_entries entries scored = filter_map (located entries) scored
