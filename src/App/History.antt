-- ===== src/App/History.antt =====
-- rust/src/app/input/history.rs: what is kept of the queries, and the search among them.
pub mod Valid
pub mod Invariant
pub mod Cancel
pub mod Newest
pub mod Kept
use flist_walker.Prelude.{
  ℕ, zero, suc, ◌+◌, ◌-◌, ◌*◌, ◌/◌, ◌%◌, ◌^◌, ◌≤◌, ◌<◌, min, max, ◌≡◌, refl, sym, ap, ap₂, ◌∙◌,
  subst, ◌≢◌, ◌↔◌, ◌⊎◌, inl, inr, Bool, true, false, ◌&&◌, ◌||◌, not, Option, none, some, List, [],
  ◌∷◌, ◌++◌, map, append_assoc, append-nil, arith, ℤ, compare_int, pos, negsuc, length, get_elem?,
  take, drop, is_empty, any, all, find_first, All, Member, length-append, length-take, length-drop,
  drop-append, any-append, filter_map, flat_map, length-map, drop-append_le, drop_of_get_elem?,
  get_elem?-eq-some_lt, get_elem?-eq-none_le, get_elem?_total, nil_of_length, here, there, Result,
  ◌>>=◌, try_map, ok, err, ltb, leb, ◌==◌, if◌then◌else◌, ltb→lt, lt→ltb, leb→le, le→leb, ==_iff,
  tests, Bool-cases, Option-cases, &&-eq-true, ||-eq-true, Bool-eq_of_iff, some_inj, if_both,
}
use Prim.Native.Nat.{compare, Ordering}
use mathlib.Core.List.{reverse}
use flist_walker.Text.{Text, len, text_eq, trim, contains, to_ascii_lowercase}
use flist_walker.Sorting.{sort_by}
use flist_walker.Search.Rank.{then_with, is_le}
use flist_walker.App.TabState.{AppTabState, ClosedTabState}
use flist_walker.App.QueryState.{
  QueryState, reset_query_history_navigation, begin_history_search,
  restore_original_history_search_query, accept_history_search_selection,
  replace_history_search_results, clear_history_search_results,
}

abbrev pub query_history_max : ℕ
query_history_max = 100

abbrev pub query_history_idle_delay : ℕ
query_history_idle_delay = 400

-- `while history.len() > QUERY_HISTORY_MAX { history.pop_front(); }`
unfoldable pub drop_oldest : List Text → List Text
drop_oldest [] = []
drop_oldest (oldest ∷ history) =
    let rest = drop_oldest history in
    if ltb query_history_max (length (oldest ∷ history)) then rest else oldest ∷ history

abbrev pub back : List Text → Option Text
back [] = none
back (entry ∷ []) = some entry
back (_ ∷ entry ∷ history) = back (entry ∷ history)

-- `history.back().is_some_and(|entry| entry == query)`
unfoldable pub ends_in : List Text → Text → Bool
unfolding text_eq
ends_in history query = elim (back history) [ none ↦ false | some entry ↦ text_eq entry query ]

unfoldable pub push_query_history : List Text → Text → List Text
push_query_history history query =
    let trimmed = trim query in
    if is_empty trimmed
    then history
    else if ends_in history trimmed
    then history
    else drop_oldest (history ++ (trimmed ∷ []))

module _ (fuzzy_match : Text → Text → Option ℤ) where
  unfoldable pub history_search_score : Text → Text → ℕ → Option ℤ
  history_search_score query candidate recency_rank =
      if is_empty (trim query)
      then some (pos recency_rank)
      else elim (fuzzy_match candidate query) [
        | some score ↦ some score
        | none ↦
            let query_lower = to_ascii_lowercase query in
            if contains (to_ascii_lowercase candidate) query_lower
            then some (pos (len query_lower * 100 + recency_rank))
            else none
      ]

  pub record ScoredEntry : Type 0 where
    pub entry : Text
    pub score : ℤ
    pub idx : ℕ

  abbrev scored_entry : Text → Text → ℕ → Option ScoredEntry
  scored_entry query entry idx = elim (history_search_score query entry (query_history_max - idx)) [
    | none ↦ none
    | some score ↦ some (record { entry = entry; score = score; idx = idx })
  ]

  -- `.enumerate().filter_map(..)` from the index `idx` on
  unfoldable pub score_entries : Text → ℕ → List Text → List ScoredEntry
  score_entries query idx [] = []
  score_entries query idx (entry ∷ history) =
      let rest = score_entries query (idx + 1) history in
      elim (scored_entry query entry idx) [ none ↦ rest | some scored ↦ scored ∷ rest ]

  unfoldable pub compare_entries : ScoredEntry → ScoredEntry → Ordering
  compare_entries a b = then_with (compare_int b.score a.score) (compare a.idx b.idx)

  -- The results of a search in the history.
  unfoldable pub history_search_results_for : Text → List Text → List Text
  history_search_results_for query history =
      map (λ scored. scored.entry)
        (sort_by (λ a b. is_le (compare_entries a b))
          (score_entries (trim query) 0 (reverse history)))

  unfoldable pub refresh_history_search_results : QueryState → QueryState
  refresh_history_search_results s =
      if not s.history_search_active
      then clear_history_search_results s
      else replace_history_search_results s
          (history_search_results_for s.history_search_query s.query_history)

-- The part of the application that these functions touch: the shown query state, the tabs with what
-- they keep of the query, and two flags. The slot of the active tab is not up to date.
pub record HistoryApp : Type 0 where
  pub query_state : QueryState
  pub tabs : List AppTabState
  pub active_tab : ℕ
  pub closed_tabs : List ClosedTabState
  pub next_tab_id : ℕ
  pub ime_composition_active : Bool
  pub ui_state_dirty : Bool

abbrev pub with_history : List Text → AppTabState → AppTabState
with_history history tab = record tab {
  query_state = record tab.query_state { query_history = history };
}

unfoldable pub sync_tabs_from : ℕ → List Text → ℕ → List AppTabState → List AppTabState
sync_tabs_from index history active_tab [] = []
sync_tabs_from index history active_tab (tab ∷ tabs) =
    (if index == active_tab then tab else with_history history tab)
    ∷ sync_tabs_from (index + 1) history active_tab tabs

unfoldable pub sync_shared_query_history_to_tabs : HistoryApp → HistoryApp
sync_shared_query_history_to_tabs app = record app {
  tabs = sync_tabs_from 0 app.query_state.query_history app.active_tab app.tabs;
}

abbrev is_due : Option ℕ → Bool → ℕ → Bool
is_due none force now = false
is_due (some since) force now = force || leb query_history_idle_delay (now - since)

abbrev pub has_cursor : Option ℕ → Bool
has_cursor none = false
has_cursor (some _) = true

-- `!should_commit || query_history_cursor.is_some()`
abbrev pub must_wait : QueryState → Bool → ℕ → Bool
must_wait s force now =
    not (is_due s.query_history_dirty_since force now) || has_cursor s.query_history_cursor

-- The query is new in the history, or its last entry.
abbrev pub is_shared_change : QueryState → List Text → Bool
is_shared_change s history =
    not (length history == length s.query_history) || ends_in history (trim s.query)

unfoldable pub commit_query_history_if_needed : HistoryApp → Bool → ℕ → HistoryApp
commit_query_history_if_needed app force now =
    let s = app.query_state in
    if app.ime_composition_active
    then app
    else if must_wait s force now
    then app
    else (let history = push_query_history s.query_history s.query in
        let committed = record app {
          query_state = record s { query_history = history; query_history_dirty_since = none };
        } in
        if is_shared_change s history
        then record (sync_shared_query_history_to_tabs committed) { ui_state_dirty = true }
        else committed)

abbrev pub with_state : HistoryApp → QueryState → HistoryApp
with_state app s = record app { query_state = s }

module _ (fuzzy_match : Text → Text → Option ℤ) where
  -- The focus, the notices and the update of the results that follow are the window's.
  unfoldable pub start_history_search : HistoryApp → ℕ → HistoryApp
  start_history_search app now =
      let committed = commit_query_history_if_needed app true now in
      with_state committed
        (refresh_history_search_results fuzzy_match (begin_history_search committed.query_state))

unfoldable pub cancel_history_search : HistoryApp → HistoryApp
cancel_history_search app = with_state app (restore_original_history_search_query app.query_state).1

unfoldable pub accept_history_search : HistoryApp → HistoryApp
accept_history_search app = with_state app (accept_history_search_selection app.query_state).1

unfoldable pub mark_query_edited : HistoryApp → ℕ → HistoryApp
mark_query_edited app now =
    with_state app (record (reset_query_history_navigation app.query_state) {
      query_history_dirty_since = some now;
    })
