-- ===== src/App/QueryState.antt =====
-- rust/src/app/query_state.rs: the query, its history, and the search in the history.
use flist_walker.Prelude.{
  ℕ, suc, ◌+◌, ◌-◌, min, Bool, true, false, ◌||◌, not, Option, none, some, List, [], ℤ, pos, negsuc,
  length, get_elem?, is_empty, if◌then◌else◌,
}
use flist_walker.Text.{Text}

-- An `Instant` is a number of milliseconds.
pub record QueryState : Type 0 where
  pub query : Text
  pub query_history : List Text
  pub query_history_cursor : Option ℕ
  pub query_history_draft : Option Text
  pub query_history_dirty_since : Option ℕ
  pub history_search_active : Bool
  pub history_search_query : Text
  pub history_search_original_query : Text
  pub history_search_results : List Text
  pub history_search_current : Option ℕ
  pub kill_buffer : Text

unfoldable pub new_query_state : Text → List Text → QueryState
new_query_state query query_history = record {
  query = query;
  query_history = query_history;
  query_history_cursor = none;
  query_history_draft = none;
  query_history_dirty_since = none;
  history_search_active = false;
  history_search_query = [];
  history_search_original_query = [];
  history_search_results = [];
  history_search_current = none;
  kill_buffer = [];
}

unfoldable pub reset_query_history_navigation : QueryState → QueryState
reset_query_history_navigation s = record s {
  query_history_cursor = none;
  query_history_draft = none;
}

unfoldable pub begin_history_search : QueryState → QueryState
begin_history_search s = record s {
  history_search_active = true;
  history_search_query = [];
  history_search_original_query = s.query;
}

unfoldable pub reset_history_search : QueryState → QueryState
reset_history_search s = record s {
  history_search_active = false;
  history_search_query = [];
  history_search_original_query = [];
  history_search_results = [];
  history_search_current = none;
}

-- The Boolean is the returned value.
unfoldable pub restore_original_history_search_query : QueryState → Bool × QueryState
unfolding reset_history_search
restore_original_history_search_query s =
    if not s.history_search_active
    then (false, s)
    else (true, reset_history_search (record s { query = s.history_search_original_query }))

-- `history_search_current.and_then(|index| history_search_results.get(index))`
abbrev pub selected_result : QueryState → Option Text
selected_result s = elim (s.history_search_current) [
  | none ↦ none
  | some index ↦ get_elem? s.history_search_results index
]

unfoldable pub accept_history_search_selection : QueryState → Option Text × QueryState
unfolding reset_history_search reset_query_history_navigation
accept_history_search_selection s =
    if not s.history_search_active then (none, s) else elim (selected_result s) [
      | none ↦ (none, s)
      | some selected ↦
          let navigated = reset_query_history_navigation (record s { query = selected }) in
          (
            some selected,
            reset_history_search (record navigated { query_history_dirty_since = none }),
          )
    ]

unfoldable pub replace_history_search_results : QueryState → List Text → QueryState
replace_history_search_results s results = record s {
  history_search_results = results;
  history_search_current = if not (is_empty results) then some 0 else none;
}

unfoldable pub clear_history_search_results : QueryState → QueryState
clear_history_search_results s = record s {
  history_search_results = [];
  history_search_current = none;
}

-- `(current + delta).clamp(0, last)`
unfoldable pub moved_selection : ℕ → ℤ → ℕ → ℕ
moved_selection current (pos n) last = min (current + n) last
moved_selection current (negsuc n) last = min (current - suc n) last

abbrev or_zero : Option ℕ → ℕ
or_zero none = 0
or_zero (some n) = n

unfoldable pub move_history_search_selection : QueryState → ℤ → QueryState
unfolding moved_selection
move_history_search_selection s delta =
    if not s.history_search_active || is_empty s.history_search_results then s else record s {
      history_search_current = some (
          moved_selection (or_zero s.history_search_current) delta
            (length s.history_search_results - 1));
    }
