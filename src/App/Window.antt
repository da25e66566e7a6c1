-- ===== src/App/Window.antt =====
-- rust/src/app/render_panels.rs and input/navigation.rs: the rows of the search in the history, and
-- the key that clears the query.
use flist_walker.Prelude.{ℕ, Bool, ◌&&◌, none, some, [], length, ltb, if◌then◌else◌}
use flist_walker.App.QueryState.{QueryState, reset_query_history_navigation, reset_history_search}
use flist_walker.App.History.{HistoryApp, with_state, accept_history_search}

-- The rows are shown while the search is active, one for each result.
unfoldable pub has_history_row : QueryState → ℕ → Bool
has_history_row s index = s.history_search_active && ltb index (length s.history_search_results)

abbrev pub with_row : HistoryApp → ℕ → HistoryApp
with_row app index = with_state app (record app.query_state { history_search_current = some index })

unfoldable pub click_history_row : HistoryApp → ℕ → HistoryApp
unfolding has_history_row
click_history_row app index =
    if has_history_row app.query_state index then with_row app index else app

unfoldable pub double_click_history_row : HistoryApp → ℕ → HistoryApp
unfolding has_history_row accept_history_search
double_click_history_row app index =
    if has_history_row app.query_state index
    then accept_history_search (with_row app index)
    else app

unfoldable pub clear_query_and_selection : HistoryApp → HistoryApp
unfolding reset_history_search reset_query_history_navigation
clear_query_and_selection app =
    with_state app
      (record (reset_history_search
        (reset_query_history_navigation (record app.query_state { query = [] }))) {
          query_history_dirty_since = none;
        })
