-- ===== src/App/History/Invariant.antt =====
-- What the user does to the query, to the search in its history and to the tabs keeps the state
-- valid.
use flist_walker.Prelude.{ℕ, ◌≡◌, refl, Bool, true, Option, some, List, [], ◌∷◌, arith, ℤ, if_both}
use flist_walker.Text.{Text}
use flist_walker.App.QueryState.{
  QueryState, reset_query_history_navigation, reset_history_search, move_history_search_selection,
}
use flist_walker.App.History.{
  HistoryApp, with_state, refresh_history_search_results, commit_query_history_if_needed,
  start_history_search, cancel_history_search, accept_history_search, mark_query_edited,
}
use flist_walker.App.Tabs.{
  switch_to_tab_index, create_new_tab, close_tab_index, restore_recently_closed_tab, move_tab,
  apply_root_change_direct,
}
use flist_walker.App.Window.{
  has_history_row, click_history_row, double_click_history_row, clear_query_and_selection,
}
use flist_walker.App.History.Valid.{
  IsValid, begin-IsValid, refresh-IsValid, move-IsValid, restore-IsValid, accept-IsValid,
}
use flist_walker.App.Tabs.Keeps.{IsValidApp, commit-IsValidApp}
use flist_walker.App.Tabs.Switches.{
  switch_to_tab_index-IsValidApp, create_new_tab-IsValidApp, close_tab_index-IsValidApp,
  restore_recently_closed_tab-IsValidApp, move_tab-IsValidApp, apply_root_change_direct-IsValidApp,
}

-- What the user does, each with the time at which it happens where that matters. A change of the
-- query or of the searched text comes from the window's text fields; a change of the root comes with
-- the test whether it is the same.
pub data Command : Type 0 where
  edit_query : Text → ℕ → Command
  compose : Bool → Command
  commit : Bool → ℕ → Command
  start : ℕ → Command
  type_search : Text → Command
  move : ℤ → Command
  click double_click : ℕ → Command
  cancel accept clear : Command
  change_root : Bool → ℕ → Command
  switch_tab close_tab : ℕ → ℕ → Command
  new_tab restore_tab : ℕ → Command
  drag_tab : ℕ → ℕ → ℕ → Command

row-IsValid :
    (s : QueryState) (index : ℕ)
    → has_history_row s index ≡ true
    → IsValid s
    → IsValid (record s { history_search_current = some index })
unfolding has_history_row
row-IsValid s index h v = record { few = v.few; selection = ground (arith, h) }

module _ (fuzzy_match : Text → Text → Option ℤ) where
  abbrev typed : QueryState → Text → QueryState
  typed s text = record s { history_search_query = text }

  unfoldable pub run : HistoryApp → Command → HistoryApp
  run app (edit_query text now) =
      mark_query_edited (record app { query_state = record app.query_state { query = text } }) now
  run app (compose active) = record app { ime_composition_active = active }
  run app (commit force now) = commit_query_history_if_needed app force now
  run app (start now) = start_history_search fuzzy_match app now
  run app (type_search text) =
      with_state app (refresh_history_search_results fuzzy_match (typed app.query_state text))
  run app (move delta) = with_state app (move_history_search_selection app.query_state delta)
  run app (click index) = click_history_row app index
  run app (double_click index) = double_click_history_row app index
  run app cancel = cancel_history_search app
  run app accept = accept_history_search app
  run app clear = clear_query_and_selection app
  run app (change_root is_same_root now) = apply_root_change_direct app is_same_root now
  run app (switch_tab index now) = switch_to_tab_index app index now
  run app (close_tab index now) = close_tab_index app index now
  run app (new_tab now) = create_new_tab app now
  run app (restore_tab now) = restore_recently_closed_tab app now
  run app (drag_tab from_index to_index now) = move_tab app from_index to_index now

  unfoldable pub run_all : HistoryApp → List Command → HistoryApp
  run_all app [] = app
  run_all app (command ∷ commands) = run_all (run app command) commands

  -- A command that changes nothing but the shown state.
  shown :
      (app : HistoryApp) (s : QueryState)
      → IsValidApp app
      → IsValid s
      → IsValidApp (with_state app s)
  shown app s v k = record { state = k; tabs = v.tabs; closed = v.closed }

  run-IsValidApp :
      (app : HistoryApp) (command : Command) → IsValidApp app → IsValidApp (run app command)
  unfolding run mark_query_edited reset_query_history_navigation reset_history_search
      start_history_search cancel_history_search accept_history_search click_history_row
      double_click_history_row clear_query_and_selection
  run-IsValidApp app (edit_query text now) v =
      shown app _ v (record { few = v.state.few; selection = v.state.selection })
  run-IsValidApp app (compose active) v = record {
    state = v.state;
    tabs = v.tabs;
    closed = v.closed;
  }
  run-IsValidApp app (commit force now) v = commit-IsValidApp app force now v
  run-IsValidApp app (start now) v =
      let c = commit-IsValidApp app true now v in
      shown _ _ c (refresh-IsValid fuzzy_match _ (begin-IsValid _ c.state))
  run-IsValidApp app (type_search text) v =
      shown app _ v (
        refresh-IsValid fuzzy_match _ (record { few = v.state.few; selection = v.state.selection }))
  run-IsValidApp app (move delta) v = shown app _ v (move-IsValid app.query_state delta v.state)
  run-IsValidApp app (click index) v =
      if_both IsValidApp (has_history_row app.query_state index)
        (λ h. shown app _ v (row-IsValid app.query_state index h v.state)) (λ _. v)
  run-IsValidApp app (double_click index) v =
      if_both IsValidApp (has_history_row app.query_state index)
        (λ h. shown app _ v (accept-IsValid _ (row-IsValid app.query_state index h v.state)))
        (λ _. v)
  run-IsValidApp app cancel v = shown app _ v (restore-IsValid app.query_state v.state)
  run-IsValidApp app accept v = shown app _ v (accept-IsValid app.query_state v.state)
  run-IsValidApp app clear v = shown app _ v (record { few = v.state.few; selection = refl })
  run-IsValidApp app (change_root is_same_root now) v =
      apply_root_change_direct-IsValidApp app is_same_root now v
  run-IsValidApp app (switch_tab index now) v = switch_to_tab_index-IsValidApp app index now v
  run-IsValidApp app (close_tab index now) v = close_tab_index-IsValidApp app index now v
  run-IsValidApp app (new_tab now) v = create_new_tab-IsValidApp app now v
  run-IsValidApp app (restore_tab now) v = restore_recently_closed_tab-IsValidApp app now v
  run-IsValidApp app (drag_tab from_index to_index now) v =
      move_tab-IsValidApp app from_index to_index now v

  -- In any sequence of edits and commits of the query, composing, clearing, changes of the root,
  -- starting, typing, moving, clicking and double-clicking a row, accepting and cancelling in the
  -- history search, and of switching, opening, closing, restoring and moving tabs, from a valid
  -- state on, the history of every open or closed tab keeps at most 100 queries, and the selection
  -- of the shown tab is an index into the results of its search, with no selection exactly when
  -- there are no results.
  pub run_all-IsValid :
      (app : HistoryApp) (commands : List Command)
      → IsValidApp app
      → IsValidApp (run_all app commands)
  unfolding run_all
  run_all-IsValid app [] v = v
  run_all-IsValid app (command ∷ commands) v =
      run_all-IsValid (run app command) commands (run-IsValidApp app command v)
