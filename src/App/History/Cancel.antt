-- ===== src/App/History/Cancel.antt =====
-- A search in the history that is cancelled leaves the query as it was.
use flist_walker.Prelude.{
  ℕ, ◌≡◌, refl, Bool, true, false, ◌||◌, not, Option, List, [], ◌∷◌, ℤ, is_empty, all, All, if_both,
}
use flist_walker.Text.{Text}
use flist_walker.App.QueryState.{
  QueryState, begin_history_search, reset_history_search, restore_original_history_search_query,
  replace_history_search_results, clear_history_search_results, move_history_search_selection,
}
use flist_walker.App.History.{
  HistoryApp, refresh_history_search_results, commit_query_history_if_needed, start_history_search,
  cancel_history_search, must_wait, is_shared_change, push_query_history,
  sync_shared_query_history_to_tabs,
}
use flist_walker.App.History.Invariant.{Command, type_search, move, run, run_all}

-- The commands of the search that neither end it nor leave it.
pub data IsSearching : Command → Type 0 where
  typing : (text : Text) → IsSearching (type_search text)
  moving : (delta : ℤ) → IsSearching (move delta)

-- A search is under way that began at the query, with this history.
abbrev Searches : Text → List Text → QueryState → Type 0
Searches query history s =
    (s.history_search_active ≡ true)
    × (s.history_search_original_query ≡ query)
    × (s.query_history ≡ history)

move-Searches :
    (query : Text) (history : List Text) (s : QueryState) (delta : ℤ)
    → Searches query history s
    → Searches query history (move_history_search_selection s delta)
unfolding move_history_search_selection
move-Searches query history s delta h =
    if_both (Searches query history)
      (not s.history_search_active || is_empty s.history_search_results) (λ _. h) (λ _. h)

module _ (fuzzy_match : Text → Text → Option ℤ) where
  refresh-Searches :
      (query : Text) (history : List Text) (s : QueryState)
      → Searches query history s
      → Searches query history (refresh_history_search_results fuzzy_match s)
  unfolding refresh_history_search_results replace_history_search_results
      clear_history_search_results
  refresh-Searches query history s h =
      if_both (Searches query history) (not s.history_search_active) (λ _. h) (λ _. h)

  run-Searches :
      (query : Text) (history : List Text) (app : HistoryApp) (command : Command)
      → IsSearching command
      → Searches query history app.query_state
      → Searches query history (run fuzzy_match app command).query_state
  unfolding run
  run-Searches query history app _ (typing t) h = refresh-Searches query history _ h
  run-Searches query history app _ (moving delta) h =
      move-Searches query history app.query_state delta h

  run_all-Searches :
      (query : Text) (history : List Text) (app : HistoryApp) (commands : List Command)
      → All IsSearching commands
      → Searches query history app.query_state
      → Searches query history (run_all fuzzy_match app commands).query_state
  unfolding run_all
  run_all-Searches query history app [] all h = h
  run_all-Searches query history app (command ∷ commands) all h =
      run_all-Searches query history (run fuzzy_match app command) commands all.1
        (run-Searches query history app command all.0 h)

  commit_query :
      (app : HistoryApp) (force : Bool) (now : ℕ)
      → (commit_query_history_if_needed app force now).query_state.query ≡ app.query_state.query
  unfolding commit_query_history_if_needed sync_shared_query_history_to_tabs
  commit_query app force now =
      if_both Keeps app.ime_composition_active (λ _. refl)
        λ _.
          if_both Keeps (must_wait app.query_state force now) (λ _. refl)
            λ _.
              if_both Keeps
                (is_shared_change app.query_state
                  (push_query_history app.query_state.query_history app.query_state.query))
                (λ _. refl) (λ _. refl)
    where
      Keeps : HistoryApp → Type 0
      Keeps a = a.query_state.query ≡ app.query_state.query

  cancelled :
      (query : Text) (history : List Text) (s : QueryState)
      → Searches query history s
      → (let s' = (restore_original_history_search_query s).1 in
          (s'.query ≡ query)
          × (s'.query_history ≡ history)
          × (s'.history_search_active ≡ false)
          × (s'.history_search_results ≡ []))
  unfolding restore_original_history_search_query reset_history_search
  cancelled query history s h = rw h.0 (h.1, h.2, refl, refl)

  start-Searches :
      (app : HistoryApp) (now : ℕ)
      → (let started = (start_history_search fuzzy_match app now).query_state in
          Searches app.query_state.query started.query_history started)
  unfolding start_history_search begin_history_search
  start-Searches app now =
      let committed = (commit_query_history_if_needed app true now).query_state in
      let h =
        refresh-Searches app.query_state.query committed.query_history
          (begin_history_search committed) (refl, commit_query app true now, refl) in
      (h.0, h.1, refl)

  -- However the user has typed and moved in the history search, cancelling it brings back the query
  -- at which it began, keeps the history that the start has committed, and ends the search without
  -- results.
  pub cancel_restores :
      (app : HistoryApp) (now : ℕ) (commands : List Command)
      → All IsSearching commands
      → (let started = start_history_search fuzzy_match app now in
          let s = (cancel_history_search (run_all fuzzy_match started commands)).query_state in
          (s.query ≡ app.query_state.query)
          × (s.query_history ≡ started.query_state.query_history)
          × (s.history_search_active ≡ false)
          × (s.history_search_results ≡ []))
  unfolding cancel_history_search
  cancel_restores app now commands all =
      let started = start_history_search fuzzy_match app now in
      cancelled app.query_state.query started.query_state.query_history
        (run_all fuzzy_match started commands).query_state
        (run_all-Searches app.query_state.query started.query_state.query_history started commands
          all (start-Searches app now))
