-- ===== src/Tests/Histories.antt =====
-- Witnesses for the query history.
use flist_walker.Prelude.{
  ℕ, suc, ◌-◌, ◌≡◌, refl, true, false, Option, none, List, [], ◌∷◌, ◌++◌, arith, ℤ, pos, negsuc,
  length, drop, is_empty, All,
}
use mathlib.Core.List.{reverse}
use flist_walker.Tests.{program}
use flist_walker.Text.{Text, codes, trim}
use flist_walker.App.TabState.{AppTabState}
use flist_walker.App.Tabs.Keeps.{IsValidApp}
use flist_walker.App.QueryState.{new_query_state}
use flist_walker.App.History.{
  HistoryApp, query_history_max, push_query_history, ends_in, history_search_results_for,
  start_history_search, cancel_history_search,
}
use flist_walker.App.History.Invariant.{
  Command, run_all, run_all-IsValid, edit_query, commit, start, type_search, move, click,
  double_click, new_tab, switch_tab, close_tab, restore_tab,
}
use flist_walker.App.History.Cancel.{IsSearching, typing, moving, cancel_restores}
use flist_walker.App.History.Newest.{history_search_newest}
use flist_walker.App.History.Kept.{push_query_history_lem}

abbrev no_match : Text → Text → Option ℤ
no_match text query = none

abbrev two_queries : List Text
two_queries = codes "main" ∷ codes "lib" ∷ []

abbrev tab_of : ℕ → AppTabState
tab_of id = record {
  id = id;
  query_state = record {
    query = codes "lib";
    query_history = two_queries;
    query_history_cursor = none;
    query_history_draft = none;
    history_search_active = false;
    history_search_query = [];
    history_search_original_query = [];
    history_search_results = [];
    history_search_current = none;
  };
}

abbrev app : HistoryApp
app = record {
  query_state = new_query_state (codes "re") two_queries;
  tabs = tab_of 0 ∷ tab_of 1 ∷ [];
  active_tab = 0;
  closed_tabs = [];
  next_tab_id = 2;
  ime_composition_active = false;
  ui_state_dirty = false;
}

app-IsValidApp : IsValidApp app
unfolding new_query_state
app-IsValidApp = record {
  state = record { few = omega arith; selection = refl };
  tabs = (omega arith, (omega arith, tt));
  closed = tt;
}

abbrev session : List Command
session =
    edit_query (codes "read") 100
    ∷ start 200
    ∷ type_search (codes "m")
    ∷ move (pos 1)
    ∷ click 0
    ∷ new_tab 300
    ∷ switch_tab 1 400
    ∷ close_tab 0 500
    ∷ restore_tab 600
    ∷ start 700
    ∷ double_click 1
    ∷ commit false 900
    ∷ []

run_all-IsValid_example : IsValidApp (run_all no_match app session)
run_all-IsValid_example = run_all-IsValid no_match app session app-IsValidApp

abbrev searching : List Command
searching = type_search (codes "m") ∷ move (negsuc 0) ∷ []

searching-IsSearching : All IsSearching searching
searching-IsSearching = (typing (codes "m"), (moving (negsuc 0), tt))

cancel_restores_example :
    (let started = start_history_search no_match app 50 in
      let s = (cancel_history_search (run_all no_match started searching)).query_state in
      (s.query ≡ app.query_state.query)
      × (s.query_history ≡ started.query_state.query_history)
      × (s.history_search_active ≡ false)
      × (s.history_search_results ≡ []))
cancel_restores_example = cancel_restores no_match app 50 searching searching-IsSearching

history_search_newest_example :
    history_search_results_for no_match [] two_queries ≡ reverse two_queries
unfolding program
history_search_newest_example = history_search_newest no_match [] two_queries refl (omega arith)

push_query_history_lem_example :
    (is_empty (trim (codes "lib ")) ≡ true
      → push_query_history two_queries (codes "lib ") ≡ two_queries)
    × (ends_in two_queries (trim (codes "lib ")) ≡ true
        → push_query_history two_queries (codes "lib ") ≡ two_queries)
    × (is_empty (trim (codes "lib ")) ≡ false
        → ends_in two_queries (trim (codes "lib ")) ≡ false
        → push_query_history two_queries (codes "lib ")
          ≡ drop
              (suc (length two_queries) - query_history_max)
              (two_queries ++ (trim (codes "lib ") ∷ [])))
push_query_history_lem_example = push_query_history_lem two_queries (codes "lib ")
