-- ===== src/App/TabState.antt =====
-- rust/src/app/tab_state.rs: what a tab keeps of the query while another tab is shown.
use flist_walker.Prelude.{ℕ, Bool, false, Option, none, List, []}
use flist_walker.Text.{Text}
use flist_walker.App.QueryState.{QueryState}

pub record TabQueryState : Type 0 where
  pub query : Text
  pub query_history : List Text
  pub query_history_cursor : Option ℕ
  pub query_history_draft : Option Text
  pub history_search_active : Bool
  pub history_search_query : Text
  pub history_search_original_query : Text
  pub history_search_results : List Text
  pub history_search_current : Option ℕ

-- The index, the results and the settings of the tab are left out.
pub record AppTabState : Type 0 where
  pub id : ℕ
  pub query_state : TabQueryState

pub record ClosedTabState : Type 0 where
  pub tab : AppTabState
  pub original_index : ℕ

-- The shown state keeps its kill buffer and the time of its last edit.
unfoldable pub swap_shell : TabQueryState → QueryState → TabQueryState × QueryState
swap_shell t s = (
  record {
    query = s.query;
    query_history = s.query_history;
    query_history_cursor = s.query_history_cursor;
    query_history_draft = s.query_history_draft;
    history_search_active = s.history_search_active;
    history_search_query = s.history_search_query;
    history_search_original_query = s.history_search_original_query;
    history_search_results = s.history_search_results;
    history_search_current = s.history_search_current;
  },
  record s {
    query = t.query;
    query_history = t.query_history;
    query_history_cursor = t.query_history_cursor;
    query_history_draft = t.query_history_draft;
    history_search_active = t.history_search_active;
    history_search_query = t.history_search_query;
    history_search_original_query = t.history_search_original_query;
    history_search_results = t.history_search_results;
    history_search_current = t.history_search_current;
  },
)

unfoldable pub new_tab_from_shell : QueryState → ℕ → AppTabState
new_tab_from_shell shell id = record {
  id = id;
  query_state = record {
    query = [];
    query_history = shell.query_history;
    query_history_cursor = none;
    query_history_draft = none;
    history_search_active = false;
    history_search_query = [];
    history_search_original_query = [];
    history_search_results = [];
    history_search_current = none;
  };
}
