-- ===== src/App/Tabs/Keeps.antt =====
-- The tabs keep histories within the bound, and the shown state stays valid from tab to tab.
use flist_walker.Prelude.{
  ℕ, zero, suc, ◌+◌, Bool, true, Option, none, some, List, [], ◌∷◌, ◌++◌, get_elem?, drop, All,
  ◌==◌, if_both,
}
use flist_walker.Text.{Text}
use flist_walker.Search.Cache.{remove_at}
use flist_walker.App.TabState.{AppTabState, ClosedTabState}
use flist_walker.App.History.{
  HistoryApp, sync_tabs_from, sync_shared_query_history_to_tabs, must_wait, is_shared_change,
  commit_query_history_if_needed, push_query_history,
}
use flist_walker.App.History.Valid.{Few, IsValid, push_query_history-Few, commit-IsValid}
use flist_walker.App.Tabs.{set_at, insert_at}

module _ {A : Type 0} (P : A → Type 0) where
  pub All-set_at : (index : ℕ) (x : A) (xs : List A) → P x → All P xs → All P (set_at index x xs)
  unfolding set_at
  All-set_at index x [] p h = tt
  All-set_at zero x (y ∷ xs) p h = (p, h.1)
  All-set_at (suc index) x (y ∷ xs) p h = (h.0, All-set_at index x xs p h.1)

  pub All-insert_at :
      (index : ℕ) (x : A) (xs : List A) → P x → All P xs → All P (insert_at index x xs)
  unfolding insert_at
  All-insert_at index x [] p h = (p, tt)
  All-insert_at zero x (y ∷ xs) p h = (p, h)
  All-insert_at (suc index) x (y ∷ xs) p h = (h.0, All-insert_at index x xs p h.1)

  pub All-append : (xs ys : List A) → All P xs → All P ys → All P (xs ++ ys)
  All-append [] ys h k = k
  All-append (x ∷ xs) ys h k = (h.0, All-append xs ys h.1 k)

  pub All-drop_one : (xs : List A) → All P xs → All P (drop 1 xs)
  All-drop_one [] h = tt
  All-drop_one (x ∷ xs) h = h.1

  -- A property of what may be there.
  abbrev pub AtMost : {B : Type 0} → (B → Type 0) → Option B → Type 0
  AtMost Q none = Unit {0}
  AtMost Q (some x) = Q x

  pub All-get_elem? : (xs : List A) (index : ℕ) → All P xs → AtMost P (get_elem? xs index)
  All-get_elem? [] index h = tt
  All-get_elem? (x ∷ xs) zero h = h.0
  All-get_elem? (x ∷ xs) (suc index) h = All-get_elem? xs index h.1

  abbrev pub Removed : A × List A → Type 0
  Removed r = P r.0 × All P r.1

  pub All-remove_at : (index : ℕ) (xs : List A) → All P xs → AtMost Removed (remove_at index xs)
  unfolding remove_at
  All-remove_at index [] h = tt
  All-remove_at zero (x ∷ xs) h = h
  All-remove_at (suc index) (x ∷ xs) h = later (remove_at index xs) (All-remove_at index xs h.1)
    where
      later :
          (r : Option (A × List A))
          → AtMost Removed r
          → AtMost Removed (elim r as (λ _. Option (A × List A)) [
            | none ↦ none
            | some (y, ys) ↦ some (y, x ∷ ys)
          ])
      later none k = tt
      later (some (y, ys)) k = (k.0, (h.0, k.1))

abbrev pub FewTab : AppTabState → Type 0
FewTab tab = Few tab.query_state.query_history

abbrev pub FewClosed : ClosedTabState → Type 0
FewClosed closed = FewTab closed.tab

-- The histories of all tabs, the closed ones among them, are within the bound.
pub record HasFew (app : HistoryApp) : Type 0 where
  pub shown : Few app.query_state.query_history
  pub kept : All FewTab app.tabs
  pub closed : All FewClosed app.closed_tabs

-- The shown state is valid besides.
pub record IsValidApp (app : HistoryApp) : Type 0 where
  pub state : IsValid app.query_state
  pub tabs : All FewTab app.tabs
  pub closed : All FewClosed app.closed_tabs

pub IsValidApp-HasFew : (app : HistoryApp) → IsValidApp app → HasFew app
IsValidApp-HasFew app v = record { shown = v.state.few; kept = v.tabs; closed = v.closed }

sync-All :
    (index : ℕ) (history : List Text) (active : ℕ) (tabs : List AppTabState)
    → Few history
    → All FewTab tabs
    → All FewTab (sync_tabs_from index history active tabs)
unfolding sync_tabs_from
sync-All index history active [] few h = tt
sync-All index history active (tab ∷ tabs) few h = (
  if_both FewTab (index == active) (λ _. h.0) (λ _. few),
  sync-All (index + 1) history active tabs few h.1,
)

-- The application with its query put at the end of the history.
abbrev pushed : HistoryApp → HistoryApp
pushed app = record app {
  query_state = record app.query_state {
    query_history = push_query_history app.query_state.query_history app.query_state.query;
    query_history_dirty_since = none;
  };
}

-- A commit, of any invariant that it keeps in each of its cases.
module _ (P : HistoryApp → Type 0) (app : HistoryApp) (same : P app)
    (shared : P (record (sync_shared_query_history_to_tabs (pushed app)) { ui_state_dirty = true }))
    (kept : P (pushed app)) where
  commit_cases : (force : Bool) (now : ℕ) → P (commit_query_history_if_needed app force now)
  unfolding commit_query_history_if_needed
  commit_cases force now =
      if_both P app.ime_composition_active (λ _. same)
        λ _.
          if_both P (must_wait app.query_state force now) (λ _. same)
            λ _.
              if_both P
                (is_shared_change app.query_state
                  (push_query_history app.query_state.query_history app.query_state.query))
                (λ _. shared) (λ _. kept)

pub commit-HasFew :
    (app : HistoryApp) (force : Bool) (now : ℕ)
    → HasFew app
    → HasFew (commit_query_history_if_needed app force now)
unfolding sync_shared_query_history_to_tabs
commit-HasFew app force now h =
    let few = push_query_history-Few app.query_state.query_history app.query_state.query h.shown in
    commit_cases HasFew app h
      (record {
        shown = few;
        kept = sync-All 0 _ app.active_tab app.tabs few h.kept;
        closed = h.closed;
      })
      (record { shown = few; kept = h.kept; closed = h.closed }) force now

pub commit-IsValidApp :
    (app : HistoryApp) (force : Bool) (now : ℕ)
    → IsValidApp app
    → IsValidApp (commit_query_history_if_needed app force now)
commit-IsValidApp app force now v =
    let h = commit-HasFew app force now (IsValidApp-HasFew app v) in
    record { state = commit-IsValid app force now v.state; tabs = h.kept; closed = h.closed }
