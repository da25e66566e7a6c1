-- ===== src/App/Tabs/Switches.antt =====
-- Every move between the tabs keeps the histories within the bound, and ends in a valid state.
use flist_walker.Prelude.{
  ℕ, ◌+◌, ◌≡◌, refl, Bool, true, false, ◌||◌, Option, none, some, List, [], ◌∷◌, ◌++◌, length,
  get_elem?, All, leb, ◌==◌, if_both,
}
use flist_walker.Search.Cache.{remove_at}
use flist_walker.App.QueryState.{reset_query_history_navigation, reset_history_search}
use flist_walker.App.TabState.{AppTabState, ClosedTabState, swap_shell, new_tab_from_shell}
use flist_walker.App.History.{HistoryApp, commit_query_history_if_needed}
use flist_walker.App.History.Valid.{IsValid}
use flist_walker.App.Tabs.{
  exchanged, restored, closed_from, left_before_close, moved_to, moved_from, swap_payload,
  finish_tab_payload_load, sync_active_tab_state, store_active_tab_payload, load_tab_payload,
  switch_to_tab_index, create_new_tab, push_closed_tab, pop_closed_tab, without_tab,
  close_tab_index, restore_recently_closed_tab, move_tab, apply_root_change_direct,
}
use flist_walker.App.Tabs.Keeps.{
  All-set_at, All-insert_at, All-append, All-drop_one, All-get_elem?, All-remove_at, AtMost,
  Removed, FewTab, FewClosed, HasFew, IsValidApp, IsValidApp-HasFew, commit-HasFew,
  commit-IsValidApp,
}

exchange-HasFew :
    (index : ℕ) (app : HistoryApp) (slot : AppTabState)
    → FewTab slot
    → HasFew app
    → HasFew (exchanged index app (some slot))
unfolding swap_shell
exchange-HasFew index app slot few h = record {
  shown = few;
  kept = All-set_at FewTab index _ app.tabs h.shown h.kept;
  closed = h.closed;
}

swap-HasFew : (index : ℕ) (app : HistoryApp) → HasFew app → HasFew (swap_payload index app)
unfolding swap_payload
swap-HasFew index app h =
    exchanged-HasFew (get_elem? app.tabs index) (All-get_elem? FewTab app.tabs index h.kept)
  where
    exchanged-HasFew :
        (slot : Option AppTabState) → AtMost FewTab FewTab slot → HasFew (exchanged index app slot)
    exchanged-HasFew none k = h
    exchanged-HasFew (some slot) k = exchange-HasFew index app slot k h

store-HasFew : (app : HistoryApp) (now : ℕ) → HasFew app → HasFew (store_active_tab_payload app now)
unfolding store_active_tab_payload
store-HasFew app now h = swap-HasFew _ _ (commit-HasFew app true now h)

-- What is loaded has no selection left.
load-IsValidApp :
    (app : HistoryApp) (index : ℕ) → HasFew app → IsValidApp (load_tab_payload app index)
unfolding load_tab_payload finish_tab_payload_load reset_history_search
    reset_query_history_navigation
load-IsValidApp app index h =
    let swapped = swap-HasFew index app h in
    record {
      state = record { few = swapped.shown; selection = refl };
      tabs = swapped.kept;
      closed = swapped.closed;
    }

pub switch_to_tab_index-IsValidApp :
    (app : HistoryApp) (next_index now : ℕ)
    → IsValidApp app
    → IsValidApp (switch_to_tab_index app next_index now)
unfolding switch_to_tab_index
switch_to_tab_index-IsValidApp app next_index now v =
    let h = store-HasFew app now (IsValidApp-HasFew app v) in
    if_both IsValidApp (leb (length app.tabs) next_index || next_index == app.active_tab) (λ _. v)
      λ _.
        load-IsValidApp _ next_index (record { shown = h.shown; kept = h.kept; closed = h.closed })

pub create_new_tab-IsValidApp :
    (app : HistoryApp) (now : ℕ) → IsValidApp app → IsValidApp (create_new_tab app now)
unfolding create_new_tab new_tab_from_shell
create_new_tab-IsValidApp app now v =
    let committed = commit_query_history_if_needed app true now in
    let c = commit-HasFew app true now (IsValidApp-HasFew app v) in
    let counted = record committed { next_tab_id = committed.next_tab_id + 1 } in
    let stored = store_active_tab_payload counted now in
    let h : HasFew stored =
      store-HasFew counted now (record { shown = c.shown; kept = c.kept; closed = c.closed }) in
    let tab = new_tab_from_shell committed.query_state committed.next_tab_id in
    load-IsValidApp
      (record stored { tabs = stored.tabs ++ (tab ∷ []); active_tab = length stored.tabs })
      (length stored.tabs)
      (record {
        shown = h.shown;
        kept = All-append FewTab stored.tabs (tab ∷ []) h.kept (c.shown, tt);
        closed = h.closed;
      })

push_closed-All :
    (closed_tabs : List ClosedTabState) (closed : ClosedTabState)
    → All FewClosed closed_tabs
    → FewClosed closed
    → All FewClosed (push_closed_tab closed_tabs closed)
unfolding push_closed_tab
push_closed-All closed_tabs closed h few =
    All-append FewClosed _ _
      (if_both (All FewClosed) (leb 25 (length closed_tabs))
        (λ _. All-drop_one FewClosed closed_tabs h) (λ _. h))
      (few, tt)

-- The tab that is taken back was closed, and so are the others.
abbrev Popped : ClosedTabState × List ClosedTabState → Type 0
Popped r = FewClosed r.0 × All FewClosed r.1

pop_closed-All :
    (closed_tabs : List ClosedTabState)
    → All FewClosed closed_tabs
    → AtMost FewClosed Popped (pop_closed_tab closed_tabs)
unfolding pop_closed_tab
pop_closed-All [] h = tt
pop_closed-All (closed ∷ closed_tabs) h =
    last_of (pop_closed_tab closed_tabs) (pop_closed-All closed_tabs h.1)
  where
    last_of :
        (r : Option (ClosedTabState × List ClosedTabState))
        → AtMost FewClosed Popped r
        → AtMost FewClosed Popped (elim r as (λ _. Option (ClosedTabState × List ClosedTabState)) [
          | none ↦ some (closed, [])
          | some (last, others) ↦ some (last, closed ∷ others)
        ])
    last_of none k = (h.0, tt)
    last_of (some (last, others)) k = (k.0, (h.0, k.1))

pub restore_recently_closed_tab-IsValidApp :
    (app : HistoryApp) (now : ℕ) → IsValidApp app → IsValidApp (restore_recently_closed_tab app now)
unfolding restore_recently_closed_tab
restore_recently_closed_tab-IsValidApp app now v =
    restored-IsValidApp (pop_closed_tab app.closed_tabs) (pop_closed-All app.closed_tabs v.closed)
  where
    restored-IsValidApp :
        (r : Option (ClosedTabState × List ClosedTabState))
        → AtMost FewClosed Popped r
        → IsValidApp (restored app now r)
    restored-IsValidApp none k = v
    restored-IsValidApp (some (closed, closed_tabs)) k =
        let left = record app { closed_tabs = closed_tabs } in
        let h =
          store-HasFew left now (record { shown = v.state.few; kept = v.tabs; closed = k.1 }) in
        load-IsValidApp _ _ (record {
          shown = h.shown;
          kept = All-insert_at FewTab _ _ (store_active_tab_payload left now).tabs k.0 h.kept;
          closed = h.closed;
        })

-- A tab that is removed leaves the shown state alone.
without-HasFew :
    (closing_active : Bool) (index : ℕ) (tab : AppTabState) (others : List AppTabState)
    (app : HistoryApp)
    → FewTab tab
    → All FewTab others
    → HasFew app
    → HasFew (without_tab closing_active index tab others app)
without-HasFew closing_active index tab others app few rest h = record {
  shown = h.shown;
  kept = rest;
  closed = push_closed-All app.closed_tabs _ h.closed few;
}

pub close_tab_index-IsValidApp :
    (app : HistoryApp) (index now : ℕ) → IsValidApp app → IsValidApp (close_tab_index app index now)
unfolding close_tab_index sync_active_tab_state
close_tab_index-IsValidApp app index now v =
    if_both IsValidApp (leb (length app.tabs) 1 || leb (length app.tabs) index) (λ _. v)
      λ _. by_active (index == app.active_tab)
  where
    by_removed :
        (closing_active : Bool) (left : HistoryApp) (r : Option (AppTabState × List AppTabState))
        → HasFew left
        → (closing_active ≡ false → IsValid left.query_state)
        → AtMost FewTab (Removed FewTab) r
        → IsValidApp (closed_from closing_active index app left now r)
    by_removed closing_active left none h shown k = v
    by_removed true left (some (tab, others)) h shown k =
        load-IsValidApp _ _ (without-HasFew true index tab others left k.0 k.1 h)
    by_removed false left (some (tab, others)) h shown k =
        let w = without-HasFew false index tab others left k.0 k.1 h in
        commit-IsValidApp _ true now
          (record { state = shown refl; tabs = w.kept; closed = w.closed })

    by_active :
        (closing_active : Bool)
        → IsValidApp (
            let left = left_before_close closing_active app now in
            closed_from closing_active index app left now (remove_at index left.tabs))
    by_active true =
        let left = store-HasFew app now (IsValidApp-HasFew app v) in
        by_removed true _ _ left (λ e. absurd (cc e)) (All-remove_at FewTab index _ left.kept)
    by_active false =
        let left = commit-IsValidApp app true now v in
        by_removed false _ _ (IsValidApp-HasFew _ left) (λ _. left.state)
          (All-remove_at FewTab index _ left.tabs)

pub move_tab-IsValidApp :
    (app : HistoryApp) (from_index to_index now : ℕ)
    → IsValidApp app
    → IsValidApp (move_tab app from_index to_index now)
unfolding move_tab sync_active_tab_state
move_tab-IsValidApp app from_index to_index now v =
    if_both IsValidApp
      (leb (length app.tabs) from_index || leb (length app.tabs) to_index || from_index == to_index)
      (λ _. v)
      λ _.
        let synced = commit-IsValidApp app true now v in
        by_active _ synced (get_elem? (commit_query_history_if_needed app true now).tabs _)
  where
    by_removed :
        (synced : HistoryApp) (active : AppTabState) (r : Option (AppTabState × List AppTabState))
        → IsValidApp synced
        → AtMost FewTab (Removed FewTab) r
        → IsValidApp (moved_to to_index synced now active r)
    by_removed synced active none s k = s
    by_removed synced active (some (moved, others)) s k = commit-IsValidApp _ true now (record {
      state = s.state;
      tabs = All-insert_at FewTab to_index moved others k.0 k.1;
      closed = s.closed;
    })

    by_active :
        (synced : HistoryApp)
        → IsValidApp synced
        → (active : Option AppTabState)
        → IsValidApp (moved_from from_index to_index synced now active)
    by_active synced s none = s
    by_active synced s (some active) =
        by_removed synced active _ s (All-remove_at FewTab from_index synced.tabs s.tabs)

pub apply_root_change_direct-IsValidApp :
    (app : HistoryApp) (is_same_root : Bool) (now : ℕ)
    → IsValidApp app
    → IsValidApp (apply_root_change_direct app is_same_root now)
unfolding apply_root_change_direct sync_active_tab_state finish_tab_payload_load
    reset_history_search reset_query_history_navigation
apply_root_change_direct-IsValidApp app is_same_root now v =
    if_both IsValidApp is_same_root (λ _. v)
      λ _. commit-IsValidApp _ true now (record {
        state = record { few = v.state.few; selection = refl };
        tabs = v.tabs;
        closed = v.closed;
      })
