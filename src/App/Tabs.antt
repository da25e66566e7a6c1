-- ===== src/App/Tabs.antt =====
-- rust/src/app/tabs.rs: how the shown query state moves between the tabs.
pub mod Keeps
pub mod Switches
use flist_walker.Prelude.{
  ℕ, zero, suc, ◌+◌, ◌-◌, ◌*◌, ◌/◌, ◌%◌, ◌^◌, ◌≤◌, ◌<◌, min, max, ◌≡◌, refl, sym, ap, ap₂, ◌∙◌,
  subst, ◌≢◌, ◌↔◌, ◌⊎◌, inl, inr, Bool, true, false, ◌&&◌, ◌||◌, not, Option, none, some, List, [],
  ◌∷◌, ◌++◌, map, append_assoc, append-nil, arith, ℤ, compare_int, pos, negsuc, length, get_elem?,
  take, drop, is_empty, any, all, find_first, All, Member, length-append, length-take, length-drop,
  drop-append, any-append, filter_map, flat_map, length-map, drop-append_le, drop_of_get_elem?,
  get_elem?-eq-some_lt, get_elem?-eq-none_le, get_elem?_total, nil_of_length, here, there, Result,
  ◌>>=◌, try_map, ok, err, ltb, leb, ◌==◌, if◌then◌else◌, ltb→lt, lt→ltb, leb→le, le→leb, ==_iff,
  tests, Bool-cases, Option-cases, &&-eq-true, ||-eq-true, Bool-eq_of_iff, some_inj, if_both,
}
use flist_walker.Search.Cache.{remove_at}
use flist_walker.App.QueryState.{QueryState, reset_query_history_navigation, reset_history_search}
use flist_walker.App.TabState.{AppTabState, ClosedTabState, swap_shell, new_tab_from_shell}
use flist_walker.App.History.{HistoryApp, with_state, commit_query_history_if_needed}

module _ {A : Type 0} where
  -- The element that is taken out and put back is changed in between.
  unfoldable pub set_at : ℕ → A → List A → List A
  set_at index x [] = []
  set_at zero x (_ ∷ xs) = x ∷ xs
  set_at (suc index) x (y ∷ xs) = y ∷ set_at index x xs

  -- `Vec::insert`, which panics behind the end: no caller goes there.
  unfoldable pub insert_at : ℕ → A → List A → List A
  insert_at index x [] = x ∷ []
  insert_at zero x (y ∷ xs) = x ∷ y ∷ xs
  insert_at (suc index) x (y ∷ xs) = y ∷ insert_at index x xs

-- The slot of a tab exchanges its query state with the shown one.
abbrev pub exchanged : ℕ → HistoryApp → Option AppTabState → HistoryApp
exchanged index app none = app
exchanged index app (some slot) =
    let (saved, shown) = swap_shell slot.query_state app.query_state in
    record app {
      query_state = shown;
      tabs = set_at index (record slot { query_state = saved }) app.tabs;
    }

unfoldable pub swap_payload : ℕ → HistoryApp → HistoryApp
swap_payload index app = exchanged index app (get_elem? app.tabs index)

unfoldable pub finish_tab_payload_load : QueryState → QueryState
finish_tab_payload_load s =
    reset_history_search
      (record (reset_query_history_navigation s) { query_history_dirty_since = none })

-- `sync_active_tab_state`; the other fields of the slot are no part of the model.
unfoldable pub sync_active_tab_state : HistoryApp → ℕ → HistoryApp
sync_active_tab_state app now = commit_query_history_if_needed app true now

unfoldable pub store_active_tab_payload : HistoryApp → ℕ → HistoryApp
store_active_tab_payload app now =
    let committed = commit_query_history_if_needed app true now in
    swap_payload committed.active_tab committed

unfoldable pub load_tab_payload : HistoryApp → ℕ → HistoryApp
load_tab_payload app index =
    let loaded = swap_payload index app in
    with_state loaded (finish_tab_payload_load loaded.query_state)

unfoldable pub switch_to_tab_index : HistoryApp → ℕ → ℕ → HistoryApp
switch_to_tab_index app next_index now =
    if leb (length app.tabs) next_index || next_index == app.active_tab
    then app
    else load_tab_payload (record (store_active_tab_payload app now) { active_tab = next_index })
        next_index

unfoldable pub create_new_tab : HistoryApp → ℕ → HistoryApp
create_new_tab app now =
    let committed = commit_query_history_if_needed app true now in
    let tab = new_tab_from_shell committed.query_state committed.next_tab_id in
    let stored =
      store_active_tab_payload (record committed { next_tab_id = committed.next_tab_id + 1 }) now in
    load_tab_payload
      (record stored { tabs = stored.tabs ++ (tab ∷ []); active_tab = length stored.tabs })
      (length stored.tabs)

abbrev closed_tab_restore_limit : ℕ
closed_tab_restore_limit = 25

unfoldable pub push_closed_tab : List ClosedTabState → ClosedTabState → List ClosedTabState
push_closed_tab closed_tabs closed =
    (if leb closed_tab_restore_limit (length closed_tabs) then drop 1 closed_tabs else closed_tabs)
    ++ (closed ∷ [])

-- `Vec::pop`
unfoldable pub pop_closed_tab : List ClosedTabState → Option (ClosedTabState × List ClosedTabState)
pop_closed_tab [] = none
pop_closed_tab (closed ∷ closed_tabs) = elim (pop_closed_tab closed_tabs) [
  | none ↦ some (closed, [])
  | some (last, others) ↦ some (last, closed ∷ others)
]

-- The tabs without the closed one, and the index of the active one among them.
abbrev pub without_tab : Bool → ℕ → AppTabState → List AppTabState → HistoryApp → HistoryApp
without_tab closing_active index tab others app =
    let shifted =
      if not closing_active && ltb index app.active_tab
      then app.active_tab - 1
      else app.active_tab in
    record app {
      tabs = others;
      closed_tabs = push_closed_tab app.closed_tabs (record { tab = tab; original_index = index });
      active_tab =
          if closing_active || leb (length others) shifted
          then min index (length others - 1)
          else shifted;
    }

-- The end of `close_tab_index`, when the tab is out. It is always there: `Vec::remove` would panic
-- where it is not, for which the application stands unchanged.
abbrev pub closed_from :
    Bool → ℕ → HistoryApp → HistoryApp → ℕ → Option (AppTabState × List AppTabState) → HistoryApp
closed_from closing_active index app left now none = app
closed_from closing_active index app left now (some (tab, others)) =
    let closed = without_tab closing_active index tab others left in
    if closing_active
    then load_tab_payload closed closed.active_tab
    else sync_active_tab_state closed now

abbrev pub left_before_close : Bool → HistoryApp → ℕ → HistoryApp
left_before_close closing_active app now =
    if closing_active then store_active_tab_payload app now else sync_active_tab_state app now

unfoldable pub close_tab_index : HistoryApp → ℕ → ℕ → HistoryApp
close_tab_index app index now =
    if leb (length app.tabs) 1 || leb (length app.tabs) index
    then app
    else (let closing_active = index == app.active_tab in
        let left = left_before_close closing_active app now in
        closed_from closing_active index app left now (remove_at index left.tabs))

abbrev pub restored : HistoryApp → ℕ → Option (ClosedTabState × List ClosedTabState) → HistoryApp
restored app now none = app
restored app now (some (closed, closed_tabs)) =
    let stored = store_active_tab_payload (record app { closed_tabs = closed_tabs }) now in
    let restore_index = min closed.original_index (length stored.tabs) in
    let tab = record closed.tab { id = stored.next_tab_id } in
    load_tab_payload
      (record stored {
        tabs = insert_at restore_index tab stored.tabs;
        active_tab = restore_index;
        next_tab_id = stored.next_tab_id + 1;
      })
      restore_index

unfoldable pub restore_recently_closed_tab : HistoryApp → ℕ → HistoryApp
restore_recently_closed_tab app now = restored app now (pop_closed_tab app.closed_tabs)

-- `find_tab_index_by_id`, from an index on
unfoldable pub find_tab_index_from : ℕ → ℕ → List AppTabState → Option ℕ
find_tab_index_from index id [] = none
find_tab_index_from index id (tab ∷ tabs) =
    let later = find_tab_index_from (index + 1) id tabs in
    if tab.id == id then some index else later

abbrev index_or : ℕ → Option ℕ → ℕ
index_or index none = index
index_or index (some found) = found

-- The tab that was active keeps being so, wherever it is now.
abbrev pub moved_to :
    ℕ → HistoryApp → ℕ → AppTabState → Option (AppTabState × List AppTabState) → HistoryApp
moved_to to_index app now active none = app
moved_to to_index app now active (some (moved, others)) =
    let tabs = insert_at to_index moved others in
    sync_active_tab_state
      (record app {
        tabs = tabs;
        active_tab = index_or app.active_tab (find_tab_index_from 0 active.id tabs);
      })
      now

abbrev pub moved_from : ℕ → ℕ → HistoryApp → ℕ → Option AppTabState → HistoryApp
moved_from from_index to_index app now none = app
moved_from from_index to_index app now (some active) =
    moved_to to_index app now active (remove_at from_index app.tabs)

unfoldable pub move_tab : HistoryApp → ℕ → ℕ → ℕ → HistoryApp
move_tab app from_index to_index now =
    if leb (length app.tabs) from_index || leb (length app.tabs) to_index || from_index == to_index
    then app
    else (let synced = sync_active_tab_state app now in
        moved_from from_index to_index synced now (get_elem? synced.tabs synced.active_tab))

-- The changes of the query state in `apply_root_change_direct`; the test is whether the new root
-- has the key of the old one.
unfoldable pub apply_root_change_direct : HistoryApp → Bool → ℕ → HistoryApp
apply_root_change_direct app is_same_root now =
    if is_same_root
    then app
    else sync_active_tab_state (with_state app (finish_tab_payload_load app.query_state)) now
