-- ===== src/App/History/Valid.antt =====
-- Each operation on the query and its history keeps the bound of the history, and the selection
-- inside the results.
use flist_walker.Prelude.{
  ℕ, ◌-◌, ◌≤◌, ◌<◌, ◌≡◌, refl, Bool, false, ◌||◌, not, Option, none, some, List, [], ◌∷◌, ◌++◌,
  arith, ℤ, pos, negsuc, length, is_empty, ltb, if◌then◌else◌, if_both,
}
use flist_walker.Text.{Text, trim}
use flist_walker.App.QueryState.{
  QueryState, reset_query_history_navigation, begin_history_search, reset_history_search,
  restore_original_history_search_query, accept_history_search_selection,
  replace_history_search_results, clear_history_search_results, selected_result,
  move_history_search_selection, moved_selection,
}
use flist_walker.App.History.{
  must_wait, is_shared_change, HistoryApp, query_history_max, drop_oldest, ends_in,
  push_query_history, refresh_history_search_results, commit_query_history_if_needed,
  sync_shared_query_history_to_tabs, must_wait, is_shared_change,
}

abbrev pub Few : List Text → Type 0
Few history = length history ≤ query_history_max

drop_oldest-Few : (history : List Text) → Few (drop_oldest history)
unfolding drop_oldest
drop_oldest-Few [] = omega arith
drop_oldest-Few (oldest ∷ history) =
    if_both Few (ltb query_history_max (length (oldest ∷ history))) (λ _. drop_oldest-Few history)
      fits
  where
    fits :
        ltb query_history_max (length (oldest ∷ history)) ≡ false
        → length (oldest ∷ history) ≤ query_history_max
    fits h = ground arith

pub push_query_history-Few :
    (history : List Text) (query : Text) → Few history → Few (push_query_history history query)
unfolding push_query_history
push_query_history-Few history query few =
    if_both Few (is_empty (trim query)) (λ _. few)
      λ _.
        if_both Few (ends_in history (trim query)) (λ _. few)
          λ _. drop_oldest-Few (history ++ (trim query ∷ []))

-- The selection is an index into the results, and there is none exactly when there are no results.
abbrev pub Selects : Option ℕ → List Text → Type 0
Selects none results = results ≡ []
Selects (some index) results = index < length results

pub record IsValid (s : QueryState) : Type 0 where
  pub few : length s.query_history ≤ query_history_max
  pub selection : Selects s.history_search_current s.history_search_results

replaced_Selects :
    (results : List Text) → Selects (if not (is_empty results) then some 0 else none) results
replaced_Selects [] = refl
replaced_Selects (entry ∷ results) = omega arith

moved_selection-le :
    (current : ℕ) (delta : ℤ) (last : ℕ) → moved_selection current delta last ≤ last
unfolding moved_selection
moved_selection-le current (pos n) last = omega arith
moved_selection-le current (negsuc n) last = omega arith

pos_of_some : (results : List Text) → is_empty results ≡ false → 0 < length results
pos_of_some [] h = absurd (cc)
pos_of_some (entry ∷ results) h = omega arith

pub move-IsValid :
    (s : QueryState) (delta : ℤ) → IsValid s → IsValid (move_history_search_selection s delta)
unfolding move_history_search_selection
move-IsValid s delta v =
    if_both IsValid (not s.history_search_active || is_empty s.history_search_results) (λ _. v)
      λ h. record {
        few = v.few;
        selection =
            inside (pos_of_some s.history_search_results (ground arith))
              (moved_selection-le _ delta (length s.history_search_results - 1));
      }
  where
    inside : {n k : ℕ} → 0 < n → k ≤ n - 1 → k < n
    inside h l = omega arith

pub reset-IsValid : (s : QueryState) → IsValid s → IsValid (reset_history_search s)
unfolding reset_history_search
reset-IsValid s v = record { few = v.few; selection = refl }

pub restore-IsValid :
    (s : QueryState) → IsValid s → IsValid (restore_original_history_search_query s).1
unfolding restore_original_history_search_query
restore-IsValid s v =
    if_both (λ (r : Bool × QueryState). IsValid r.1) (not s.history_search_active) (λ _. v)
      λ _. record { few = v.few; selection = refl }

pub accept-IsValid : (s : QueryState) → IsValid s → IsValid (accept_history_search_selection s).1
unfolding accept_history_search_selection
accept-IsValid s v =
    if_both (λ (r : Option Text × QueryState). IsValid r.1) (not s.history_search_active) (λ _. v)
      λ _. chosen (selected_result s)
  where
    chosen :
        (r : Option Text)
        → IsValid
            (elim r as (λ _. Option Text × QueryState) [
              | none ↦ (none, s)
              | some selected ↦ (
                some selected,
                reset_history_search
                    (record (reset_query_history_navigation (record s { query = selected })) {
                      query_history_dirty_since = none;
                    }),
              )
            ]).1
    chosen none = v
    chosen (some selected) = record { few = v.few; selection = refl }

module _ (fuzzy_match : Text → Text → Option ℤ) where
  pub refresh-IsValid :
      (s : QueryState) → IsValid s → IsValid (refresh_history_search_results fuzzy_match s)
  unfolding refresh_history_search_results replace_history_search_results
      clear_history_search_results
  refresh-IsValid s v =
      if_both IsValid (not s.history_search_active) (λ _. record { few = v.few; selection = refl })
        (λ _. record { few = v.few; selection = replaced_Selects _ })

pub begin-IsValid : (s : QueryState) → IsValid s → IsValid (begin_history_search s)
unfolding begin_history_search
begin-IsValid s v = record { few = v.few; selection = v.selection }

pub commit-IsValid :
    (app : HistoryApp) (force : Bool) (now : ℕ)
    → IsValid app.query_state
    → IsValid (commit_query_history_if_needed app force now).query_state
unfolding commit_query_history_if_needed sync_shared_query_history_to_tabs
commit-IsValid app force now v =
    if_both Keeps app.ime_composition_active (λ _. v)
      λ _.
        if_both Keeps (must_wait app.query_state force now) (λ _. v)
          λ _.
            if_both Keeps
              (is_shared_change app.query_state
                (push_query_history app.query_state.query_history app.query_state.query))
              (λ _. committed) (λ _. committed)
  where
    Keeps : HistoryApp → Type 0
    Keeps a = IsValid a.query_state

    committed : IsValid (record app.query_state {
      query_history = push_query_history app.query_state.query_history app.query_state.query;
      query_history_dirty_since = none;
    })
    committed = record {
      few = push_query_history-Few app.query_state.query_history app.query_state.query v.few;
      selection = v.selection;
    }
