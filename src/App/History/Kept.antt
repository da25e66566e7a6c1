-- ===== src/App/History/Kept.antt =====
-- Which queries the history keeps.
use flist_walker.Prelude.{
  suc, ◌-◌, ◌≡◌, refl, ap, ◌∙◌, inl, inr, true, false, List, [], ◌∷◌, ◌++◌, arith, length, drop,
  is_empty, length-append, ltb, Bool-cases, if_both,
}
use flist_walker.Text.{Text, trim}
use flist_walker.App.History.{query_history_max, drop_oldest, ends_in, push_query_history}

drop_oldest_lem :
    (history : List Text) → drop_oldest history ≡ drop (length history - query_history_max) history
unfolding drop_oldest
drop_oldest_lem [] = refl
drop_oldest_lem (oldest ∷ history) =
    elim (Bool-cases (ltb query_history_max (length (oldest ∷ history)))) [
      | inl over ↦
          let more : length (oldest ∷ history) - query_history_max
              ≡ suc (length history - query_history_max) =
            ground (arith, over) in
          rw (over, drop_oldest, more) (drop_oldest_lem history)
      | inr fits ↦
          let none_over : length (oldest ∷ history) - query_history_max ≡ 0 =
            ground (arith, fits) in
          rw (fits, drop_oldest, none_over) refl
    ]

-- A blank query, and one that is the last entry, leave the history alone; any other is put at its
-- end, trimmed, and of the result the newest 100 entries are kept.
pub push_query_history_lem :
    (history : List Text) (query : Text)
    → (is_empty (trim query) ≡ true → push_query_history history query ≡ history)
      × (ends_in history (trim query) ≡ true → push_query_history history query ≡ history)
      × (is_empty (trim query) ≡ false
          → ends_in history (trim query) ≡ false
          → push_query_history history query
            ≡ drop (suc (length history) - query_history_max) (history ++ (trim query ∷ [])))
unfolding push_query_history
push_query_history_lem history query = (
  λ blank. rw blank refl,
  λ last. if_both (λ h. h ≡ history) (is_empty (trim query)) (λ _. refl) (λ _. rw last refl),
  λ written other.
      rw (written, other)
        (drop_oldest_lem (history ++ (trim query ∷ []))
          ∙ ap (λ n. drop (n - query_history_max) (history ++ (trim query ∷ [])))
              (omega (arith, length-append history (trim query ∷ [])))),
)
