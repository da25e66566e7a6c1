-- ===== src/Query/Match.antt =====
-- rust/src/query/compiled.rs: when a pattern matches a text, and a term a candidate.
pub mod Literal
pub mod Loop
use flist_walker.Prelude.{
  ℕ, zero, suc, ◌+◌, ◌-◌, ◌*◌, ◌/◌, ◌%◌, ◌^◌, ◌≤◌, ◌<◌, min, max, ◌≡◌, refl, sym, ap, ap₂, ◌∙◌,
  subst, ◌≢◌, ◌↔◌, ◌⊎◌, inl, inr, Bool, true, false, ◌&&◌, ◌||◌, not, Option, none, some, List, [],
  ◌∷◌, ◌++◌, map, append_assoc, append-nil, arith, ℤ, compare_int, pos, negsuc, length, get_elem?,
  take, drop, is_empty, any, all, find_first, All, Member, length-append, length-take, length-drop,
  drop-append, any-append, filter_map, flat_map, length-map, drop-append_le, drop_of_get_elem?,
  get_elem?-eq-some_lt, get_elem?-eq-none_le, get_elem?_total, nil_of_length, here, there, Result,
  ◌>>=◌, try_map, ok, err, ltb, leb, ◌==◌, if◌then◌else◌, ltb→lt, lt→ltb, leb→le, le→leb, ==_iff,
  tests, Bool-cases, Option-cases, &&-eq-true, ||-eq-true, Bool-eq_of_iff, some_inj, if_both,
}
use flist_walker.Text.{Text, text_eq, starts_with, ends_with, contains, after_find}
use flist_walker.Query.Pattern.{LiteralPattern, AlternativeSet, ExactTermMatcher}

-- The loop of `is_subsequence`; `qi` counts the characters of the query that were met.
unfoldable pub subsequence_from : List ℕ → ℕ → Text → ℕ
subsequence_from query qi [] = qi
subsequence_from query qi (ch ∷ text) =
    subsequence_from query
      (elim (get_elem? query qi) [ none ↦ qi | some d ↦ if ch == d then qi + 1 else qi ]) text

unfoldable pub is_subsequence : List ℕ → Text → Bool
unfolding subsequence_from
is_subsequence query text = subsequence_from query 0 text == length query

unfoldable pub matches_anchored_literal : LiteralPattern → Text → Bool
unfolding text_eq starts_with ends_with contains
matches_anchored_literal pattern text =
    if pattern.anchored_start && pattern.anchored_end
    then text_eq text pattern.core
    else if pattern.anchored_start
    then starts_with text pattern.core
    else if pattern.anchored_end
    then ends_with text pattern.core
    else contains text pattern.core

unfoldable pub matches_alternative_set : AlternativeSet → Text → Text → Bool
unfolding matches_anchored_literal
matches_alternative_set set name full =
    any (λ pattern. matches_anchored_literal pattern name || matches_anchored_literal pattern full)
      set.alternatives

-- The loop of `literal_occurrence_count`, on what lies behind `search_from`; each round consumes
-- the needle, so the length of the text is fuel enough.
unfoldable pub count_from : ℕ → Text → Text → ℕ
unfolding after_find
count_from zero text needle = 0
count_from (suc fuel) text needle = elim (after_find text needle) [
  | none ↦ 0
  | some rest ↦ suc (count_from fuel rest needle)
]

unfoldable pub literal_occurrence_count : Text → Text → ℕ
unfolding count_from
literal_occurrence_count text needle =
    if is_empty needle then 0 else count_from (length text) text needle

unfoldable pub matches_exact_term : ExactTermMatcher → Text → Text → Bool
unfolding matches_alternative_set literal_occurrence_count
matches_exact_term term name full =
    if leb term.required_unanchored_count 1
    then matches_alternative_set term.set name full
    else any
        (λ pattern. leb term.required_unanchored_count (
          max (literal_occurrence_count name pattern.core)
            (literal_occurrence_count full pattern.core)))
        term.set.alternatives

-- `matches!(c, Some(ch) if test(ch))`
abbrev pub some_and : Option ℕ → (ℕ → Bool) → Bool
some_and none test = false
some_and (some ch) test = test ch

unfoldable pub matches_include_literal : LiteralPattern → Text → Text → Bool
unfolding starts_with ends_with contains is_subsequence
matches_include_literal pattern name full =
    if pattern.anchored_start
      && not (
          some_and pattern.first_char
            (λ ch. starts_with name (ch ∷ []) || starts_with full (ch ∷ [])))
    then false
    else if pattern.anchored_end
        && not (
            some_and pattern.last_char (λ ch. ends_with name (ch ∷ []) || ends_with full (ch ∷ [])))
    then false
    else contains name pattern.core
      || is_subsequence pattern.core_chars name
      || contains full pattern.core
      || is_subsequence pattern.core_chars full
