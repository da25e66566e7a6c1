-- ===== src/Query/Pattern.antt =====
-- rust/src/query/compiled.rs: terms compiled to literal patterns.
use flist_walker.Prelude.{
  ℕ, ◌+◌, Bool, false, ◌&&◌, not, Option, none, some, List, [], ◌∷◌, map, is_empty, filter_map,
  if◌then◌else◌,
}
use flist_walker.Text.{Text, text_eq, text_ltb, to_ascii_lowercase, first, last}
use flist_walker.Query.Parse.{include_alternatives, split_anchor, parse_include_alternative}

-- `core` and `core_chars` hold the same characters, as a `String` and as a `Vec<char>`.
pub record LiteralPattern : Type 0 where
  pub anchored_start : Bool
  pub anchored_end : Bool
  pub core : Text
  pub core_chars : List ℕ
  pub first_char : Option ℕ
  pub last_char : Option ℕ

pub record AlternativeSet : Type 0 where
  pub alternatives : List LiteralPattern

pub record ExactTermMatcher : Type 0 where
  pub set : AlternativeSet
  pub required_unanchored_count : ℕ

unfoldable pub normalize_text : Text → Bool → Text
unfolding to_ascii_lowercase
normalize_text text ignore_case = if ignore_case then to_ascii_lowercase text else text

unfoldable pub compile_literal_pattern : Text → Bool → Option LiteralPattern
unfolding normalize_text split_anchor
compile_literal_pattern term ignore_case =
    let normalized = normalize_text term ignore_case in
    let (anchored_start, anchored_end, core) = split_anchor normalized in
    if is_empty core
    then none
    else some (record {
      anchored_start = anchored_start;
      anchored_end = anchored_end;
      core = core;
      core_chars = core;
      first_char = first core;
      last_char = last core;
    })

abbrev parsed_value : Text → Option Text
unfolding parse_include_alternative
parsed_value candidate = elim (parse_include_alternative candidate) [
  | none ↦ none
  | some (_, value) ↦ some value
]

unfoldable pub compile_alternative_set : Text → Bool → AlternativeSet
unfolding normalize_text include_alternatives parse_include_alternative compile_literal_pattern
compile_alternative_set term ignore_case =
    let normalized = normalize_text term ignore_case in
    record {
      alternatives =
          filter_map (λ candidate. compile_literal_pattern candidate ignore_case)
            (filter_map parsed_value (include_alternatives normalized));
    }

unfoldable pub compile_raw_alternative_set : Text → Bool → AlternativeSet
unfolding normalize_text include_alternatives compile_literal_pattern
compile_raw_alternative_set term ignore_case =
    let normalized = normalize_text term ignore_case in
    record {
      alternatives =
          filter_map (λ candidate. compile_literal_pattern candidate ignore_case)
            (include_alternatives normalized);
    }

abbrev compile_if_not_exact : Bool → Bool × Text → Option LiteralPattern
unfolding compile_literal_pattern
compile_if_not_exact ignore_case (exact, candidate) =
    if not exact then compile_literal_pattern candidate ignore_case else none

unfoldable pub compile_non_exact_alternative_set : Text → Bool → AlternativeSet
unfolding normalize_text include_alternatives parse_include_alternative compile_literal_pattern
compile_non_exact_alternative_set term ignore_case =
    let normalized = normalize_text term ignore_case in
    record {
      alternatives =
          filter_map (compile_if_not_exact ignore_case)
            (filter_map parse_include_alternative (include_alternatives normalized));
    }

-- `*counts.entry(term).or_default() += 1` on a `BTreeMap`, kept as a list in the order of its keys.
unfoldable pub count_term : Text → List (Text × ℕ) → List (Text × ℕ)
unfolding text_eq text_ltb
count_term term [] = (term, 1) ∷ []
count_term term ((key, n) ∷ counts) =
    let rest = count_term term counts in
    if text_eq term key
    then (key, n + 1) ∷ counts
    else if text_ltb term key
    then (term, 1) ∷ (key, n) ∷ counts
    else (key, n) ∷ rest

unfoldable pub count_terms : List (Text × ℕ) → List Text → List (Text × ℕ)
unfolding count_term
count_terms counts [] = counts
count_terms counts (term ∷ terms) = count_terms (count_term term counts) terms

abbrev is_unanchored : List LiteralPattern → Bool
is_unanchored [] = false
is_unanchored (pattern ∷ _) = not pattern.anchored_start && not pattern.anchored_end

unfoldable pub exact_term_matcher : Bool → Text × ℕ → ExactTermMatcher
unfolding compile_alternative_set
exact_term_matcher ignore_case (term, count) =
    let set = compile_alternative_set term ignore_case in
    record {
      set = set;
      required_unanchored_count = if is_unanchored set.alternatives then count else 1;
    }

unfoldable pub compile_exact_term_matchers : List Text → Bool → List ExactTermMatcher
unfolding count_terms exact_term_matcher
compile_exact_term_matchers terms ignore_case =
    map (exact_term_matcher ignore_case) (count_terms [] terms)
