-- ===== src/Query/Spans.antt =====
-- rust/src/query/compiled.rs: the characters of a candidate that a query highlights.
pub mod Positions
pub mod Bounds
pub mod Visible
use flist_walker.Prelude.{
  ℕ, zero, suc, ◌+◌, ◌-◌, Bool, true, false, ◌&&◌, ◌||◌, not, Option, none, some, List, [], ◌∷◌,
  ◌++◌, map, length, is_empty, find_first, ltb, ◌==◌, if◌then◌else◌,
}
use flist_walker.Text.{Text, len_utf8, lower_char, first, last}
use flist_walker.Query.Regex.{RegexEngine}
use flist_walker.Query.Pattern.{LiteralPattern, ExactTermMatcher}
use flist_walker.Query.Match.{matches_anchored_literal, some_and}
use flist_walker.Query.Candidate.{PreparedCandidate}
use flist_walker.Query.Compiled.{
  CompiledQuery, IncludeMatcher, regex, alternatives, matches_include_alternative,
}

abbrev is_ascii : ℕ → Bool
is_ascii c = ltb c 128

unfoldable pub chars_equal : ℕ → ℕ → Bool → Bool
unfolding lower_char
chars_equal left right ignore_case =
    if ignore_case && is_ascii left && is_ascii right
    then lower_char left == lower_char right
    else left == right

-- The core stands at the front of the text.
unfoldable pub chars_at_front : Text → Text → Bool → Bool
unfolding chars_equal
chars_at_front text [] ignore_case = true
chars_at_front [] (query ∷ core) ignore_case = false
chars_at_front (c ∷ text) (query ∷ core) ignore_case =
    chars_equal c query ignore_case && chars_at_front text core ignore_case

-- `start..start + n` as a vector
abbrev pub range_from : ℕ → ℕ → List ℕ
range_from start zero = []
range_from start (suc n) = start ∷ range_from (start + 1) n

-- The loop over `start`: `text` is what is left of the text there. `fits` is the anchors' test of a
-- start; the positions of the first start that passes are returned.
unfoldable pub literal_positions : (ℕ → Bool) → ℕ → Text → Text → Bool → Option (List ℕ)
unfolding chars_at_front
literal_positions fits start [] core ignore_case =
    if chars_at_front [] core ignore_case && fits start
    then some (range_from start (length core))
    else none
literal_positions fits start (c ∷ text) core ignore_case =
    let rest = literal_positions fits (start + 1) text core ignore_case in
    if chars_at_front (c ∷ text) core ignore_case && fits start
    then some (range_from start (length core))
    else rest

abbrev or_nothing : Option (List ℕ) → List ℕ
or_nothing none = []
or_nothing (some positions) = positions

unfoldable pub exact_positions : Text → LiteralPattern → Bool → List ℕ
unfolding literal_positions
exact_positions text pattern ignore_case =
    if is_empty pattern.core || ltb (length text) (length pattern.core)
    then []
    else or_nothing (
        literal_positions
          (λ start.
            not (pattern.anchored_start && not (start == 0))
            && not (pattern.anchored_end && not (start + length pattern.core == length text)))
          0 text pattern.core ignore_case)

-- The last loop of `fuzzy_positions`: the positions taken, and the part of the query left over.
unfoldable pub scatter_positions : ℕ → Text → Text → Bool → List ℕ × Text
unfolding chars_equal
scatter_positions index [] query ignore_case = ([], query)
scatter_positions index (c ∷ text) [] ignore_case = ([], [])
scatter_positions index (c ∷ text) (d ∷ query) ignore_case =
    let taken = scatter_positions (index + 1) text query ignore_case in
    let passed = scatter_positions (index + 1) text (d ∷ query) ignore_case in
    if chars_equal c d ignore_case then (index ∷ taken.0, taken.1) else passed

-- The guards of `fuzzy_positions`: an anchored end of the pattern is not the text's.
abbrev pub start_differs : Text → LiteralPattern → Bool → Bool
unfolding chars_equal
start_differs text pattern ignore_case =
    pattern.anchored_start
    && not (
        some_and (first pattern.core)
          (λ c. some_and (first text) (λ value. chars_equal value c ignore_case)))

abbrev pub end_differs : Text → LiteralPattern → Bool → Bool
unfolding chars_equal
end_differs text pattern ignore_case =
    pattern.anchored_end
    && not (
        some_and (last pattern.core)
          (λ c. some_and (last text) (λ value. chars_equal value c ignore_case)))

abbrev pub scattered_hits : Text → Text → Bool → List ℕ
unfolding scatter_positions
scattered_hits text core ignore_case =
    let (positions, left) = scatter_positions 0 text core ignore_case in
    if is_empty left then positions else []

unfoldable pub fuzzy_positions : Text → LiteralPattern → Bool → List ℕ
unfolding start_differs end_differs literal_positions scattered_hits
fuzzy_positions text pattern ignore_case =
    if start_differs text pattern ignore_case
    then []
    else if end_differs text pattern ignore_case
    then []
    else elim (literal_positions (λ start. true) 0 text pattern.core ignore_case) [
      | some positions ↦ positions
      | none ↦ scattered_hits text pattern.core ignore_case
    ]

-- `text[..end].chars().count()`, for an offset in bytes
unfoldable pub chars_before : ℕ → Text → ℕ
unfolding len_utf8
chars_before end [] = 0
chars_before end (c ∷ text) =
    let rest = chars_before (end - len_utf8 c) text in if end == 0 then 0 else suc rest

unfoldable pub regex_positions : List (ℕ × ℕ) → Text → List ℕ
unfolding chars_before
regex_positions [] text = []
regex_positions ((start, end) ∷ matches) text =
    let rest = regex_positions matches text in
    let before = chars_before start text in
    if start == end then rest else range_from before (chars_before end text - before) ++ rest

-- `BTreeSet::insert`, and `extend` by a vector
unfoldable pub insert : ℕ → List ℕ → List ℕ
insert a [] = a ∷ []
insert a (b ∷ set) =
    let rest = insert a set in if ltb a b then a ∷ b ∷ set else if a == b then b ∷ set else b ∷ rest

unfoldable pub extend : List ℕ → List ℕ → List ℕ
unfolding insert
extend set [] = set
extend set (a ∷ positions) = extend (insert a set) positions

unfoldable pub add_pattern_positions :
    List ℕ → PreparedCandidate → LiteralPattern → Bool → Bool → List ℕ
unfolding exact_positions fuzzy_positions extend
add_pattern_positions spans candidate pattern exact ignore_case =
    let hits = λ (text : Text).
      (if exact
        then exact_positions text pattern ignore_case
        else fuzzy_positions text pattern ignore_case) in
    let filename_hits = hits candidate.filename in
    if not (is_empty filename_hits)
    then extend spans (map (λ position. candidate.filename_start + position) filename_hits)
    else extend spans (hits candidate.visible)

unfoldable pub exact_term_spans : Bool → PreparedCandidate → List ℕ → ExactTermMatcher → List ℕ
unfolding add_pattern_positions matches_anchored_literal
exact_term_spans ignore_case candidate spans term =
    elim (find_first
      (λ pattern.
        matches_anchored_literal pattern candidate.name
        || matches_anchored_literal pattern candidate.full)
      term.set.alternatives) [
        | none ↦ spans
        | some pattern ↦ add_pattern_positions spans candidate pattern true ignore_case
      ]

-- `for item in items { step(&mut spans, item) }`
abbrev pub extend_all {ℓ} : {A : Type ℓ} → (List ℕ → A → List ℕ) → List ℕ → List A → List ℕ
extend_all step spans [] = spans
extend_all step spans (x ∷ xs) = extend_all step (step spans x) xs

module _ (engine : RegexEngine) where
  unfoldable pub include_spans : Bool → PreparedCandidate → List ℕ → IncludeMatcher engine → List ℕ
  unfolding regex_positions add_pattern_positions matches_include_alternative extend
  include_spans ignore_case candidate spans (regex r) =
      let filename_hits =
        regex_positions (engine.find_iter r candidate.filename) candidate.filename in
      if is_empty filename_hits
      then extend spans (regex_positions (engine.find_iter r candidate.visible) candidate.visible)
      else extend spans (map (λ position. candidate.filename_start + position) filename_hits)
  include_spans ignore_case candidate spans (alternatives alts) =
      elim (find_first
        (λ alternative. matches_include_alternative alternative candidate.name candidate.full)
        alts) [
          | none ↦ spans
          | some alternative ↦
              add_pattern_positions spans candidate alternative.literal alternative.exact
                ignore_case
        ]

  unfoldable pub collect_spans : CompiledQuery engine → PreparedCandidate → List ℕ
  unfolding exact_term_spans include_spans
  collect_spans compiled candidate =
      extend_all (include_spans compiled.ignore_case candidate)
        (extend_all (exact_term_spans compiled.ignore_case candidate) [] compiled.exact_terms)
        compiled.include_terms
