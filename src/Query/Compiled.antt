-- ===== src/Query/Compiled.antt =====
-- rust/src/query/compiled.rs: `CompiledQuery`; and `has_visible_match` of rust/src/query.rs.
pub mod Total
use flist_walker.Prelude.{
  Bool, true, false, ◌&&◌, ◌||◌, not, Option, none, some, List, [], ◌∷◌, ◌++◌, map, is_empty, any,
  all, filter_map, flat_map, Result, ◌>>=◌, try_map, ok, err, if◌then◌else◌,
}
use flist_walker.Text.{Text, trim, codes, join}
use flist_walker.Paths.{FilePath, file_name, normalize_windows_path, display_path_with_mode}
use flist_walker.Query.Parse.{
  include_alternatives, split_anchor, parse_include_alternative, QuerySpec, parse_query,
  token_uses_regex_syntax,
}
use flist_walker.Query.Regex.{RegexEngine}
use flist_walker.Query.Pattern.{
  LiteralPattern, AlternativeSet, ExactTermMatcher, normalize_text, compile_literal_pattern,
  compile_alternative_set, compile_raw_alternative_set, compile_non_exact_alternative_set,
  compile_exact_term_matchers,
}
use flist_walker.Query.Candidate.{QueryScope, PreparedCandidate, from_path}
use flist_walker.Query.Match.{
  matches_anchored_literal, matches_alternative_set, matches_exact_term, matches_include_literal,
}

pub record QueryOptions : Type 0 where
  pub use_regex : Bool
  pub ignore_case : Bool

pub record IncludeAlternative : Type 0 where
  pub exact : Bool
  pub literal : LiteralPattern

abbrev pub include_alternative : Bool → Bool × Text → Option IncludeAlternative
include_alternative ignore_case (exact, candidate) =
    elim (compile_literal_pattern candidate ignore_case) [
      | none ↦ none
      | some literal ↦ some (record { exact = exact; literal = literal })
    ]

-- The alternatives of an include term that is no regular expression.
unfoldable pub compile_alternatives : Text → Bool → List IncludeAlternative
unfolding include_alternatives parse_include_alternative compile_literal_pattern
compile_alternatives term ignore_case =
    filter_map (include_alternative ignore_case)
      (filter_map parse_include_alternative (include_alternatives term))

unfoldable pub matches_include_alternative : IncludeAlternative → Text → Text → Bool
unfolding matches_anchored_literal matches_include_literal
matches_include_alternative alternative name full =
    if alternative.exact
    then matches_anchored_literal alternative.literal name
      || matches_anchored_literal alternative.literal full
    else matches_include_literal alternative.literal name full

-- What the loop of `CompiledQuery::compile` pushes for a term to `include_literal_bonus_terms`.
unfoldable pub literal_bonus_set : Bool → Text → Option AlternativeSet
unfolding compile_non_exact_alternative_set
literal_bonus_set ignore_case term =
    let set = compile_non_exact_alternative_set term ignore_case in
    if is_empty set.alternatives then none else some set

-- What it pushes to `include_exact_bonus_terms` for an alternative.
unfoldable pub exact_bonus_pattern : Bool → Text → Option LiteralPattern
unfolding parse_include_alternative split_anchor compile_literal_pattern
exact_bonus_pattern ignore_case candidate = elim (parse_include_alternative candidate) [
  | none ↦ none
  | some (exact, parsed) ↦
      if not exact
      then none
      else let (_, _, core) = split_anchor parsed in compile_literal_pattern core ignore_case
]

unfoldable pub score_term : Bool → Text → Option Text
unfolding parse_include_alternative split_anchor normalize_text
score_term ignore_case term = elim (parse_include_alternative term) [
  | none ↦ none
  | some (_, candidate) ↦
      let (_, _, core) = split_anchor candidate in
      if is_empty core then none else some (normalize_text core ignore_case)
]

abbrev first_term : List Text → Bool → Text
unfolding normalize_text
first_term [] ignore_case = []
first_term (term ∷ _) ignore_case = normalize_text term ignore_case

unfoldable pub build_score_query : List Text → List Text → Bool → Text
unfolding include_alternatives score_term normalize_text
build_score_query include_terms exact_terms ignore_case =
    let score_query =
      join b' '
        (filter_map (score_term ignore_case) (flat_map include_alternatives include_terms)) in
    if is_empty score_query then first_term exact_terms ignore_case else score_query

module _ (engine : RegexEngine) where
  open engine use {Regex, build, is_match}

  pub data IncludeMatcher : Type 0 where
    regex : Regex → IncludeMatcher
    alternatives : List IncludeAlternative → IncludeMatcher

  pub record CompiledQuery : Type 0 where
    pub exact_terms : List ExactTermMatcher
    pub exclude_terms : List AlternativeSet
    pub include_terms : List IncludeMatcher
    pub include_literal_bonus_terms : List AlternativeSet
    pub include_exact_bonus_terms : List LiteralPattern
    pub score_query : Text
    pub ignore_case : Bool

  -- `map(IncludeMatcher::Regex).map_err(|error| format!("invalid regex '{term}': {error}"))`
  abbrev pub as_regex : Text → Result Regex Text → Result IncludeMatcher Text
  as_regex term (ok r) = ok (regex r)
  as_regex term (err error) = err (codes "invalid regex '" ++ (term ++ (codes "': " ++ error)))

  unfoldable pub compile_include_matcher : Bool → Bool → Text → Result IncludeMatcher Text
  unfolding token_uses_regex_syntax compile_alternatives
  compile_include_matcher use_regex ignore_case term =
      if use_regex && token_uses_regex_syntax term
      then as_regex term (build term ignore_case)
      else ok (alternatives (compile_alternatives term ignore_case))

  -- `CompiledQuery::compile` behind `parse_query`. The three vectors of its loop are filled one
  -- after the other.
  unfoldable pub compile_spec : QuerySpec → QueryOptions → Result CompiledQuery Text
  unfolding compile_exact_term_matchers compile_alternative_set compile_include_matcher
      literal_bonus_set exact_bonus_pattern include_alternatives build_score_query
  compile_spec spec options = do
    include_terms ←
        try_map (compile_include_matcher options.use_regex options.ignore_case) spec.include_terms
    ok (record {
      exact_terms = compile_exact_term_matchers spec.exact_terms options.ignore_case;
      exclude_terms =
          map (λ term. compile_alternative_set term options.ignore_case) spec.exclude_terms;
      include_terms = include_terms;
      include_literal_bonus_terms =
          if options.use_regex
          then []
          else filter_map (literal_bonus_set options.ignore_case) spec.include_terms;
      include_exact_bonus_terms =
          if options.use_regex
          then []
          else filter_map (exact_bonus_pattern options.ignore_case)
              (flat_map include_alternatives spec.include_terms);
      score_query = build_score_query spec.include_terms spec.exact_terms options.ignore_case;
      ignore_case = options.ignore_case;
    })

  unfoldable pub compile : Text → QueryOptions → Result CompiledQuery Text
  unfolding parse_query compile_spec
  compile query options = compile_spec (parse_query query) options

  unfoldable pub matches_include_matcher : IncludeMatcher → Text → Text → Bool
  unfolding matches_include_alternative
  matches_include_matcher (regex r) name full = is_match r name || is_match r full
  matches_include_matcher (alternatives alts) name full =
      any (λ alternative. matches_include_alternative alternative name full) alts

  unfoldable pub matches_positive_terms : CompiledQuery → PreparedCandidate → Bool
  unfolding matches_exact_term matches_include_matcher
  matches_positive_terms compiled candidate =
      all (λ term. matches_exact_term term candidate.name candidate.full) compiled.exact_terms
      && all (λ matcher. matches_include_matcher matcher candidate.name candidate.full)
          compiled.include_terms

  unfoldable pub matches_compiled_query : CompiledQuery → PreparedCandidate → Bool
  unfolding matches_alternative_set matches_positive_terms
  matches_compiled_query compiled candidate =
      not (
        any (λ term. matches_alternative_set term candidate.name candidate.full)
          compiled.exclude_terms)
      && matches_positive_terms compiled candidate

  -- `CompiledQuery::prepare_candidate`
  unfoldable pub prepare_candidate :
      CompiledQuery → FilePath → Option FilePath → Bool → PreparedCandidate
  unfolding from_path
  prepare_candidate compiled path root prefer_relative = from_path path (record {
    root = root;
    prefer_relative = prefer_relative;
    ignore_case = compiled.ignore_case;
  })

  unfoldable pub has_positive_terms : CompiledQuery → Bool
  has_positive_terms compiled =
      not (is_empty compiled.exact_terms) || not (is_empty compiled.include_terms)

  unfoldable pub has_visible_match : FilePath → FilePath → Text → Bool → Bool → Bool
  unfolding trim compile prepare_candidate matches_positive_terms
  has_visible_match path root query prefer_relative ignore_case =
      if is_empty (trim query)
      then true
      else elim (compile query (record { use_regex = false; ignore_case = ignore_case })) [
        | err _ ↦ false
        | ok compiled ↦
            matches_positive_terms compiled
              (prepare_candidate compiled path (some root) prefer_relative)
      ]
