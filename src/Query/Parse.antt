-- ===== src/Query/Parse.antt =====
-- rust/src/query.rs: the tokens of a query, sorted into three buckets, and the syntax of a term.
pub mod Buckets
pub mod RoundTrip
use flist_walker.Prelude.{
  Bool, true, false, ◌||◌, Option, none, some, List, [], ◌∷◌, ◌++◌, is_empty, any, filter_map, ◌==◌,
  if◌then◌else◌,
}
use flist_walker.Text.{
  Text, text_eq, starts_with, ends_with, has_char, strip_prefix, strip_last, split_whitespace,
  split,
}

pub record QuerySpec : Type 0 where
  pub include_terms : List Text
  pub exact_terms : List Text
  pub exclude_terms : List Text

-- `"^'"`
abbrev pub caret_quote : Text
caret_quote = b'^' ∷ b'\'' ∷ []

abbrev pub quote : Text
quote = b'\'' ∷ []

abbrev pub bang : Text
bang = b'!' ∷ []

unfoldable pub include_alternatives : Text → List Text
unfolding split
include_alternatives term =
    if has_char b'|' term
    then (let alts = filter_map (λ s. if is_empty s then none else some s) (split b'|' term) in
        if is_empty alts then term ∷ [] else alts)
    else term ∷ []

-- `core.strip_prefix('^').unwrap_or(core)` and `core.strip_suffix('$').unwrap_or(core)`
abbrev or_whole : Option Text → Text → Text
or_whole none core = core
or_whole (some core) _ = core

unfoldable pub split_anchor : Text → Bool × Bool × Text
unfolding starts_with ends_with strip_prefix strip_last
split_anchor term =
    let anchored_start = starts_with term (b'^' ∷ []) in
    let anchored_end = ends_with term (b'$' ∷ []) in
    let core = if anchored_start then or_whole (strip_prefix term (b'^' ∷ [])) term else term in
    let core' = if anchored_end then or_whole (strip_last core b'$') core else core in
    (anchored_start, anchored_end, core')

unfoldable pub normalize_quoted_term : Text → Text
unfolding strip_prefix
normalize_quoted_term term = elim (strip_prefix term caret_quote) [
  | some stripped ↦ b'^' ∷ stripped
  | none ↦ elim (strip_prefix term quote) [ some stripped ↦ stripped | none ↦ term ]
]

-- The Boolean says that the alternative is an exact one.
unfoldable pub parse_include_alternative : Text → Option (Bool × Text)
unfolding strip_prefix
parse_include_alternative candidate =
    if is_empty candidate then none else elim (strip_prefix candidate caret_quote) [
      | some stripped ↦ if is_empty stripped then none else some (true, b'^' ∷ stripped)
      | none ↦ elim (strip_prefix candidate quote) [
        | some stripped ↦ if is_empty stripped then none else some (true, stripped)
        | none ↦ some (false, candidate)
      ]
    ]

-- One round of the loop of `parse_query`.
abbrev pub push_include : QuerySpec → Text → QuerySpec
push_include spec term = record spec { include_terms = spec.include_terms ++ (term ∷ []) }

abbrev pub push_exact : QuerySpec → Text → QuerySpec
push_exact spec term = record spec { exact_terms = spec.exact_terms ++ (term ∷ []) }

abbrev pub push_exclude : QuerySpec → Text → QuerySpec
push_exclude spec term = record spec { exclude_terms = spec.exclude_terms ++ (term ∷ []) }

unfoldable pub parse_token : QuerySpec → Text → QuerySpec
unfolding text_eq starts_with strip_prefix normalize_quoted_term
parse_token spec token =
    if is_empty token || text_eq token bang || text_eq token quote
    then spec
    else elim (strip_prefix token bang) [
      | some stripped ↦
          if is_empty stripped then spec else push_exclude spec (normalize_quoted_term stripped)
      | none ↦
          if has_char b'|' token
          then push_include spec token
          else if starts_with token quote || starts_with token caret_quote
          then (let normalized = normalize_quoted_term token in
              if is_empty normalized then spec else push_exact spec normalized)
          else push_include spec token
    ]

unfoldable pub parse_tokens : QuerySpec → List Text → QuerySpec
unfolding parse_token
parse_tokens spec [] = spec
parse_tokens spec (token ∷ tokens) = parse_tokens (parse_token spec token) tokens

abbrev pub no_terms : QuerySpec
no_terms = record { include_terms = []; exact_terms = []; exclude_terms = [] }

unfoldable pub parse_query : Text → QuerySpec
unfolding parse_tokens
parse_query query = parse_tokens no_terms (split_whitespace query)

unfoldable pub token_uses_regex_syntax : Text → Bool
token_uses_regex_syntax = any (λ ch.
    ch == b'.'
    || ch == b'*'
    || ch == b'+'
    || ch == b'?'
    || ch == b'('
    || ch == b')'
    || ch == b'['
    || ch == b']'
    || ch == b'{'
    || ch == b'}'
    || ch == b'\\')
