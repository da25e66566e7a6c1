-- ===== src/Query/Parse/Buckets.antt =====
-- The loop of `parse_query` sorts the words of the query into buckets and keeps their order.
use flist_walker.Prelude.{
  ◌≡◌, refl, ap, ◌∙◌, true, false, ◌||◌, not, Option, none, some, List, [], ◌∷◌, ◌++◌, append_assoc,
  append-nil, arith, is_empty, filter_map, if◌then◌else◌,
}
use flist_walker.Text.{Text, split_whitespace, text_eq, starts_with, has_char, strip_prefix}
use flist_walker.Query.Parse.{
  QuerySpec, parse_tokens, no_terms, parse_query, bang, quote, caret_quote, normalize_quoted_term,
  parse_token, push_include, push_exact, push_exclude,
}

-- What a word asks for.
pub data Bucket : Type 0 where
  skipped : Bucket
  include exact exclude : Text → Bucket

unfoldable pub classify : Text → Bucket
unfolding strip_prefix starts_with normalize_quoted_term
classify word = if is_empty word then skipped else elim (strip_prefix word bang) [
  | some term ↦ if is_empty term then skipped else exclude (normalize_quoted_term term)
  | none ↦
      if has_char b'|' word || not (starts_with word quote || starts_with word caret_quote)
      then include word
      else if is_empty (normalize_quoted_term word)
      then skipped
      else exact (normalize_quoted_term word)
]

abbrev pub included : Bucket → Option Text
included (include term) = some term
included _ = none

abbrev pub exacted : Bucket → Option Text
exacted (exact term) = some term
exacted _ = none

abbrev pub excluded : Bucket → Option Text
excluded (exclude term) = some term
excluded _ = none

abbrev put : QuerySpec → Bucket → QuerySpec
put spec skipped = spec
put spec (include term) = push_include spec term
put spec (exact term) = push_exact spec term
put spec (exclude term) = push_exclude spec term

-- `token == "!"` is the case of nothing behind the mark, and `token == "'"` that of an exact term
-- that is empty.
eq_bang : (word : Text) → text_eq word bang ≡ true → strip_prefix word bang ≡ some []
unfolding text_eq strip_prefix
eq_bang [] h = absurd (cc)
eq_bang (c ∷ []) h = ground arith
eq_bang (c ∷ d ∷ w) h = ground arith

eq_quote :
    (word : Text)
    → text_eq word quote ≡ true
    → (strip_prefix word bang ≡ none)
      × (has_char b'|' word ≡ false)
      × (starts_with word quote ≡ true)
      × (normalize_quoted_term word ≡ [])
unfolding text_eq strip_prefix starts_with normalize_quoted_term
eq_quote [] h = absurd (cc)
eq_quote (c ∷ []) h = ground arith
eq_quote (c ∷ d ∷ w) h = absurd (ground arith)

parse_token-put :
    (spec : QuerySpec) (word : Text) → parse_token spec word ≡ put spec (classify word)
unfolding parse_token classify
parse_token-put spec word = ground (arith, eq_bang word, eq_quote word)

abbrev pub bucket_terms : (Bucket → Option Text) → List Text → List Text
bucket_terms pick = filter_map (λ word. pick (classify word))

abbrev extend : QuerySpec → List Text → List Text → List Text → QuerySpec
extend spec is es xs = record {
  include_terms = spec.include_terms ++ is;
  exact_terms = spec.exact_terms ++ es;
  exclude_terms = spec.exclude_terms ++ xs;
}

abbrev prepend_some : Option Text → List Text → List Text
prepend_some o terms = elim o [ none ↦ terms | some t ↦ t ∷ terms ]

-- What the loop has after one word and what the rest of the words add.
put-append :
    (spec : QuerySpec) (b : Bucket) (is es xs : List Text)
    → extend (put spec b) is es xs
      ≡ extend spec
          (prepend_some (included b) is)
          (prepend_some (exacted b) es)
          (prepend_some (excluded b) xs)
put-append spec skipped is es xs = refl
put-append spec (include t) is es xs = simp append_assoc
put-append spec (exact t) is es xs = simp append_assoc
put-append spec (exclude t) is es xs = simp append_assoc

abbrev after_words : QuerySpec → List Text → QuerySpec
after_words spec words =
    extend spec (bucket_terms included words) (bucket_terms exacted words)
      (bucket_terms excluded words)

parse_tokens-after_words :
    (spec : QuerySpec) (words : List Text) → parse_tokens spec words ≡ after_words spec words
unfolding parse_tokens
parse_tokens-after_words spec [] = simp append-nil
parse_tokens-after_words spec (word ∷ words) =
    ap (λ s. parse_tokens s words) (parse_token-put spec word)
    ∙ parse_tokens-after_words (put spec (classify word)) words
    ∙ put-append spec (classify word) (bucket_terms included words) (bucket_terms exacted words)
        (bucket_terms excluded words)

-- Each list of the parsed query holds the terms of the words that ask for it, in their order.
pub parse_query-buckets :
    (query : Text)
    → (let words = split_whitespace query in
        ((parse_query query).include_terms ≡ bucket_terms included words)
        × ((parse_query query).exact_terms ≡ bucket_terms exacted words)
        × ((parse_query query).exclude_terms ≡ bucket_terms excluded words))
unfolding parse_query
parse_query-buckets query =
    let e = parse_tokens-after_words no_terms (split_whitespace query) in
    (ap (λ s. s.include_terms) e, ap (λ s. s.exact_terms) e, ap (λ s. s.exclude_terms) e)
