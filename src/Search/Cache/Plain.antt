-- ===== src/Search/Cache/Plain.antt =====
-- What a query of one plain word parses and compiles to.
use flist_walker.Prelude.{
  ℕ, ◌≤◌, ◌<◌, ◌≡◌, refl, ap, ◌∙◌, subst, Bool, true, false, not, Option, none, some, List, [], ◌∷◌,
  arith, length, is_empty, any, filter_map, length-map, ltb, if◌then◌else◌,
}
use flist_walker.Text.{
  Text, len, trim, is_whitespace, has_char, starts_with, ends_with, split_whitespace, lower_char,
  to_ascii_lowercase, first, last,
}
use flist_walker.Text.Words.{split_whitespace-join}
use flist_walker.Query.Parse.{
  QuerySpec, include_alternatives, split_anchor, parse_include_alternative, parse_query,
}
use flist_walker.Query.Parse.Buckets.{
  Bucket, include, classify, included, bucket_terms, exacted, excluded, parse_query-buckets,
}
use flist_walker.Query.Pattern.{LiteralPattern, normalize_text, compile_literal_pattern}
use flist_walker.Query.Compiled.{include_alternative, IncludeAlternative, compile_alternatives}
use flist_walker.Search.Cache.{is_cacheable_query, is_operator, min_query_len}

-- A query of one plain word, as the cache takes it.
pub record IsPlain (q : Text) : Type 0 where
  pub some_char : 0 < length q
  pub no_space : any is_whitespace q ≡ false
  pub no_operator : any is_operator q ≡ false

cacheable_parts :
    (t : Text)
    → (if ltb (len t) min_query_len
        then false
        else if any is_whitespace t
        then false
        else not (any is_operator t))
      ≡ true
    → (3 ≤ len t) × (any is_whitespace t ≡ false) × (any is_operator t ≡ false)
cacheable_parts t h = ground arith

length_of_len : (t : Text) → 3 ≤ len t → 0 < length t
unfolding len
length_of_len [] h = absurd (omega arith)
length_of_len (c ∷ t) h = omega arith

-- `is_cacheable_query` of a query that needs no trimming.
pub IsPlain-of_cacheable : (q : Text) → trim q ≡ q → is_cacheable_query q ≡ true → IsPlain q
unfolding is_cacheable_query
IsPlain-of_cacheable q t h =
    let (long, space, operator) = cacheable_parts (trim q) h in
    subst IsPlain t
      (record { some_char = length_of_len (trim q) long; no_space = space; no_operator = operator })

-- Lower case turns no character into an operator.
is_operator-lower : (c : ℕ) → is_operator c ≡ false → is_operator (lower_char c) ≡ false
unfolding lower_char
is_operator-lower c h = ground arith

no_operator-lower :
    (q : Text) → any is_operator q ≡ false → any is_operator (to_ascii_lowercase q) ≡ false
unfolding to_ascii_lowercase
no_operator-lower [] h = refl
no_operator-lower (c ∷ q) h =
    let head : is_operator c ≡ false = ground arith in
    let tail : any is_operator q ≡ false = ground arith in
    rw (is_operator-lower c head) (no_operator-lower q tail)

no_operator-normalize :
    (q : Text) (ic : Bool)
    → any is_operator q ≡ false
    → any is_operator (normalize_text q ic) ≡ false
unfolding normalize_text
no_operator-normalize q true h = no_operator-lower q h
no_operator-normalize q false h = h

length-normalize : (q : Text) (ic : Bool) → length (normalize_text q ic) ≡ length q
unfolding normalize_text to_ascii_lowercase
length-normalize q true = length-map lower_char q
length-normalize q false = refl

no_bar : (q : Text) → any is_operator q ≡ false → has_char b'|' q ≡ false
no_bar [] h = refl
no_bar (c ∷ q) h = ground (arith, no_bar q)

no_dollar : (q : Text) → any is_operator q ≡ false → ends_with q (b'$' ∷ []) ≡ false
unfolding ends_with
no_dollar [] h = refl
no_dollar (c ∷ []) h = ground arith
no_dollar (c ∷ d ∷ q) h = ground (arith, no_dollar (d ∷ q))

classify-plain : (q : Text) → IsPlain q → classify q ≡ include q
unfolding classify
classify-plain [] h = absurd (omega (arith, h.some_char))
classify-plain (c ∷ q) h = ground (arith, h.no_operator)

-- What a bucket has when the only word is an include term.
only :
    (pick : Bucket → Option Text) {q : Text}
    → classify q ≡ include q
    → bucket_terms pick (q ∷ []) ≡ elim (pick (include q)) [ none ↦ [] | some t ↦ t ∷ [] ]
only pick c = ap (λ k. elim (pick k) [ none ↦ [] | some t ↦ t ∷ [] ]) c

abbrev pub one_term : Text → QuerySpec
one_term q = record { include_terms = q ∷ []; exact_terms = []; exclude_terms = [] }

pub parse_query-plain : (q : Text) → IsPlain q → parse_query q ≡ one_term q
parse_query-plain q h =
    let b = parse_query-buckets q in
    let words : split_whitespace q ≡ q ∷ [] =
      split_whitespace-join (q ∷ [])
        (record { some_char = h.some_char; no_space = h.no_space }, tt) in
    let c = classify-plain q h in
    let is : (parse_query q).include_terms ≡ q ∷ [] =
      b.0 ∙ ap (bucket_terms included) words ∙ only included c in
    let es : (parse_query q).exact_terms ≡ [] =
      b.1 ∙ ap (bucket_terms exacted) words ∙ only exacted c in
    let xs : (parse_query q).exclude_terms ≡ [] =
      b.2 ∙ ap (bucket_terms excluded) words ∙ only excluded c in
    λ i. record { include_terms = is i; exact_terms = es i; exclude_terms = xs i }

abbrev pub plain_pattern : Text → LiteralPattern
plain_pattern core = record {
  anchored_start = false;
  anchored_end = false;
  core = core;
  core_chars = core;
  first_char = first core;
  last_char = last core;
}

split_anchor-plain :
    (q : Text) → 0 < length q → any is_operator q ≡ false → split_anchor q ≡ (false, false, q)
unfolding split_anchor
split_anchor-plain [] l h = absurd (omega arith)
split_anchor-plain (c ∷ q) l h =
    let start : starts_with (c ∷ q) (b'^' ∷ []) ≡ false = unfold starts_with in ground arith in
    rw (start, no_dollar (c ∷ q) h)

abbrev pattern_of : Bool × Bool × Text → Option LiteralPattern
pattern_of (anchored_start, anchored_end, core) =
    if is_empty core
    then none
    else some (record (plain_pattern core) {
      anchored_start = anchored_start;
      anchored_end = anchored_end;
    })

compile_literal_pattern_lem :
    (term : Text) (ic : Bool)
    → compile_literal_pattern term ic ≡ pattern_of (split_anchor (normalize_text term ic))
unfolding compile_literal_pattern
compile_literal_pattern_lem term ic = refl

pattern_of-plain : (n : Text) → 0 < length n → pattern_of (false, false, n) ≡ some (plain_pattern n)
pattern_of-plain [] l = absurd (omega arith)
pattern_of-plain (c ∷ n) l = refl

compile_literal_pattern-plain :
    (q : Text) (ic : Bool)
    → IsPlain q
    → compile_literal_pattern q ic ≡ some (plain_pattern (normalize_text q ic))
compile_literal_pattern-plain q ic h =
    let n = normalize_text q ic in
    let long : 0 < length n = omega (arith, length-normalize q ic, h.some_char) in
    compile_literal_pattern_lem q ic
    ∙ ap pattern_of (split_anchor-plain n long (no_operator-normalize q ic h.no_operator))
    ∙ pattern_of-plain n long

include_alternatives-plain : (q : Text) → IsPlain q → include_alternatives q ≡ q ∷ []
unfolding include_alternatives
include_alternatives-plain q h = rw (no_bar q h.no_operator)

parse_include_alternative-plain :
    (q : Text) → IsPlain q → parse_include_alternative q ≡ some (false, q)
unfolding parse_include_alternative
parse_include_alternative-plain [] h = absurd (omega (arith, h.some_char))
parse_include_alternative-plain (c ∷ q) h = ground (arith, h.no_operator)

abbrev pub plain_alternative : Text → IncludeAlternative
plain_alternative core = record { exact = false; literal = plain_pattern core }

abbrev parsed_alternatives : Bool → Option (Bool × Text) → List IncludeAlternative
parsed_alternatives ic o =
    filter_map (include_alternative ic) (elim o [ none ↦ [] | some parsed ↦ parsed ∷ [] ])

compile_alternatives_lem :
    (term : Text) (ic : Bool)
    → compile_alternatives term ic
      ≡ filter_map
          (include_alternative ic)
          (filter_map parse_include_alternative (include_alternatives term))
unfolding compile_alternatives
compile_alternatives_lem term ic = refl

literal_alternative :
    (q : Text) (ic : Bool) (p : LiteralPattern)
    → compile_literal_pattern q ic ≡ some p
    → parsed_alternatives ic (some (false, q)) ≡ record { exact = false; literal = p } ∷ []
literal_alternative q ic p e =
    ap
      (λ (o : Option LiteralPattern).
        let made : Option IncludeAlternative = elim o [
          | none ↦ none
          | some literal ↦ some (record { exact = false; literal = literal })
        ] in
        let alts : List IncludeAlternative = elim made [ none ↦ [] | some a ↦ a ∷ [] ] in alts)
      e

pub compile_alternatives-plain :
    (q : Text) (ic : Bool)
    → IsPlain q
    → compile_alternatives q ic ≡ plain_alternative (normalize_text q ic) ∷ []
compile_alternatives-plain q ic h =
    compile_alternatives_lem q ic
    ∙ ap (λ alts. filter_map (include_alternative ic) (filter_map parse_include_alternative alts))
        (include_alternatives-plain q h)
    ∙ ap (parsed_alternatives ic) (parse_include_alternative-plain q h)
    ∙ literal_alternative q ic _ (compile_literal_pattern-plain q ic h)
