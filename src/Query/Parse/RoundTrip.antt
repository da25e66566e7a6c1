-- ===== src/Query/Parse/RoundTrip.antt =====
-- A query that is written out from its terms parses back to them.
use flist_walker.Prelude.{
  ◌≡◌, refl, ap, ◌∙◌, inl, inr, true, false, ◌||◌, not, Option, none, some, List, [], ◌∷◌, ◌++◌,
  map, append-nil, arith, All, Option-cases,
}
use flist_walker.Text.{Text, is_whitespace, strip_prefix, starts_with, has_char, join}
use flist_walker.Text.Words.{IsWord, split_whitespace-join}
use flist_walker.Query.Parse.{
  QuerySpec, parse_query, normalize_quoted_term, bang, quote, caret_quote,
}
use flist_walker.Query.Parse.Buckets.{
  Bucket, include, exact, exclude, classify, included, exacted, excluded, bucket_terms,
  parse_query-buckets,
}

-- The syntax of a term: `'` in front of an exact one, `!'` in front of an excluded one.
pub print_words : QuerySpec → List Text
print_words spec =
    spec.include_terms
    ++ (map (λ w. b'\'' ∷ w) spec.exact_terms ++ map (λ w. b'!' ∷ b'\'' ∷ w) spec.exclude_terms)

pub print : QuerySpec → Text
unfolding print_words
print spec = join b' ' (print_words spec)

-- An include term that is not read as something else.
pub record IsIncludeTerm (w : Text) : Type 0 where
  pub word : IsWord w
  pub positive : starts_with w bang ≡ false
  pub plain : (has_char b'|' w || not (starts_with w quote || starts_with w caret_quote)) ≡ true

pub record IsExactTerm (w : Text) : Type 0 where
  pub word : IsWord w
  pub one : has_char b'|' w ≡ false

pub record IsPrintable (spec : QuerySpec) : Type 0 where
  pub include_terms : All IsIncludeTerm spec.include_terms
  pub exact_terms : All IsExactTerm spec.exact_terms
  pub exclude_terms : All IsWord spec.exclude_terms

classify-include : (w : Text) → IsIncludeTerm w → classify w ≡ include w
unfolding classify strip_prefix starts_with
classify-include [] h = absurd (omega (arith, h.word.some_char))
classify-include (c ∷ w) h = ground (arith, h.positive, h.plain)

classify-exact : (w : Text) → IsExactTerm w → classify (b'\'' ∷ w) ≡ exact w
unfolding classify strip_prefix starts_with normalize_quoted_term
classify-exact [] h = absurd (omega (arith, h.word.some_char))
classify-exact (c ∷ w) h = ground (arith, h.one)

classify-exclude : (w : Text) → IsWord w → classify (b'!' ∷ b'\'' ∷ w) ≡ exclude w
unfolding classify strip_prefix normalize_quoted_term
classify-exclude w h = refl

module _ (pick : Bucket → Option Text) where
  -- Where `pick` takes the term of every printed word, it returns the terms.
  bucket_taken :
      (show : Text → Text) (P : Text → Type 0)
      → ((w : Text) → P w → pick (classify (show w)) ≡ some w)
      → (ws : List Text) → All P ws
      → bucket_terms pick (map show ws) ≡ ws
  bucket_taken show P taken [] h = refl
  bucket_taken show P taken (w ∷ ws) h =
      rw (taken w h.0) (ap (◌∷◌ w) (bucket_taken show P taken ws h.1))

  bucket_passed :
      (show : Text → Text) (P : Text → Type 0)
      → ((w : Text) → P w → pick (classify (show w)) ≡ none)
      → (ws : List Text) → All P ws
      → bucket_terms pick (map show ws) ≡ []
  bucket_passed show P passed [] h = refl
  bucket_passed show P passed (w ∷ ws) h = rw (passed w h.0) (bucket_passed show P passed ws h.1)

  bucket-append :
      (xs ys : List Text)
      → bucket_terms pick (xs ++ ys) ≡ bucket_terms pick xs ++ bucket_terms pick ys
  bucket-append [] ys = refl
  bucket-append (x ∷ xs) ys = elim (Option-cases (pick (classify x))) [
    | inl e ↦ rw e (bucket-append xs ys)
    | inr (t, e) ↦ rw e (ap (◌∷◌ t) (bucket-append xs ys))
  ]

abbrev show_exact : Text → Text
show_exact w = b'\'' ∷ w

abbrev show_exclude : Text → Text
show_exclude w = b'!' ∷ b'\'' ∷ w

map_id : (ws : List Text) → map (λ w. w) ws ≡ ws
map_id [] = refl
map_id (w ∷ ws) = ap (◌∷◌ w) (map_id ws)

-- The three parts of the printed words, as one bucket sees them.
bucket-print_words :
    (pick : Bucket → Option Text) (spec : QuerySpec)
    → bucket_terms pick (print_words spec)
      ≡ bucket_terms pick (map (λ w. w) spec.include_terms)
        ++ (bucket_terms pick (map show_exact spec.exact_terms)
            ++ bucket_terms pick (map show_exclude spec.exclude_terms))
unfolding print_words
bucket-print_words pick spec = rw map_id (
    bucket-append pick spec.include_terms _
    ∙ ap (λ r. bucket_terms pick spec.include_terms ++ r)
        (bucket-append pick (map show_exact spec.exact_terms) _))

IsWord-show_exact : (w : Text) → IsWord w → IsWord (show_exact w)
unfolding is_whitespace
IsWord-show_exact w h = record { some_char = omega arith; no_space = h.no_space }

IsWord-show_exclude : (w : Text) → IsWord w → IsWord (show_exclude w)
unfolding is_whitespace
IsWord-show_exclude w h = record { some_char = omega arith; no_space = h.no_space }

All-map :
    (show : Text → Text) (P : Text → Type 0)
    → ((w : Text) → P w → IsWord (show w))
    → (ws : List Text) → All P ws
    → All IsWord (map show ws)
All-map show P f [] h = tt
All-map show P f (w ∷ ws) h = (f w h.0, All-map show P f ws h.1)

All-append : (xs ys : List Text) → All IsWord xs → All IsWord ys → All IsWord (xs ++ ys)
All-append [] ys hx hy = hy
All-append (x ∷ xs) ys hx hy = (hx.0, All-append xs ys hx.1 hy)

print_words-IsWord : (spec : QuerySpec) → IsPrintable spec → All IsWord (print_words spec)
unfolding print_words
print_words-IsWord spec h =
    All-append spec.include_terms _
      (rw map_id at
        (All-map (λ w. w) IsIncludeTerm (λ w t. t.word) spec.include_terms h.include_terms))
      (All-append (map show_exact spec.exact_terms) _
        (All-map show_exact IsExactTerm (λ w t. IsWord-show_exact w t.word) spec.exact_terms
          h.exact_terms)
        (All-map show_exclude IsWord IsWord-show_exclude spec.exclude_terms h.exclude_terms))

-- What each bucket takes from the printed words.
included-print_words :
    (spec : QuerySpec)
    → IsPrintable spec
    → bucket_terms included (print_words spec) ≡ spec.include_terms
included-print_words spec h =
    let a =
      bucket_taken included (λ w. w) IsIncludeTerm (λ w t. rw (classify-include w t))
        spec.include_terms h.include_terms in
    let b =
      bucket_passed included show_exact IsExactTerm (λ w t. rw (classify-exact w t))
        spec.exact_terms h.exact_terms in
    let c =
      bucket_passed included show_exclude IsWord (λ w t. rw (classify-exclude w t))
        spec.exclude_terms h.exclude_terms in
    bucket-print_words included spec ∙ simp (a, b, c, append-nil)

exacted-print_words :
    (spec : QuerySpec)
    → IsPrintable spec
    → bucket_terms exacted (print_words spec) ≡ spec.exact_terms
exacted-print_words spec h =
    let a =
      bucket_passed exacted (λ w. w) IsIncludeTerm (λ w t. rw (classify-include w t))
        spec.include_terms h.include_terms in
    let b =
      bucket_taken exacted show_exact IsExactTerm (λ w t. rw (classify-exact w t)) spec.exact_terms
        h.exact_terms in
    let c =
      bucket_passed exacted show_exclude IsWord (λ w t. rw (classify-exclude w t))
        spec.exclude_terms h.exclude_terms in
    bucket-print_words exacted spec ∙ simp (a, b, c, append-nil)

excluded-print_words :
    (spec : QuerySpec)
    → IsPrintable spec
    → bucket_terms excluded (print_words spec) ≡ spec.exclude_terms
excluded-print_words spec h =
    let a =
      bucket_passed excluded (λ w. w) IsIncludeTerm (λ w t. rw (classify-include w t))
        spec.include_terms h.include_terms in
    let b =
      bucket_passed excluded show_exact IsExactTerm (λ w t. rw (classify-exact w t))
        spec.exact_terms h.exact_terms in
    let c =
      bucket_taken excluded show_exclude IsWord (λ w t. rw (classify-exclude w t))
        spec.exclude_terms h.exclude_terms in
    bucket-print_words excluded spec ∙ simp (a, b, c)

-- A query written out from terms that are words, and that are not read as terms of another kind,
-- parses back to these terms, in their order.
pub parse_query-print : (spec : QuerySpec) → IsPrintable spec → parse_query (print spec) ≡ spec
unfolding print
parse_query-print spec h =
    let words = split_whitespace-join (print_words spec) (print_words-IsWord spec h) in
    let b = parse_query-buckets (print spec) in
    λ i. record {
      include_terms = (b.0 ∙ ap (bucket_terms included) words ∙ included-print_words spec h) i;
      exact_terms = (b.1 ∙ ap (bucket_terms exacted) words ∙ exacted-print_words spec h) i;
      exclude_terms = (b.2 ∙ ap (bucket_terms excluded) words ∙ excluded-print_words spec h) i;
    }
