-- ===== src/Query/Spans/Bounds.antt =====
-- The spans of a query are a strictly increasing list of positions inside the visible text.
use flist_walker.Prelude.{
  ℕ, ◌+◌, ◌≤◌, ◌<◌, inl, inr, Bool, true, false, not, Option, none, some, List, [], ◌∷◌, map, arith,
  length, is_empty, all, find_first, All, ltb, ◌==◌, if◌then◌else◌, Bool-cases,
}
use flist_walker.Query.Regex.{RegexEngine}
use flist_walker.Query.Pattern.{LiteralPattern, ExactTermMatcher}
use flist_walker.Query.Candidate.{PreparedCandidate}
use flist_walker.Query.Compiled.{
  CompiledQuery, IncludeMatcher, IncludeAlternative, regex, alternatives,
}
use flist_walker.Query.Spans.{
  exact_positions, fuzzy_positions, regex_positions, insert, extend, add_pattern_positions,
  exact_term_spans, extend_all, include_spans, collect_spans,
}
use flist_walker.Query.Spans.Positions.{
  Below, Below-le, Below-shift, exact_positions-Below, fuzzy_positions-Below, regex_positions-Below,
}

-- Each position is less than all that follow.
abbrev pub IsIncreasing : List ℕ → Type 0
IsIncreasing [] = Unit
IsIncreasing (p ∷ ps) = All (λ q. p < q) ps × IsIncreasing ps

Above-trans : (a b : ℕ) (ps : List ℕ) → a < b → All (λ q. b < q) ps → All (λ q. a < q) ps
Above-trans a b [] h all = tt
Above-trans a b (p ∷ ps) h all = (omega (arith, all.0), Above-trans a b ps h all.1)

insert-Above :
    (lo a : ℕ) (ps : List ℕ) → lo < a → All (λ q. lo < q) ps → All (λ q. lo < q) (insert a ps)
unfolding insert
insert-Above lo a [] h all = (h, tt)
insert-Above lo a (b ∷ ps) h all = elim (Bool-cases (ltb a b)) [
  | inl less ↦ rw (less, insert) (h, all)
  | inr more ↦ elim (Bool-cases (a == b)) [
    | inl same ↦ rw (more, same, insert) all
    | inr other ↦ rw (more, other, insert) (all.0, insert-Above lo a ps h all.1)
  ]
]

insert-IsIncreasing : (a : ℕ) (ps : List ℕ) → IsIncreasing ps → IsIncreasing (insert a ps)
unfolding insert
insert-IsIncreasing a [] h = (tt, tt)
insert-IsIncreasing a (b ∷ ps) h = elim (Bool-cases (ltb a b)) [
  | inl less ↦
      let lt : a < b = ground arith in rw (less, insert) ((lt, Above-trans a b ps lt h.0), h)
  | inr more ↦ elim (Bool-cases (a == b)) [
    | inl same ↦ rw (more, same, insert) h
    | inr other ↦
        let lt : b < a = ground arith in
        rw (more, other, insert) (insert-Above b a ps lt h.0, insert-IsIncreasing a ps h.1)
  ]
]

insert-Below : (n a : ℕ) (ps : List ℕ) → a < n → Below n ps → Below n (insert a ps)
unfolding insert
insert-Below n a [] h b = (h, tt)
insert-Below n a (c ∷ ps) h b = elim (Bool-cases (ltb a c)) [
  | inl less ↦ rw (less, insert) (h, b)
  | inr more ↦ elim (Bool-cases (a == c)) [
    | inl same ↦ rw (more, same, insert) b
    | inr other ↦ rw (more, other, insert) (b.0, insert-Below n a ps h b.1)
  ]
]

-- A set of positions inside a text of `n` characters, as the `BTreeSet` iterates over it.
pub record IsSpanSet (n : ℕ) (ps : List ℕ) : Type 0 where
  pub increasing : IsIncreasing ps
  pub below : Below n ps

extend-IsSpanSet :
    (n : ℕ) (set ps : List ℕ) → Below n ps → IsSpanSet n set → IsSpanSet n (extend set ps)
unfolding extend
extend-IsSpanSet n set [] b h = h
extend-IsSpanSet n set (a ∷ ps) b h = extend-IsSpanSet n (insert a set) ps b.1 (record {
  increasing = insert-IsIncreasing a set h.increasing;
  below = insert-Below n a set b.0 h.below;
})

-- The file name stands at the end of the visible text.
abbrev pub NameFits : PreparedCandidate → Type 0
NameFits c = c.filename_start + length c.filename ≤ length c.visible

module _ (candidate : PreparedCandidate) (fits : NameFits candidate) where
  -- Positions in the file name, moved to where it stands.
  in_name :
      (ps : List ℕ)
      → Below (length candidate.filename) ps
      → Below (length candidate.visible) (map (λ p. candidate.filename_start + p) ps)
  in_name ps b = Below-le _ fits (Below-shift candidate.filename_start _ ps b)

  hits-Below :
      (text : List ℕ) (pattern : LiteralPattern) (exact ic : Bool)
      → Below
          (length text)
          (if exact then exact_positions text pattern ic else fuzzy_positions text pattern ic)
  hits-Below text pattern true ic = exact_positions-Below text pattern ic
  hits-Below text pattern false ic = fuzzy_positions-Below text pattern ic

  either_extension :
      (b : Bool) (set ps qs : List ℕ)
      → Below (length candidate.visible) ps
      → Below (length candidate.visible) qs
      → IsSpanSet (length candidate.visible) set
      → IsSpanSet (length candidate.visible) (if b then extend set ps else extend set qs)
  either_extension true set ps qs a b h = extend-IsSpanSet _ set ps a h
  either_extension false set ps qs a b h = extend-IsSpanSet _ set qs b h

  add_pattern_positions-IsSpanSet :
      (set : List ℕ) (pattern : LiteralPattern) (exact ic : Bool)
      → IsSpanSet (length candidate.visible) set
      → IsSpanSet (length candidate.visible) (add_pattern_positions set candidate pattern exact ic)
  unfolding add_pattern_positions
  add_pattern_positions-IsSpanSet set pattern exact ic h =
      let hits : List ℕ → List ℕ = λ text.
        (if exact then exact_positions text pattern ic else fuzzy_positions text pattern ic) in
      let in_file = hits candidate.filename in
      either_extension (not (is_empty in_file)) set
        (map (λ p. candidate.filename_start + p) in_file) (hits candidate.visible)
        (in_name in_file (hits-Below candidate.filename pattern exact ic))
        (hits-Below candidate.visible pattern exact ic) h

  exact_term_spans-IsSpanSet :
      (ic : Bool) (set : List ℕ) (term : ExactTermMatcher)
      → IsSpanSet (length candidate.visible) set
      → IsSpanSet (length candidate.visible) (exact_term_spans ic candidate set term)
  unfolding exact_term_spans
  exact_term_spans-IsSpanSet ic set term h = found (find_first _ term.set.alternatives)
    where
      found :
          (o : Option LiteralPattern)
          → IsSpanSet (length candidate.visible) (elim o [
            | none ↦ set
            | some pattern ↦ add_pattern_positions set candidate pattern true ic
          ])
      found none = h
      found (some pattern) = add_pattern_positions-IsSpanSet set pattern true ic h

  include_spans-IsSpanSet :
      (engine : RegexEngine) (ic : Bool) (set : List ℕ) (matcher : IncludeMatcher engine)
      → IsSpanSet (length candidate.visible) set
      → IsSpanSet (length candidate.visible) (include_spans engine ic candidate set matcher)
  unfolding include_spans
  include_spans-IsSpanSet engine ic set (regex r) h =
      let named = engine.find_iter r candidate.filename in
      let shown = engine.find_iter r candidate.visible in
      let in_file = regex_positions named candidate.filename in
      either_extension (is_empty in_file) set (regex_positions shown candidate.visible)
        (map (λ p. candidate.filename_start + p) in_file)
        (regex_positions-Below shown candidate.visible)
        (in_name in_file (regex_positions-Below named candidate.filename)) h
  include_spans-IsSpanSet engine ic set (alternatives alts) h = found (find_first _ alts)
    where
      found :
          (o : Option IncludeAlternative)
          → IsSpanSet (length candidate.visible) (elim o [
            | none ↦ set
            | some a ↦ add_pattern_positions set candidate a.literal a.exact ic
          ])
      found none = h
      found (some a) = add_pattern_positions-IsSpanSet set a.literal a.exact ic h

  extend_all-IsSpanSet :
      {A : Type 0} (step : List ℕ → A → List ℕ)
      → ((set : List ℕ) (x : A)
          → IsSpanSet (length candidate.visible) set
          → IsSpanSet (length candidate.visible) (step set x))
      → (set : List ℕ) (xs : List A) → IsSpanSet (length candidate.visible) set
      → IsSpanSet (length candidate.visible) (extend_all step set xs)
  extend_all-IsSpanSet step keeps set [] h = h
  extend_all-IsSpanSet step keeps set (x ∷ xs) h =
      extend_all-IsSpanSet step keeps (step set x) xs (keeps set x h)

  -- Where the file name fits into the visible text, the spans of any query are strictly increasing
  -- and each is the position of a character of the visible text.
  pub collect_spans-IsSpanSet :
      (engine : RegexEngine) (compiled : CompiledQuery engine)
      → IsSpanSet (length candidate.visible) (collect_spans engine compiled candidate)
  unfolding collect_spans
  collect_spans-IsSpanSet engine compiled =
      extend_all-IsSpanSet (include_spans engine compiled.ignore_case candidate)
        (include_spans-IsSpanSet engine compiled.ignore_case)
        (extend_all (exact_term_spans compiled.ignore_case candidate) [] compiled.exact_terms)
        compiled.include_terms
        (extend_all-IsSpanSet _ (exact_term_spans-IsSpanSet compiled.ignore_case) []
          compiled.exact_terms (record { increasing = tt; below = tt }))
