-- ===== src/Query/Match/Literal.antt =====
-- What the tests of rust/src/query/compiled.rs decide about a text.
use flist_walker.Prelude.{
  ℕ, zero, suc, ◌+◌, ◌-◌, ◌≤◌, ◌<◌, ◌≡◌, refl, sym, ap, ◌∙◌, ◌↔◌, inl, inr, Bool, true, false, ◌&&◌,
  ◌||◌, some, List, [], ◌∷◌, ◌++◌, arith, length, get_elem?, drop, is_empty, length-append,
  length-drop, drop_of_get_elem?, get_elem?-eq-some_lt, get_elem?-eq-none_le, nil_of_length, ◌==◌,
  if◌then◌else◌, Option-cases,
}
use flist_walker.Text.{Text, text_eq, starts_with, ends_with, contains, after_find}
use flist_walker.Text.Affix.{
  text_eq_refl, eq_of_text_eq, starts_with-append, split_of_starts_with, ends_with-append,
  split_of_ends_with, contains-append, split_of_contains,
}
use flist_walker.Text.Occurrences.{
  Occurs, stop, next, Occurs-prepend, split_of_after_find, after_find_leftmost,
}
use flist_walker.Text.Subsequence.{
  Subsequence, greedy, Subsequence-of_greedy, greedy_of_Subsequence, Subsequence-append,
  Subsequence-prepend,
}
use flist_walker.Query.Pattern.{LiteralPattern}
use flist_walker.Query.Match.{
  subsequence_from, is_subsequence, matches_anchored_literal, count_from, literal_occurrence_count,
  matches_include_literal,
}

-- How a text lies around the core of a pattern with the given anchors.
abbrev pub Fits : Bool → Bool → Text → Text → Type 0
Fits true true core text = text ≡ core
Fits true false core text = (rest : Text) × (text ≡ core ++ rest)
Fits false true core text = (pre : Text) × (text ≡ pre ++ core)
Fits false false core text = (pre : Text) × (rest : Text) × (text ≡ pre ++ (core ++ rest))

Fits-of_tests :
    (s e : Bool) (core text : Text)
    → (if s && e
        then text_eq text core
        else if s
        then starts_with text core
        else if e
        then ends_with text core
        else contains text core)
      ≡ true
    → Fits s e core text
Fits-of_tests true true core text h = eq_of_text_eq text core h
Fits-of_tests true false core text h = split_of_starts_with text core h
Fits-of_tests false true core text h = split_of_ends_with text core h
Fits-of_tests false false core text h = split_of_contains text core h

tests_of_Fits :
    (s e : Bool) (core text : Text)
    → Fits s e core text
    → (if s && e
        then text_eq text core
        else if s
        then starts_with text core
        else if e
        then ends_with text core
        else contains text core)
      ≡ true
tests_of_Fits true true core text h = rw h (text_eq_refl core)
tests_of_Fits true false core text (rest, h) = rw h (starts_with-append core rest)
tests_of_Fits false true core text (pre, h) = rw h (ends_with-append pre core)
tests_of_Fits false false core text (pre, rest, h) = rw h (contains-append pre core rest)

-- A pattern matches exactly the texts that are its core, begin with it, end with it or contain it,
-- as its anchors say.
pub matches_anchored_literal_iff :
    (p : LiteralPattern) (text : Text)
    → (matches_anchored_literal p text ≡ true) ↔ Fits p.anchored_start p.anchored_end p.core text
unfolding matches_anchored_literal
matches_anchored_literal_iff p text = (
  Fits-of_tests p.anchored_start p.anchored_end p.core text,
  tests_of_Fits p.anchored_start p.anchored_end p.core text,
)

-- The loop from index `qi` on is the greedy test on what the query has left there.
subsequence_from-greedy :
    (query : List ℕ) (qi : ℕ) (text : Text)
    → qi ≤ length query
    → (subsequence_from query qi text == length query) ≡ greedy (drop qi query) text
unfolding subsequence_from greedy
subsequence_from-greedy query qi [] h = at_end (drop qi query) (length-drop qi query)
  where
    at_end :
        (rest : List ℕ) → length rest ≡ length query - qi → (qi == length query) ≡ greedy rest []
    at_end [] e = ground arith
    at_end (d ∷ rest) e = ground arith
subsequence_from-greedy query qi (ch ∷ text) h = elim (Option-cases (get_elem? query qi)) [
  | inl ended ↦
      let none_left : drop qi query ≡ [] =
        nil_of_length (drop qi query)
          (omega (arith, length-drop qi query, get_elem?-eq-none_le query qi ended)) in
      ground (arith, subsequence_from-greedy query qi text h)
  | inr (d, wanted) ↦ ground (
    arith,
    drop_of_get_elem? query qi d wanted,
    get_elem?-eq-some_lt query qi d wanted,
    subsequence_from-greedy query qi text h,
    subsequence_from-greedy query (qi + 1) text,
  )
]

-- The index loop decides whether the query is a subsequence of the text.
pub is_subsequence_iff :
    (query text : Text) → (is_subsequence query text ≡ true) ↔ Subsequence query text
unfolding is_subsequence
is_subsequence_iff query text =
    let same = subsequence_from-greedy query 0 text (omega arith) in
    (
      λ h. Subsequence-of_greedy query text (sym same ∙ h),
      λ s. same ∙ greedy_of_Subsequence query text s,
    )

Occurs-of_count_from :
    (fuel : ℕ) (text needle : Text) → Occurs needle (count_from fuel text needle) text
unfolding count_from
Occurs-of_count_from zero text needle = stop text
Occurs-of_count_from (suc fuel) text needle = elim (Option-cases (after_find text needle)) [
  | inl missing ↦ rw (missing, count_from) (stop text)
  | inr (rest, found) ↦
      let (pre, e) = split_of_after_find text needle rest found in
      rw (found, count_from) (next text pre rest e (Occurs-of_count_from fuel rest needle))
]

-- A text has the length of its parts around an occurrence.
pub length-around :
    {text : Text} (pre needle rest : Text)
    → text ≡ pre ++ (needle ++ rest)
    → length text ≡ length pre + (length needle + length rest)
length-around pre needle rest e =
    ap length e
    ∙ length-append pre (needle ++ rest)
    ∙ ap (λ n. length pre + n) (length-append needle rest)

-- With as much fuel as the text has characters, no set of disjoint occurrences is larger than the
-- count.
pub count_from_greatest :
    (fuel : ℕ) {k : ℕ} {text : Text} (needle : Text)
    → 0 < length needle
    → length text ≤ fuel
    → Occurs needle k text
    → k ≤ count_from fuel text needle
unfolding count_from
count_from_greatest fuel needle long h (stop t) = omega arith
count_from_greatest zero needle long h (next t pre rest e o) =
    absurd (omega (arith, length-around pre needle rest e))
count_from_greatest (suc fuel) needle long h (next {k = j} t pre rest e o) =
    let (r, skip, found, behind) = after_find_leftmost pre needle rest in
    let found' : after_find t needle ≡ some r = rw e found in
    let (pre', e') = split_of_after_find t needle r found' in
    let shorter : length r ≤ fuel = omega (arith, length-around pre' needle r e') in
    let o' : Occurs needle j r = rw behind (Occurs-prepend skip o) in
    ground (arith, found', count_from_greatest fuel needle long shorter o')

pub Occurs-le : (j : ℕ) {k : ℕ} {p text : Text} → j ≤ k → Occurs p k text → Occurs p j text
Occurs-le zero {text = text} h o = stop text
Occurs-le (suc j) h (stop t) = absurd (omega arith)
Occurs-le (suc j) h (next t pre rest e o) = next t pre rest e (Occurs-le j (omega arith) o)

pub is_empty_of_pos : (t : Text) → 0 < length t → is_empty t ≡ false
is_empty_of_pos [] h = absurd (omega arith)
is_empty_of_pos (c ∷ t) h = refl

-- For a needle that is not empty, the count of the greedy loop is at least k exactly when the text
-- holds k disjoint occurrences of the needle one behind the other.
pub literal_occurrence_count_iff :
    (k : ℕ) (text needle : Text)
    → 0 < length needle
    → (k ≤ literal_occurrence_count text needle) ↔ Occurs needle k text
unfolding literal_occurrence_count
literal_occurrence_count_iff k text needle long = rw (is_empty_of_pos needle long) (
  λ h. Occurs-le k h (Occurs-of_count_from (length text) text needle),
  count_from_greatest (length text) needle long (omega arith),
)

contains→is_subsequence :
    (core text : Text) → contains text core ≡ true → is_subsequence core text ≡ true
contains→is_subsequence core text h =
    let (pre, rest, e) = split_of_contains text core h in
    (is_subsequence_iff core text).1 (rw e (Subsequence-prepend pre (Subsequence-append core rest)))

-- For a pattern without anchors whose characters are its core, an include literal matches exactly
-- where the core is a subsequence of the name or of the full text.
pub matches_include_literal_unanchored :
    (p : LiteralPattern) (name full : Text)
    → p.anchored_start ≡ false
    → p.anchored_end ≡ false
    → p.core_chars ≡ p.core
    → matches_include_literal p name full
      ≡ (is_subsequence p.core name || is_subsequence p.core full)
unfolding matches_include_literal
matches_include_literal_unanchored p name full s e same =
    ground (arith, contains→is_subsequence p.core name, contains→is_subsequence p.core full)
