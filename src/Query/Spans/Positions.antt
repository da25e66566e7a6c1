-- ===== src/Query/Spans/Positions.antt =====
-- The positions that a pattern or a regular expression yields lie inside the text.
use flist_walker.Prelude.{
  ℕ, zero, suc, ◌+◌, ◌-◌, ◌≤◌, ◌<◌, ◌≡◌, inl, inr, Bool, true, false, ◌&&◌, Option, none, some,
  List, [], ◌∷◌, ◌++◌, map, arith, length, is_empty, All, leb, ◌==◌, if◌then◌else◌, Bool-cases,
  &&-eq-true,
}
use flist_walker.Text.{Text, len_utf8}
use flist_walker.Query.Pattern.{LiteralPattern}
use flist_walker.Query.Spans.{
  chars_equal, chars_at_front, range_from, literal_positions, or_nothing, exact_positions,
  scatter_positions, fuzzy_positions, start_differs, end_differs, scattered_hits, chars_before,
  regex_positions,
}

abbrev pub Below : ℕ → List ℕ → Type 0
Below n = All (λ p. p < n)

pub Below-le : (ps : List ℕ) {m n : ℕ} → m ≤ n → Below m ps → Below n ps
Below-le [] h b = tt
Below-le (p ∷ ps) h b = (omega arith, Below-le ps h b.1)

pub Below-append : (n : ℕ) (ps qs : List ℕ) → Below n ps → Below n qs → Below n (ps ++ qs)
Below-append n [] qs a b = b
Below-append n (p ∷ ps) qs a b = (a.0, Below-append n ps qs a.1 b)

pub Below-shift : (d n : ℕ) (ps : List ℕ) → Below n ps → Below (d + n) (map (λ p. d + p) ps)
Below-shift d n [] b = tt
Below-shift d n (p ∷ ps) b = (omega (arith, b.0), Below-shift d n ps b.1)

range_from-Below : (start n m : ℕ) → start + n ≤ m → Below m (range_from start n)
range_from-Below start zero m h = tt
range_from-Below start (suc n) m h = (omega arith, range_from-Below (start + 1) n m (omega arith))

chars_at_front-length :
    (text core : Text) (ic : Bool) → chars_at_front text core ic ≡ true → length core ≤ length text
unfolding chars_at_front
chars_at_front-length text [] ic h = omega arith
chars_at_front-length [] (d ∷ core) ic h = absurd (cc)
chars_at_front-length (c ∷ text) (d ∷ core) ic h =
    let more = (&&-eq-true (chars_equal c d ic) (chars_at_front text core ic) h).1 in
    omega (arith, chars_at_front-length text core ic more)

found-Below :
    (fits : ℕ → Bool) (start : ℕ) (text core : Text) (ic : Bool)
    → Below (start + length text) (or_nothing (literal_positions fits start text core ic))
unfolding literal_positions
found-Below fits start [] core ic = elim (Bool-cases (chars_at_front [] core ic && fits start)) [
  | inl found ↦
      let h = chars_at_front-length [] core ic (&&-eq-true (chars_at_front [] core ic) _ found).0 in
      rw (found, literal_positions) (range_from-Below start (length core) _ (omega arith))
  | inr missing ↦ rw (missing, literal_positions) tt
]
found-Below fits start (c ∷ text) core ic =
    elim (Bool-cases (chars_at_front (c ∷ text) core ic && fits start)) [
      | inl found ↦
          let h =
            chars_at_front-length (c ∷ text) core ic
              (&&-eq-true (chars_at_front (c ∷ text) core ic) _ found).0 in
          rw (found, literal_positions) (range_from-Below start (length core) _ (omega arith))
      | inr missing ↦
          rw (missing, literal_positions)
            (Below-le _ (omega arith) (found-Below fits (start + 1) text core ic))
    ]

scatter_positions-Below :
    (index : ℕ) (text query : Text) (ic : Bool)
    → Below (index + length text) (scatter_positions index text query ic).0
unfolding scatter_positions
scatter_positions-Below index [] query ic = tt
scatter_positions-Below index (c ∷ text) [] ic = tt
scatter_positions-Below index (c ∷ text) (d ∷ query) ic = elim (Bool-cases (chars_equal c d ic)) [
  | inl same ↦
      rw (same, scatter_positions)
        (omega arith, Below-le _ (omega arith) (scatter_positions-Below (index + 1) text query ic))
  | inr other ↦
      rw (other, scatter_positions)
        (Below-le _ (omega arith) (scatter_positions-Below (index + 1) text (d ∷ query) ic))
]

Below-if :
    (b : Bool) (n : ℕ) (ps qs : List ℕ) → Below n ps → Below n qs → Below n (if b then ps else qs)
Below-if true n ps qs a b = a
Below-if false n ps qs a b = b

pub exact_positions-Below :
    (text : Text) (pattern : LiteralPattern) (ic : Bool)
    → Below (length text) (exact_positions text pattern ic)
unfolding exact_positions
exact_positions-Below text pattern ic =
    Below-if _ _ [] _ tt (Below-le _ (omega arith) (found-Below _ 0 text pattern.core ic))

Below-nothing :
    (n : ℕ) (o : Option (List ℕ)) (ps : List ℕ)
    → Below n (or_nothing o)
    → Below n ps
    → Below n (elim o [ some found ↦ found | none ↦ ps ])
Below-nothing n none ps a b = b
Below-nothing n (some found) ps a b = a

pub fuzzy_positions-Below :
    (text : Text) (pattern : LiteralPattern) (ic : Bool)
    → Below (length text) (fuzzy_positions text pattern ic)
unfolding fuzzy_positions
fuzzy_positions-Below text pattern ic =
    let n = length text in
    let found = literal_positions (λ start. true) 0 text pattern.core ic in
    let scattered = scattered_hits text pattern.core ic in
    let hits : List ℕ = elim found [ some positions ↦ positions | none ↦ scattered ] in
    let whole : Below n (or_nothing found) =
      Below-le _ (omega arith) (found-Below (λ start. true) 0 text pattern.core ic) in
    let split = scatter_positions 0 text pattern.core ic in
    let apart : Below n split.0 =
      Below-le _ (omega arith) (scatter_positions-Below 0 text pattern.core ic) in
    let in_hits : Below n hits =
      Below-nothing n found scattered whole (Below-if (is_empty split.1) n split.0 [] apart tt) in
    let anchored : List ℕ = (if end_differs text pattern ic then [] else hits) in
    Below-if (start_differs text pattern ic) n [] anchored tt
      (Below-if (end_differs text pattern ic) n [] hits tt in_hits)

chars_before-le : (end : ℕ) (text : Text) → chars_before end text ≤ length text
unfolding chars_before
chars_before-le end [] = omega arith
chars_before-le end (c ∷ text) = ground (arith, chars_before-le (end - len_utf8 c) text)

range-Below :
    (before after n : ℕ) → before ≤ n → after ≤ n → Below n (range_from before (after - before))
range-Below before after n a b = elim (Bool-cases (leb before after)) [
  | inl h ↦ range_from-Below before (after - before) n (ground arith)
  | inr h ↦ let e : after - before ≡ 0 = ground arith in rw e tt
]

pub regex_positions-Below :
    (matches : List (ℕ × ℕ)) (text : Text) → Below (length text) (regex_positions matches text)
unfolding regex_positions
regex_positions-Below [] text = tt
regex_positions-Below ((start, end) ∷ matches) text =
    Below-if (start == end) _ _ _ (regex_positions-Below matches text) (
      Below-append _ (range_from (chars_before start text) _) _
        (range-Below (chars_before start text) (chars_before end text) (length text)
          (chars_before-le start text) (chars_before-le end text))
        (regex_positions-Below matches text))
