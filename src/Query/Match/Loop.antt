-- ===== src/Query/Match/Loop.antt =====
-- The loop of literal_occurrence_count in rust/src/query/compiled.rs ends.
use flist_walker.Prelude.{
  ℕ, zero, suc, ◌≤◌, ◌<◌, ◌≡◌, refl, ap, inl, inr, Option, none, some, arith, length, Option-cases,
}
use flist_walker.Text.{Text, after_find}
use flist_walker.Text.Occurrences.{split_of_after_find}
use flist_walker.Query.Match.{count_from, literal_occurrence_count}
use flist_walker.Query.Match.Literal.{length-around, is_empty_of_pos}

-- What a search goes on with is shorter than what it began with.
after_find_shorter :
    (text needle rest : Text)
    → 0 < length needle
    → after_find text needle ≡ some rest
    → length rest < length text
after_find_shorter text needle rest long found =
    let (pre, e) = split_of_after_find text needle rest found in
    omega (arith, length-around pre needle rest e)

-- Fuel that is enough does not change the count.
count_from_fuel :
    (fuel more : ℕ) (text needle : Text)
    → 0 < length needle
    → length text ≤ fuel
    → length text ≤ more
    → count_from fuel text needle ≡ count_from more text needle
unfolding count_from
count_from_fuel zero zero text needle long h h' = refl
count_from_fuel zero (suc more) text needle long h h' =
    elim (Option-cases (after_find text needle)) [
      | inl missed ↦ rw (missed, count_from) refl
      | inr (rest, found) ↦ absurd (omega (arith, after_find_shorter text needle rest long found))
    ]
count_from_fuel (suc fuel) zero text needle long h h' =
    elim (Option-cases (after_find text needle)) [
      | inl missed ↦ rw (missed, count_from) refl
      | inr (rest, found) ↦ absurd (omega (arith, after_find_shorter text needle rest long found))
    ]
count_from_fuel (suc fuel) (suc more) text needle long h h' =
    elim (Option-cases (after_find text needle)) [
      | inl missed ↦ rw (missed, count_from) refl
      | inr (rest, found) ↦
          let shorter = after_find_shorter text needle rest long found in
          rw (found, count_from)
            (ap suc (
              count_from_fuel fuel more rest needle long (omega (arith, shorter))
                (omega (arith, shorter))))
    ]

-- The rest of the loop, behind one search.
abbrev pub count_behind : Text → Option Text → ℕ
count_behind needle none = 0
count_behind needle (some rest) = suc (literal_occurrence_count rest needle)

-- For a needle that is not empty, the loop that counts occurrences, which runs on fuel, keeps the
-- equation of the loop without fuel: it counts one for a search that finds the needle, and goes on
-- behind it with a text that is shorter, so that it ends.
pub literal_occurrence_count_ends :
    (text needle : Text)
    → 0 < length needle
    → (literal_occurrence_count text needle ≡ count_behind needle (after_find text needle))
      × ((rest : Text) → after_find text needle ≡ some rest → length rest < length text)
unfolding literal_occurrence_count count_from
literal_occurrence_count_ends text needle long = (
  rw (is_empty_of_pos needle long) (one_turn (length text) (omega arith)),
  λ rest. after_find_shorter text needle rest long,
)
  where
    one_turn :
        (fuel : ℕ)
        → length text ≤ fuel
        → count_from fuel text needle ≡ count_behind needle (after_find text needle)
    one_turn zero h = elim (Option-cases (after_find text needle)) [
      | inl missed ↦ rw missed refl
      | inr (rest, found) ↦ absurd (omega (arith, after_find_shorter text needle rest long found))
    ]
    one_turn (suc fuel) h = elim (Option-cases (after_find text needle)) [
      | inl missed ↦ rw (missed, count_from) refl
      | inr (rest, found) ↦
          let shorter = after_find_shorter text needle rest long found in
          rw (found, count_from, is_empty_of_pos needle long)
            (ap suc (
              count_from_fuel fuel (length rest) rest needle long (omega (arith, shorter))
                (omega arith)))
    ]
