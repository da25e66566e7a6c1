-- ===== src/Text/Affix.antt =====
-- `==`, `starts_with`, `ends_with` and `contains` decide how a text is put together.
use flist_walker.Prelude.{
  ◌≡◌, refl, ap, inl, inr, true, [], ◌∷◌, ◌++◌, arith, ◌==◌, ==_iff, &&-eq-true, ||-eq-true,
}
use flist_walker.Text.{Text, text_eq, starts_with, ends_with, contains}

pub text_eq_refl : (t : Text) → text_eq t t ≡ true
unfolding text_eq
text_eq_refl [] = refl
text_eq_refl (c ∷ t) = ground (arith, text_eq_refl t)

pub eq_of_text_eq : (t u : Text) → text_eq t u ≡ true → t ≡ u
unfolding text_eq
eq_of_text_eq [] [] h = refl
eq_of_text_eq [] (d ∷ u) h = cc
eq_of_text_eq (c ∷ t) [] h = cc
eq_of_text_eq (c ∷ t) (d ∷ u) h = ground (arith, eq_of_text_eq t u)

pub starts_with-append : (p t : Text) → starts_with (p ++ t) p ≡ true
unfolding starts_with
starts_with-append [] [] = refl
starts_with-append [] (c ∷ t) = refl
starts_with-append (d ∷ p) t = ground (arith, starts_with-append p t)

pub split_of_starts_with : (t p : Text) → starts_with t p ≡ true → (rest : Text) × (t ≡ p ++ rest)
unfolding starts_with
split_of_starts_with [] [] h = ([], refl)
split_of_starts_with (c ∷ t) [] h = (c ∷ t, refl)
split_of_starts_with [] (d ∷ p) h = absurd (cc)
split_of_starts_with (c ∷ t) (d ∷ p) h =
    let (same, more) = &&-eq-true (c == d) (starts_with t p) h in
    let (rest, e) = split_of_starts_with t p more in
    let e' : c ≡ d = (==_iff c d).0 same in (rest, cc)

pub ends_with-append : (t p : Text) → ends_with (t ++ p) p ≡ true
unfolding ends_with
ends_with-append [] [] = refl
ends_with-append [] (c ∷ p) = ground (arith, text_eq_refl (c ∷ p))
ends_with-append (c ∷ t) p = ground (arith, ends_with-append t p)

pub split_of_ends_with : (t p : Text) → ends_with t p ≡ true → (pre : Text) × (t ≡ pre ++ p)
unfolding ends_with
split_of_ends_with [] [] h = ([], refl)
split_of_ends_with [] (d ∷ p) h = absurd (cc)
split_of_ends_with (c ∷ t) p h = elim (||-eq-true (text_eq (c ∷ t) p) (ends_with t p) h) [
  | inl same ↦ ([], eq_of_text_eq (c ∷ t) p same)
  | inr more ↦ let (pre, e) = split_of_ends_with t p more in (c ∷ pre, ap (◌∷◌ c) e)
]

starts_with→contains : (t p : Text) → starts_with t p ≡ true → contains t p ≡ true
unfolding contains starts_with
starts_with→contains [] [] h = refl
starts_with→contains [] (d ∷ p) h = h
starts_with→contains (c ∷ t) p h = ground arith

pub contains-append : (pre p rest : Text) → contains (pre ++ (p ++ rest)) p ≡ true
unfolding contains
contains-append [] p rest = starts_with→contains (p ++ rest) p (starts_with-append p rest)
contains-append (c ∷ pre) p rest = ground (arith, contains-append pre p rest)

pub split_of_contains :
    (t p : Text) → contains t p ≡ true → (pre : Text) × (rest : Text) × (t ≡ pre ++ (p ++ rest))
unfolding contains
split_of_contains [] [] h = ([], [], refl)
split_of_contains [] (d ∷ p) h = absurd (cc)
split_of_contains (c ∷ t) p h = elim (||-eq-true (starts_with (c ∷ t) p) (contains t p) h) [
  | inl front ↦ let (rest, e) = split_of_starts_with (c ∷ t) p front in ([], rest, e)
  | inr more ↦ let (pre, rest, e) = split_of_contains t p more in (c ∷ pre, rest, ap (◌∷◌ c) e)
]
