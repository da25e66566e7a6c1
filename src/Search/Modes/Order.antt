-- ===== src/Search/Modes/Order.antt =====
-- The comparisons of the sort modes are total orders, so an unstable sort has one result.
use flist_walker.Prelude.{
  ℕ, ◌≡◌, refl, sym, ap, ◌∙◌, Bool, true, false, Option, none, some, [], ◌∷◌, arith,
}
use Prim.Native.Nat.{compare, Ordering}
use flist_walker.Text.{Text}
use flist_walker.Sorting.{IsOrder}
use flist_walker.Search.Rank.{then_with, is_le}
use flist_walker.Search.Modes.{compare_text, reverse, compare_optional_sort_value}

pub record IsLawful {A : Type 0} (cmp : A → A → Ordering) : Type 0 where
  pub swap : (a b : A) → cmp b a ≡ reverse (cmp a b)
  pub lt_trans : (a b c : A) → cmp a b ≡ Ordering.lt → cmp b c ≡ Ordering.lt → cmp a c ≡ Ordering.lt
  pub eq_left : (a b c : A) → cmp a b ≡ Ordering.eq → cmp a c ≡ cmp b c

pub compare-IsLawful : IsLawful compare
compare-IsLawful = record {
  swap = λ a b. ground arith;
  lt_trans = λ a b c h k. ground arith;
  eq_left = λ a b c h. ground arith;
}

pub eq_right :
    {A : Type 0} (cmp : A → A → Ordering)
    → IsLawful cmp
    → (a b c : A) → cmp b c ≡ Ordering.eq
    → cmp a c ≡ cmp a b
eq_right cmp l a b c h = l.swap c a ∙ ap reverse (sym (l.eq_left b c a h)) ∙ sym (l.swap b a)

pub then-IsLawful :
    {A : Type 0} (f g : A → A → Ordering)
    → IsLawful f
    → IsLawful g
    → IsLawful (λ a b. then_with (f a b) (g a b))
then-IsLawful f g lf lg = record {
  swap = λ a b. swap_then (f a b) (g a b) (f b a) (g b a) (lf.swap a b) (lg.swap a b);
  lt_trans = λ a b c h k.
      lt_then (f a b) (g a b) (f b c) (g b c) (f a c) (g a c) (lf.lt_trans a b c) (lf.eq_left a b c)
        (eq_right f lf a b c) (lg.lt_trans a b c) h k;
  eq_left = λ a b c h.
      eq_then (f a b) (g a b) (f a c) (f b c) (g a c) (g b c) (lf.eq_left a b c) (lg.eq_left a b c)
        h;
}
  where
    swap_then :
        (x y x' y' : Ordering)
        → x' ≡ reverse x
        → y' ≡ reverse y
        → then_with x' y' ≡ reverse (then_with x y)
    swap_then Ordering.lt y x' y' h k = rw h refl
    swap_then Ordering.gt y x' y' h k = rw h refl
    swap_then Ordering.eq y x' y' h k = rw (h, k) refl

    lt_then :
        (ab gab bc gbc ac gac : Ordering)
        → (ab ≡ Ordering.lt → bc ≡ Ordering.lt → ac ≡ Ordering.lt)
        → (ab ≡ Ordering.eq → ac ≡ bc)
        → (bc ≡ Ordering.eq → ac ≡ ab)
        → (gab ≡ Ordering.lt → gbc ≡ Ordering.lt → gac ≡ Ordering.lt)
        → then_with ab gab ≡ Ordering.lt
        → then_with bc gbc ≡ Ordering.lt
        → then_with ac gac ≡ Ordering.lt
    lt_then ab gab bc gbc ac gac p q r s h k = ground arith

    eq_then :
        (ab gab ac bc gac gbc : Ordering)
        → (ab ≡ Ordering.eq → ac ≡ bc)
        → (gab ≡ Ordering.eq → gac ≡ gbc)
        → then_with ab gab ≡ Ordering.eq
        → then_with ac gac ≡ then_with bc gbc
    eq_then ab gab ac bc gac gbc p q h = ground arith

pub on-IsLawful :
    {A B : Type 0} (f : B → A) (cmp : A → A → Ordering)
    → IsLawful cmp
    → IsLawful (λ a b. cmp (f a) (f b))
on-IsLawful f cmp l = record {
  swap = λ a b. l.swap (f a) (f b);
  lt_trans = λ a b c. l.lt_trans (f a) (f b) (f c);
  eq_left = λ a b c. l.eq_left (f a) (f b) (f c);
}

pub reverse-IsLawful :
    {A : Type 0} (cmp : A → A → Ordering) → IsLawful cmp → IsLawful (λ a b. reverse (cmp a b))
reverse-IsLawful cmp l = record {
  swap = λ a b. ap reverse (l.swap a b);
  lt_trans = λ a b c h k.
      gt_trans (cmp a b) (cmp b c) (cmp a c) (cmp b a) (cmp c b) (cmp c a) (l.swap a b) (l.swap b c)
        (l.swap a c) (l.lt_trans c b a) h k;
  eq_left = λ a b c h. ap reverse (l.eq_left a b c (ground (arith, h)));
}
  where
    gt_trans :
        (ab bc ac ba cb ca : Ordering)
        → ba ≡ reverse ab
        → cb ≡ reverse bc
        → ca ≡ reverse ac
        → (cb ≡ Ordering.lt → ba ≡ Ordering.lt → ca ≡ Ordering.lt)
        → reverse ab ≡ Ordering.lt
        → reverse bc ≡ Ordering.lt
        → reverse ac ≡ Ordering.lt
    gt_trans ab bc ac ba cb ca p q r t h k = ground arith

text_swap : (a b : Text) → compare_text b a ≡ reverse (compare_text a b)
unfolding compare_text
text_swap [] [] = refl
text_swap [] (d ∷ t) = refl
text_swap (c ∷ s) [] = refl
text_swap (c ∷ s) (d ∷ t) = ground (arith, text_swap s t)

text_lt_trans :
    (a b c : Text)
    → compare_text a b ≡ Ordering.lt
    → compare_text b c ≡ Ordering.lt
    → compare_text a c ≡ Ordering.lt
unfolding compare_text
text_lt_trans [] [] c h k = k
text_lt_trans [] (d ∷ t) [] h k = absurd (cc)
text_lt_trans [] (d ∷ t) (e ∷ u) h k = refl
text_lt_trans (c ∷ s) [] u h k = absurd (cc)
text_lt_trans (c ∷ s) (d ∷ t) [] h k = absurd (cc)
text_lt_trans (c ∷ s) (d ∷ t) (e ∷ u) h k = ground (arith, text_lt_trans s t u)

text_eq_left : (a b c : Text) → compare_text a b ≡ Ordering.eq → compare_text a c ≡ compare_text b c
unfolding compare_text
text_eq_left [] [] c h = refl
text_eq_left [] (d ∷ t) c h = absurd (cc)
text_eq_left (c ∷ s) [] u h = absurd (cc)
text_eq_left (c ∷ s) (d ∷ t) [] h = refl
text_eq_left (c ∷ s) (d ∷ t) (e ∷ u) h = ground (arith, text_eq_left s t u)

pub compare_text-IsLawful : IsLawful compare_text
compare_text-IsLawful = record {
  swap = text_swap;
  lt_trans = text_lt_trans;
  eq_left = text_eq_left;
}

abbrev pub compare_values : Bool → Option ℕ → Option ℕ → Ordering
compare_values desc a b = compare_optional_sort_value a b desc

values_swap :
    (desc : Bool) (a b : Option ℕ) → compare_values desc b a ≡ reverse (compare_values desc a b)
unfolding compare_optional_sort_value
values_swap desc none none = refl
values_swap desc none (some n) = refl
values_swap desc (some m) none = refl
values_swap true (some m) (some n) = ground arith
values_swap false (some m) (some n) = ground arith

values_lt_trans :
    (desc : Bool) (a b c : Option ℕ)
    → compare_values desc a b ≡ Ordering.lt
    → compare_values desc b c ≡ Ordering.lt
    → compare_values desc a c ≡ Ordering.lt
unfolding compare_optional_sort_value
values_lt_trans desc none none c h k = absurd (cc)
values_lt_trans desc none (some n) c h k = absurd (cc)
values_lt_trans desc (some m) none none h k = absurd (cc)
values_lt_trans desc (some m) none (some n) h k = absurd (cc)
values_lt_trans desc (some m) (some n) none h k = refl
values_lt_trans true (some m) (some n) (some o) h k = ground arith
values_lt_trans false (some m) (some n) (some o) h k = ground arith

values_eq_left :
    (desc : Bool) (a b c : Option ℕ)
    → compare_values desc a b ≡ Ordering.eq
    → compare_values desc a c ≡ compare_values desc b c
unfolding compare_optional_sort_value
values_eq_left desc none none c h = refl
values_eq_left desc none (some n) c h = absurd (cc)
values_eq_left desc (some m) none c h = absurd (cc)
values_eq_left desc (some m) (some n) none h = refl
values_eq_left true (some m) (some n) (some o) h = ground arith
values_eq_left false (some m) (some n) (some o) h = ground arith

pub compare_values-IsLawful : (desc : Bool) → IsLawful (compare_values desc)
compare_values-IsLawful desc = record {
  swap = values_swap desc;
  lt_trans = values_lt_trans desc;
  eq_left = values_eq_left desc;
}

-- A lawful comparison is a total order on values that it finds equal only where they are.
pub IsLawful-IsOrder :
    {A : Type 0} (cmp : A → A → Ordering) (P : A → Type 0)
    → IsLawful cmp
    → ((a b : A) → P a → P b → cmp a b ≡ Ordering.eq → a ≡ b)
    → IsOrder (λ a b. is_le (cmp a b)) P
IsLawful-IsOrder cmp P l same = record {
  total = λ a b pa pb h. total_of (cmp a b) (cmp b a) (l.swap a b) h;
  trans = λ a b c pa pb pc h k.
      trans_of (cmp a b) (cmp b c) (cmp a c) (l.lt_trans a b c) (l.eq_left a b c)
        (eq_right cmp l a b c) h k;
  antisym = λ a b pa pb h k. same a b pa pb (eq_of (cmp a b) (cmp b a) (l.swap a b) h k);
}
  where
    total_of : (ab ba : Ordering) → ba ≡ reverse ab → is_le ab ≡ false → is_le ba ≡ true
    total_of ab ba s h = ground arith

    trans_of :
        (ab bc ac : Ordering)
        → (ab ≡ Ordering.lt → bc ≡ Ordering.lt → ac ≡ Ordering.lt)
        → (ab ≡ Ordering.eq → ac ≡ bc)
        → (bc ≡ Ordering.eq → ac ≡ ab)
        → is_le ab ≡ true
        → is_le bc ≡ true
        → is_le ac ≡ true
    trans_of ab bc ac p q r h k = ground arith

    eq_of :
        (ab ba : Ordering) → ba ≡ reverse ab → is_le ab ≡ true → is_le ba ≡ true → ab ≡ Ordering.eq
    eq_of ab ba s h k = ground arith
