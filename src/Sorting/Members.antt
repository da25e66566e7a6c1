-- ===== src/Sorting/Members.antt =====
-- Sorting a list keeps its elements.
use flist_walker.Prelude.{
  ℕ, ◌≡◌, sym, subst, inl, inr, Bool, List, [], ◌∷◌, map, Member, here, there, Bool-cases,
}
use flist_walker.Sorting.{sort_by, insert_by}
use flist_walker.Search.Collect.Members.{Member-cons, Member-nil, Member-map}

Member-insert {ℓ} :
    {A : Type ℓ} (le : A → A → Bool) {z : A} (x : A) (xs : List A)
    → Member z (x ∷ xs)
    → Member z (insert_by le x xs)
unfolding insert_by
Member-insert le x [] m = m
Member-insert le {z} x (y ∷ ys) m = elim (Bool-cases (le x y)) [
  | inl h ↦ rw (h, insert_by) m
  | inr h ↦
      rw (h, insert_by)
        (elim (Member-cons m) [
          | inl e ↦ there y (Member-insert le x ys (subst (λ w. Member z (w ∷ ys)) e (here ys)))
          | inr k ↦ elim (Member-cons k) [
            | inl e ↦ subst (λ w. Member z (w ∷ insert_by le x ys)) e (here (insert_by le x ys))
            | inr l ↦ there y (Member-insert le x ys (there x l))
          ]
        ])
]

Member-sort_by {ℓ} :
    {A : Type ℓ} (le : A → A → Bool) {z : A} (xs : List A) → Member z xs → Member z (sort_by le xs)
unfolding sort_by
Member-sort_by le [] m = m
Member-sort_by le {z} (x ∷ xs) m = Member-insert le x (sort_by le xs) (elim (Member-cons m) [
  | inl e ↦ subst (λ w. Member z (w ∷ sort_by le xs)) e (here (sort_by le xs))
  | inr k ↦ there x (Member-sort_by le xs k)
])

Member-map_back {ℓ κ} :
    {A : Type ℓ} {B : Type κ} (f : A → B) {b : B} (xs : List A)
    → Member b (map f xs)
    → (a : A) × Member a xs × (b ≡ f a)
Member-map_back f [] m = absurd (Member-nil m)
Member-map_back f (x ∷ xs) m = elim (Member-cons m) [
  | inl e ↦ (x, here xs, e)
  | inr k ↦ let (a, l, e) = Member-map_back f xs k in (a, there x l, e)
]

pub Member-map_sort :
    {A : Type 0} (f : A → ℕ) (le : A → A → Bool) {n : ℕ} (xs : List A)
    → Member n (map f xs)
    → Member n (map f (sort_by le xs))
Member-map_sort f le xs m =
    let (a, k, e) = Member-map_back f xs m in
    subst (λ n. Member n (map f (sort_by le xs))) (sym e) (Member-map f (Member-sort_by le xs k))
