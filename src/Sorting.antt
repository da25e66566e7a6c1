-- ===== src/Sorting.antt =====
-- The sorts of Rust's slices, by a comparison. `sort_unstable_by` is modelled by insertion: where the
-- comparison is a total order on the elements there is only one sorted arrangement of them.
pub mod Selection
pub mod Members
use flist_walker.Prelude.{
  ◌≡◌, refl, sym, ap₂, ◌∙◌, subst, inl, inr, Bool, true, false, List, [], ◌∷◌, arith, all, All,
  if◌then◌else◌, Bool-cases,
}
use mathlib.Core.List.Permᴰ
use mathlib.Core.List.{Permᴰ}

-- `le x y` says that `x` does not come after `y`.
unfoldable pub insert_by {ℓ} : {A : Type ℓ} → (A → A → Bool) → A → List A → List A
insert_by le x [] = x ∷ []
insert_by le x (y ∷ ys) = let rest = insert_by le x ys in if le x y then x ∷ y ∷ ys else y ∷ rest

unfoldable pub sort_by {ℓ} : {A : Type ℓ} → (A → A → Bool) → List A → List A
unfolding insert_by
sort_by le [] = []
sort_by le (x ∷ xs) = insert_by le x (sort_by le xs)

abbrev pub IsSorted {ℓ} : {A : Type ℓ} → (A → A → Bool) → List A → Type ℓ
IsSorted le [] = Unit
IsSorted le (x ∷ xs) = All (λ y. le x y ≡ true) xs × IsSorted le xs

-- A total order on the values for which `P` holds.
pub record IsOrder {ℓ} {A : Type ℓ} (le : A → A → Bool) (P : A → Type ℓ) : Type ℓ where
  pub total : (x y : A) → P x → P y → le x y ≡ false → le y x ≡ true
  pub trans : (x y z : A) → P x → P y → P z → le x y ≡ true → le y z ≡ true → le x z ≡ true
  pub antisym : (x y : A) → P x → P y → le x y ≡ true → le y x ≡ true → x ≡ y

pub All-perm {ℓ κ} :
    {A : Type ℓ} (P : A → Type κ) {xs ys : List A} → Permᴰ xs ys → All P xs → All P ys
All-perm P Permᴰ.nil h = tt
All-perm P (Permᴰ.cons e d) h = (subst P e h.0, All-perm P d h.1)
All-perm P (Permᴰ.swap e f) h = (subst P f h.1.0, (subst P e h.0, h.1.1))
All-perm P (Permᴰ.trans d e) h = All-perm P e (All-perm P d h)

module _ {ℓ} {A : Type ℓ} (le : A → A → Bool) where
  pub insert_by-perm : (x : A) (xs : List A) → Permᴰ (insert_by le x xs) (x ∷ xs)
  unfolding insert_by
  insert_by-perm x [] = Permᴰ.refl (x ∷ [])
  insert_by-perm x (y ∷ ys) = elim (Bool-cases (le x y)) [
    | inl h ↦ rw (h, insert_by) (Permᴰ.refl (x ∷ y ∷ ys))
    | inr h ↦
        rw (h, insert_by)
          (Permᴰ.trans (Permᴰ.cons refl (insert_by-perm x ys)) (Permᴰ.swap refl refl))
  ]

  pub sort_by-perm : (xs : List A) → Permᴰ (sort_by le xs) xs
  unfolding sort_by
  sort_by-perm [] = Permᴰ.nil
  sort_by-perm (x ∷ xs) =
      Permᴰ.trans (insert_by-perm x (sort_by le xs)) (Permᴰ.cons refl (sort_by-perm xs))

  -- A sorted list is left as it is.
  pub sort_by_sorted : (xs : List A) → IsSorted le xs → sort_by le xs ≡ xs
  unfolding sort_by
  sort_by_sorted [] s = refl
  sort_by_sorted (x ∷ xs) s = rw (sort_by_sorted xs s.1) (front x xs s.0)
    where
      front : (x : A) (xs : List A) → All (λ y. le x y ≡ true) xs → insert_by le x xs ≡ x ∷ xs
      front x [] h = refl
      front x (y ∷ ys) h = rw (h.0, insert_by)

  module _ (P : A → Type ℓ) (order : IsOrder le P) where
    le-All :
        (x y : A) (ys : List A)
        → P x
        → P y
        → All P ys
        → le x y ≡ true
        → All (λ z. le y z ≡ true) ys
        → All (λ z. le x z ≡ true) ys
    le-All x y [] px py ps h all = tt
    le-All x y (z ∷ ys) px py ps h all =
        (order.trans x y z px py ps.0 h all.0, le-All x y ys px py ps.1 h all.1)

    insert_by-IsSorted :
        (x : A) (xs : List A) → P x → All P xs → IsSorted le xs → IsSorted le (insert_by le x xs)
    unfolding insert_by
    insert_by-IsSorted x [] px ps s = (tt, tt)
    insert_by-IsSorted x (y ∷ ys) px ps s = elim (Bool-cases (le x y)) [
      | inl h ↦ rw (h, insert_by) ((h, le-All x y ys px ps.0 ps.1 h s.0), s)
      | inr h ↦
          let before = order.total x y px ps.0 h in
          rw (h, insert_by)
            (
              All-perm (λ z. le y z ≡ true) (Permᴰ.symm (insert_by-perm x ys)) (before, s.0),
              insert_by-IsSorted x ys px ps.1 s.1,
            )
    ]

    pub sort_by-IsSorted : (xs : List A) → All P xs → IsSorted le (sort_by le xs)
    unfolding sort_by
    sort_by-IsSorted [] ps = tt
    sort_by-IsSorted (x ∷ xs) ps =
        insert_by-IsSorted x (sort_by le xs) ps.0 (All-perm P (Permᴰ.symm (sort_by-perm xs)) ps.1)
          (sort_by-IsSorted xs ps.1)

    insert_by_comm :
        (x y : A) (xs : List A)
        → P x
        → P y
        → All P xs
        → insert_by le x (insert_by le y xs) ≡ insert_by le y (insert_by le x xs)
    unfolding insert_by
    insert_by_comm x y [] px py ps = ground (arith, order.total x y px py, order.antisym x y px py)
    insert_by_comm x y (z ∷ zs) px py ps = ground (
      arith,
      order.total x y px py,
      order.antisym x y px py,
      order.total x z px ps.0,
      order.total y z py ps.0,
      order.trans x y z px py ps.0,
      order.trans y x z py px ps.0,
      insert_by_comm x y zs px py ps.1,
    )

    sort_by_perm_eq : {xs ys : List A} → Permᴰ xs ys → All P xs → sort_by le xs ≡ sort_by le ys
    unfolding sort_by
    sort_by_perm_eq Permᴰ.nil ps = refl
    sort_by_perm_eq (Permᴰ.cons e d) ps = ap₂ (insert_by le) e (sort_by_perm_eq d ps.1)
    sort_by_perm_eq (Permᴰ.swap {a = a} {b = b} {l = l} e f) ps =
        insert_by_comm a b (sort_by le l) ps.0 ps.1.0
          (All-perm P (Permᴰ.symm (sort_by-perm l)) ps.1.1)
        ∙ ap₂ (λ u v. insert_by le u (insert_by le v (sort_by le l))) f e
    sort_by_perm_eq (Permᴰ.trans d e) ps =
        sort_by_perm_eq d ps ∙ sort_by_perm_eq e (All-perm P d ps)

    -- Sorting does not depend on the arrangement that it starts from.
    pub sort_by_unique :
        {xs ys : List A} → Permᴰ xs ys → All P xs → IsSorted le xs → xs ≡ sort_by le ys
    sort_by_unique {xs} d ps s = sym (sort_by_sorted xs s) ∙ sort_by_perm_eq d ps
