-- ===== src/Sorting/Selection.antt =====
-- `select_nth_unstable_by`, by what its documentation promises, and the first elements of a sort.
use flist_walker.Prelude.{
  ℕ, suc, ◌≡◌, refl, sym, ap, ◌∙◌, subst, Bool, true, List, [], ◌∷◌, ◌++◌, append_assoc, arith,
  length, take, all, All, length-append,
}
use mathlib.Core.List.Permᴰ
use mathlib.Core.List.{Permᴰ}
use flist_walker.Sorting.{
  sort_by, IsSorted, IsOrder, All-perm, sort_by-perm, sort_by-IsSorted, sort_by_unique,
}

-- `ys` is an arrangement of `xs` whose element at index `k` stands where a sort would put it: none
-- before it is greater and none behind it is less.
pub record IsSelection {ℓ} {A : Type ℓ} (le : A → A → Bool) (k : ℕ) (xs ys : List A) : Type ℓ where
  pub perm : Permᴰ ys xs
  pub before : List A
  pub nth : A
  pub after : List A
  pub split : ys ≡ before ++ (nth ∷ after)
  pub index : length before ≡ k
  pub not_greater : All (λ x. le x nth ≡ true) before
  pub not_less : All (λ y. le nth y ≡ true) after

All-append {ℓ κ} :
    {A : Type ℓ} (P : A → Type κ) (xs ys : List A) → All P xs → All P ys → All P (xs ++ ys)
All-append P [] ys hx hy = hy
All-append P (x ∷ xs) ys hx hy = (hx.0, All-append P xs ys hx.1 hy)

All-split {ℓ κ} :
    {A : Type ℓ} (P : A → Type κ) (xs ys : List A) → All P (xs ++ ys) → All P xs × All P ys
All-split P [] ys h = (tt, h)
All-split P (x ∷ xs) ys h = let (a, b) = All-split P xs ys h.1 in ((h.0, a), b)

All-map {ℓ κ μ} :
    {A : Type ℓ} (P : A → Type κ) (Q : A → Type μ)
    → ((x : A) → P x → Q x)
    → (xs : List A) → All P xs
    → All Q xs
All-map P Q f [] h = tt
All-map P Q f (x ∷ xs) h = (f x h.0, All-map P Q f xs h.1)

All-both {ℓ κ μ} :
    {A : Type ℓ} (P : A → Type κ) (Q : A → Type μ) (xs : List A)
    → All P xs
    → All Q xs
    → All (λ x. P x × Q x) xs
All-both P Q [] p q = tt
All-both P Q (x ∷ xs) p q = ((p.0, q.0), All-both P Q xs p.1 q.1)

pub length-perm {ℓ} : {A : Type ℓ} {xs ys : List A} → Permᴰ xs ys → length xs ≡ length ys
length-perm Permᴰ.nil = refl
length-perm (Permᴰ.cons e d) = ap suc (length-perm d)
length-perm (Permᴰ.swap e f) = refl
length-perm (Permᴰ.trans d e) = length-perm d ∙ length-perm e

pub take-append {ℓ} : {A : Type ℓ} (xs ys : List A) → take (length xs) (xs ++ ys) ≡ xs
take-append [] [] = refl
take-append [] (y ∷ ys) = refl
take-append (x ∷ xs) ys = ap (◌∷◌ x) (take-append xs ys)

module _ {ℓ} {A : Type ℓ} (le : A → A → Bool) where
  IsSorted-append :
      (xs ys : List A)
      → IsSorted le xs
      → IsSorted le ys
      → All (λ x. All (λ y. le x y ≡ true) ys) xs
      → IsSorted le (xs ++ ys)
  IsSorted-append [] ys sx sy h = sy
  IsSorted-append (x ∷ xs) ys sx sy h =
      (All-append (λ z. le x z ≡ true) xs ys sx.0 h.0, IsSorted-append xs ys sx.1 sy h.1)

  module _ (P : A → Type ℓ) (order : IsOrder le P) where
    All-le :
        (x p : A) (ys : List A)
        → P x
        → P p
        → All P ys
        → le x p ≡ true
        → All (λ y. le p y ≡ true) ys
        → All (λ y. le x y ≡ true) ys
    All-le x p [] px pp ps h all = tt
    All-le x p (y ∷ ys) px pp ps h all =
        (order.trans x p y px pp ps.0 h all.0, All-le x p ys px pp ps.1 h all.1)

    le_refl_at : (x : A) → P x → le x x ≡ true
    le_refl_at x px = ground (arith, order.total x x px px)

    -- The elements up to the selected one, sorted, are the first elements of the whole sort.
    pub sort_by-selection :
        (k : ℕ) (xs ys : List A)
        → All P xs
        → IsSelection le k xs ys
        → sort_by le (take (suc k) ys) ≡ take (suc k) (sort_by le xs)
    sort_by-selection k xs ys ps s =
        let front = s.before ++ (s.nth ∷ []) in
        let regroup : ys ≡ front ++ s.after =
          s.split ∙ sym (append_assoc s.before (s.nth ∷ []) s.after) in
        let size : length front ≡ suc k =
          length-append s.before (s.nth ∷ []) ∙ ground (arith, s.index) in
        let (pf, pa) =
          All-split P front s.after (subst (All P) regroup (All-perm P (Permᴰ.symm s.perm) ps)) in
        let (pb, pn) = All-split P s.before (s.nth ∷ []) pf in
        let upto =
          All-append (λ x. le x s.nth ≡ true) s.before (s.nth ∷ []) s.not_greater
            (le_refl_at s.nth pn.0, tt) in
        let sf = sort_by-perm le front in
        let sa = sort_by-perm le s.after in
        let pa' = All-perm P (Permᴰ.symm sa) pa in
        let behind = All-perm (λ y. le s.nth y ≡ true) (Permᴰ.symm sa) s.not_less in
        let across =
          All-map _ (λ x. All (λ y. le x y ≡ true) (sort_by le s.after))
            (λ x h. All-le x s.nth (sort_by le s.after) h.0 pn.0 pa' h.1 behind) (sort_by le front)
            (All-perm _ (Permᴰ.symm sf) (All-both P (λ x. le x s.nth ≡ true) front pf upto)) in
        let sorted =
          IsSorted-append (sort_by le front) (sort_by le s.after)
            (sort_by-IsSorted le P order front pf) (sort_by-IsSorted le P order s.after pa)
            across in
        let perm : Permᴰ (sort_by le front ++ sort_by le s.after) xs =
          Permᴰ.trans (Permᴰ.append_right (sort_by le s.after) sf)
            (Permᴰ.trans (Permᴰ.append_left front sa) (subst (λ l. Permᴰ l xs) regroup s.perm)) in
        let whole = sort_by_unique le P order perm (All-perm P (Permᴰ.symm perm) ps) sorted in
        let size' : length (sort_by le front) ≡ suc k = length-perm sf ∙ size in
        ap (sort_by le) (
          ap (take (suc k)) regroup
          ∙ ap (λ n. take n (front ++ s.after)) (sym size)
          ∙ take-append front s.after)
        ∙ sym (take-append (sort_by le front) (sort_by le s.after))
        ∙ ap (λ n. take n (sort_by le front ++ sort_by le s.after)) size'
        ∙ ap (take (suc k)) whole
