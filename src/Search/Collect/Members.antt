-- ===== src/Search/Collect/Members.antt =====
-- Which indices a collection finds: those whose entries evaluate to a match.
use flist_walker.Prelude.{
  ℕ, zero, suc, ◌+◌, ◌≡◌, refl, sym, ◌∙◌, subst, ◌⊎◌, inl, inr, Option, none, some, List, [], ◌∷◌,
  map, arith, get_elem?, Member, here, there, Option-cases, some_inj,
}
use flist_walker.Search.Collect.{collect_indices, collect_all}

pub Member-map {ℓ κ} :
    {A : Type ℓ} {B : Type κ} (f : A → B) {x : A} {xs : List A}
    → Member x xs
    → Member (f x) (map f xs)
Member-map f (here xs) = here (map f xs)
Member-map f (there y m) = there (f y) (Member-map f m)

pub Member-cons {ℓ} :
    {A : Type ℓ} {x y : A} {ys : List A} → Member x (y ∷ ys) → (x ≡ y) ⊎ Member x ys
Member-cons (here ys) = inl refl
Member-cons (there y m) = inr m

pub Member-nil {ℓ} : {A : Type ℓ} {x : A} → ¬ Member x []
Member-nil m = elim m [ ]

module _ {E S : Type 0} (eval : E → ℕ → ℕ → Option S) (index_of : S → ℕ) where
  -- Whatever its ordinal, the entry evaluates to a match with its index.
  abbrev pub Matches : E → ℕ → Type 0
  Matches entry index =
      (ordinal : ℕ) → (s : S) × (eval entry index ordinal ≡ some s) × (index_of s ≡ index)

  -- Whatever its ordinal, the entry evaluates to nothing.
  abbrev pub Misses : E → ℕ → Type 0
  Misses entry index = (ordinal : ℕ) → eval entry index ordinal ≡ none

  abbrev indices_found : List S → List ℕ
  indices_found = map index_of

  found_here :
      {entry : E} {index : ℕ} (ordinal : ℕ) (rest : List S)
      → Matches entry index
      → Member index (
          indices_found (elim (eval entry index ordinal) [ none ↦ rest | some item ↦ item ∷ rest ]))
  found_here ordinal rest m =
      let (s, e, i) = m ordinal in
      rw e (subst (λ n. Member n (indices_found (s ∷ rest))) i (here (indices_found rest)))

  found_later :
      (r : Option S) {index : ℕ} (rest : List S)
      → Member index (indices_found rest)
      → Member index (indices_found (elim r [ none ↦ rest | some item ↦ item ∷ rest ]))
  found_later none rest m = m
  found_later (some s) rest m = there (index_of s) m

  pub collect_indices_complete :
      (entries : List E) {index : ℕ} (entry : E) {indices : List ℕ} (ordinal : ℕ)
      → Member index indices
      → get_elem? entries index ≡ some entry
      → Matches entry index
      → Member index (indices_found (collect_indices eval entries ordinal indices))
  unfolding collect_indices
  collect_indices_complete entries entry ordinal (here rest) h m =
      rw (h, collect_indices)
        (found_here ordinal (collect_indices eval entries (ordinal + 1) rest) m)
  collect_indices_complete entries entry ordinal (there other {xs} k) h m =
      let ih = collect_indices_complete entries entry (ordinal + 1) k h m in
      elim (Option-cases (get_elem? entries other)) [
        | inl e ↦ rw (e, collect_indices) ih
        | inr (o, e) ↦ rw (e, collect_indices) (found_later (eval o other ordinal) _ ih)
      ]

  pub collect_all_complete :
      (start : ℕ) (entries : List E) (k : ℕ) (entry : E)
      → get_elem? entries k ≡ some entry
      → Matches entry (start + k)
      → Member (start + k) (indices_found (collect_all eval start entries))
  unfolding collect_all
  collect_all_complete start [] k entry h m = absurd (cc)
  collect_all_complete start (e ∷ entries) zero entry h m =
      let at : start + zero ≡ start = omega arith in
      let m' : Matches e start = rw (some_inj h, sym at) m in
      rw at (found_here start (collect_all eval (start + 1) entries) m')
  collect_all_complete start (e ∷ entries) (suc k) entry h m =
      let at : start + suc k ≡ (start + 1) + k = omega arith in
      rw at (
        found_later (eval e start start) _
          (collect_all_complete (start + 1) entries k entry h (subst (Matches entry) at m)))

  module _
      (labelled : (entry : E) (index ordinal : ℕ) (s : S)
        → eval entry index ordinal ≡ some s
        → index_of s ≡ index) where
    -- An entry that was evaluated to a match under this index.
    abbrev pub FoundAt : List E → ℕ → ℕ → Type 0
    FoundAt entries k index =
        (entry : E) × (ordinal : ℕ) × (s : S) × (get_elem? entries k ≡ some entry)
        × (eval entry index ordinal ≡ some s)

    of_step :
        (entries : List E) (other ordinal k : ℕ) (o : E) (rest : List S) (index : ℕ)
        (K : ℕ → Type 0)
        → ((s : S) → eval o other ordinal ≡ some s → K other)
        → (Member index (indices_found rest) → K index)
        → Member index
            (indices_found (elim (eval o other ordinal) [ none ↦ rest | some item ↦ item ∷ rest ]))
        → K index
    of_step entries other ordinal k o rest index K first later m =
        elim (Option-cases (eval o other ordinal)) [
          | inl e ↦ later (rw e at m)
          | inr (s, e) ↦ elim (Member-cons (rw e at m)) [
            | inl same ↦ subst K (sym (same ∙ labelled o other ordinal s e)) (first s e)
            | inr k ↦ later k
          ]
        ]

    pub collect_indices-found :
        (entries : List E) (indices : List ℕ) (index ordinal : ℕ)
        → Member index (indices_found (collect_indices eval entries ordinal indices))
        → FoundAt entries index index
    unfolding collect_indices
    collect_indices-found entries [] index ordinal m = absurd (Member-nil m)
    collect_indices-found entries (other ∷ indices) index ordinal m =
        let ih = collect_indices-found entries indices index (ordinal + 1) in
        elim (Option-cases (get_elem? entries other)) [
          | inl e ↦ ih (rw (e, collect_indices) at m)
          | inr (o, e) ↦
              of_step entries other ordinal index o _ index (λ n. FoundAt entries n n)
                (λ s e'. (o, ordinal, s, e, e')) ih (rw (e, collect_indices) at m)
        ]

    pub collect_all-found :
        (entries : List E) (start index : ℕ)
        → Member index (indices_found (collect_all eval start entries))
        → (k : ℕ) × (index ≡ start + k) × FoundAt entries k index
    unfolding collect_all
    collect_all-found [] start index m = absurd (Member-nil m)
    collect_all-found (e ∷ entries) start index m =
        of_step (e ∷ entries) start start index e _ index
          (λ n. (k : ℕ) × (n ≡ start + k) × FoundAt (e ∷ entries) k n)
          (λ s e'. (0, omega arith, (e, start, s, refl, e')))
          (λ m'.
            let (k, at, f) = collect_all-found entries (start + 1) index m' in
            (suc k, omega (arith, at), f))
          m
