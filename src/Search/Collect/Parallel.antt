-- ===== src/Search/Collect/Parallel.antt =====
-- Parallel execution collects what sequential execution does, in the same order.
use flist_walker.Prelude.{
  ℕ, zero, suc, ◌+◌, ◌*◌, ◌≤◌, ◌<◌, ◌≡◌, refl, sym, ap, ap₂, ◌∙◌, Bool, true, false, Option, none,
  some, List, [], ◌∷◌, ◌++◌, append_assoc, append-nil, arith, length, take, drop, length-take,
  length-drop, nil_of_length, leb, leb→le,
}
use flist_walker.Search.Config.{saturating_mul, usize_max}
use flist_walker.Search.Collect.{
  collect_indices, collect_all, collect_sequential, chunks, collect_chunks, collect_segments,
  parallel_parts, Reduces, identity, single, merge,
}

abbrev pub flatten : {S : Type 0} → List (List S) → List S
flatten [] = []
flatten (xs ∷ xss) = xs ++ flatten xss

flatten-append :
    {S : Type 0} (xss yss : List (List S)) → flatten (xss ++ yss) ≡ flatten xss ++ flatten yss
flatten-append [] yss = refl
flatten-append (xs ∷ xss) yss =
    ap (λ r. xs ++ r) (flatten-append xss yss) ∙ sym (append_assoc xs (flatten xss) (flatten yss))

-- However the merges nest, the result is the parts one after the other.
pub Reduces-flatten :
    {S : Type 0} {parts : List (List S)} {result : List S}
    → Reduces parts result
    → result ≡ flatten parts
Reduces-flatten identity = refl
Reduces-flatten (single result) = sym (append-nil result)
Reduces-flatten (merge {left = left} {right = right} p r l m) =
    r
    ∙ ap₂ (λ u v. u ++ v) (Reduces-flatten l) (Reduces-flatten m)
    ∙ sym (ap flatten p ∙ flatten-append left right)

module _ {E S : Type 0} (eval : E → ℕ → ℕ → Option S) where
  collect_indices-append :
      (entries : List E) (ordinal : ℕ) (xs ys : List ℕ)
      → collect_indices eval entries ordinal (xs ++ ys)
        ≡ collect_indices eval entries ordinal xs
          ++ collect_indices eval entries (ordinal + length xs) ys
  unfolding collect_indices
  collect_indices-append entries ordinal [] ys =
      ap (λ n. collect_indices eval entries n ys) (omega arith)
  collect_indices-append entries ordinal (x ∷ xs) ys =
      let ih = collect_indices-append entries (ordinal + 1) xs ys in
      let shift : ordinal + 1 + length xs ≡ ordinal + suc (length xs) = omega arith in
      let ih' =
        ih
        ∙ ap
            (λ n.
              collect_indices eval entries (ordinal + 1) xs ++ collect_indices eval entries n ys)
            shift in
      ground (arith, ih')

  collect_all-append :
      (index : ℕ) (xs ys : List E)
      → collect_all eval index (xs ++ ys)
        ≡ collect_all eval index xs ++ collect_all eval (index + length xs) ys
  unfolding collect_all
  collect_all-append index [] ys = ap (λ n. collect_all eval n ys) (omega arith)
  collect_all-append index (x ∷ xs) ys =
      let shift : index + 1 + length xs ≡ index + suc (length xs) = omega arith in
      let ih =
        collect_all-append (index + 1) xs ys
        ∙ ap (λ n. collect_all eval (index + 1) xs ++ collect_all eval n ys) shift in
      ground (arith, ih)

  collect_segments-flatten :
      (index : ℕ) (segments : List (List E))
      → flatten (collect_segments eval index segments) ≡ collect_all eval index (flatten segments)
  unfolding collect_segments collect_all
  collect_segments-flatten index [] = refl
  collect_segments-flatten index (s ∷ segments) =
      ap (λ r. collect_all eval index s ++ r) (collect_segments-flatten (index + length s) segments)
      ∙ sym (collect_all-append index s (flatten segments))

  take-drop : (n : ℕ) (xs : List ℕ) → xs ≡ take n xs ++ drop n xs
  take-drop zero xs = refl
  take-drop (suc n) [] = refl
  take-drop (suc n) (x ∷ xs) = ap (◌∷◌ x) (take-drop n xs)

  base_exact :
      (chunk_idx size n : ℕ)
      → chunk_idx * size + n ≤ usize_max
      → saturating_mul chunk_idx size ≡ chunk_idx * size
  unfolding saturating_mul
  base_exact chunk_idx size n h = omega arith

  collect_chunks-flatten :
      (entries : List E) (fuel size chunk_idx : ℕ) (xs : List ℕ)
      → 0 < size
      → length xs ≤ fuel
      → chunk_idx * size + length xs ≤ usize_max
      → flatten (collect_chunks eval entries size chunk_idx (chunks fuel size xs))
        ≡ collect_indices eval entries (chunk_idx * size) xs
  unfolding collect_chunks chunks collect_indices
  collect_chunks-flatten entries zero size chunk_idx [] positive enough fits = refl
  collect_chunks-flatten entries zero size chunk_idx (x ∷ xs) positive enough fits =
      absurd (omega arith)
  collect_chunks-flatten entries (suc fuel) size chunk_idx [] positive enough fits = refl
  collect_chunks-flatten entries (suc fuel) size chunk_idx (x ∷ xs) positive enough fits =
      let all = x ∷ xs in
      let base : saturating_mul chunk_idx size ≡ chunk_idx * size =
        base_exact chunk_idx size _ fits in
      ap₂ (λ n r. collect_indices eval entries n (take size all) ++ r) base
        (rest_of_chunks (leb size (length all)) refl (
          collect_chunks-flatten entries fuel size (chunk_idx + 1) (drop size all) positive
            (omega (arith, length-drop size all))))
      ∙ sym (collect_indices-append entries (chunk_idx * size) (take size all) (drop size all))
      ∙ ap (collect_indices eval entries (chunk_idx * size)) (sym (take-drop size all))
    where
      rest_of_chunks :
          (b : Bool)
          → leb size (length (x ∷ xs)) ≡ b
          → ((chunk_idx + 1) * size + length (drop size (x ∷ xs)) ≤ usize_max
              → flatten (
                  collect_chunks eval entries size
                    (chunk_idx + 1)
                    (chunks fuel size (drop size (x ∷ xs))))
                ≡ collect_indices eval entries ((chunk_idx + 1) * size) (drop size (x ∷ xs)))
          → flatten (
              collect_chunks eval entries size
                (chunk_idx + 1)
                (chunks fuel size (drop size (x ∷ xs))))
            ≡ collect_indices eval entries
                (chunk_idx * size + length (take size (x ∷ xs)))
                (drop size (x ∷ xs))
      rest_of_chunks true h ih =
          let full : size ≤ length (x ∷ xs) = leb→le _ _ h in
          let room : (chunk_idx + 1) * size + length (drop size (x ∷ xs)) ≤ usize_max =
            omega (arith, length-drop size (x ∷ xs)) in
          let at : (chunk_idx + 1) * size ≡ chunk_idx * size + length (take size (x ∷ xs)) =
            omega (arith, length-take size (x ∷ xs)) in
          ih room ∙ ap (λ n. collect_indices eval entries n (drop size (x ∷ xs))) at
      rest_of_chunks false h ih =
          let short : length (x ∷ xs) < size = ground arith in
          let over : drop size (x ∷ xs) ≡ [] =
            nil_of_length (drop size (x ∷ xs)) (omega (arith, length-drop size (x ∷ xs))) in
          ap (λ r. flatten (collect_chunks eval entries size (chunk_idx + 1) (chunks fuel size r)))
            over
          ∙ no_chunks fuel
          ∙ ap
              (λ r. collect_indices eval entries (chunk_idx * size + length (take size (x ∷ xs))) r)
              (sym over)
        where
          no_chunks :
              (n : ℕ)
              → flatten (collect_chunks eval entries size (chunk_idx + 1) (chunks n size [])) ≡ []
          no_chunks zero = refl
          no_chunks (suc n) = refl

  -- Parallel collection returns the matches of sequential collection, in the same order and with
  -- the same ordinals, for a positive chunk size, segments that make up the entries, at most
  -- usize::MAX candidates, and any merging of the parts in order.
  pub parallel-sequential :
      (entries : List E) (candidates : Option (List ℕ)) (size : ℕ) (segments : List (List E))
      (result : List S)
      → 0 < size
      → flatten segments ≡ entries
      → length (elim candidates [ none ↦ [] | some xs ↦ xs ]) ≤ usize_max
      → Reduces (parallel_parts eval entries candidates size segments) result
      → result ≡ collect_sequential eval entries candidates
  unfolding parallel_parts collect_sequential
  parallel-sequential entries none size segments result positive cover few r =
      Reduces-flatten r ∙ collect_segments-flatten 0 segments ∙ ap (collect_all eval 0) cover
  parallel-sequential entries (some xs) size segments result positive cover few r =
      Reduces-flatten r
      ∙ collect_chunks-flatten entries (length xs) size 0 xs positive (omega arith) (omega arith)
      ∙ ap (λ n. collect_indices eval entries n xs) (omega arith)
