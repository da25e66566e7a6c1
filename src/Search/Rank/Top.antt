-- ===== src/Search/Rank/Top.antt =====
-- The selection of the best matches is the front of the sorted list of all of them.
use flist_walker.Prelude.{
  ℕ, zero, suc, ◌-◌, ◌≤◌, ◌<◌, ◌≡◌, refl, sym, ap, ◌∙◌, inl, inr, Bool, true, false, ◌&&◌, ◌||◌,
  some, List, [], ◌∷◌, map, arith, length, take, is_empty, All, Member, here, there, ltb, leb, ◌==◌,
  if◌then◌else◌, ltb→lt, Bool-cases,
}
use Prim.Native.Nat.{compare}
use flist_walker.Sorting.{IsOrder, sort_by, sort_by-perm}
use flist_walker.Sorting.Selection.{IsSelection, sort_by-selection, length-perm}
use flist_walker.Query.Score.{Scoring}
use flist_walker.Search.Rank.{
  SearchCandidateScore, compare_scored_candidates, scored_le, sort_scored_matches, to_indexed,
  top_ranked_scores,
}

-- What IEEE 754 says of `partial_cmp` on the values that are no NaN: they compare like numbers, and
-- `rank` numbers them in their order.
pub record NumberOrder (scoring : Scoring) : Type 1 where
  pub IsNumber : scoring.Score → Type 0
  pub rank : scoring.Score → ℕ
  pub compare_numbers :
      (a b : scoring.Score)
      → IsNumber a
      → IsNumber b
      → scoring.partial_cmp a b ≡ some (compare (rank a) (rank b))

map-take {ℓ κ} :
    {A : Type ℓ} {B : Type κ} (f : A → B) (n : ℕ) (xs : List A)
    → map f (take n xs) ≡ take n (map f xs)
map-take f zero xs = refl
map-take f (suc n) [] = refl
map-take f (suc n) (x ∷ xs) = ap (◌∷◌ (f x)) (map-take f n xs)

pub take_all {ℓ} : {A : Type ℓ} (n : ℕ) (xs : List A) → length xs ≤ n → take n xs ≡ xs
take_all zero [] h = refl
take_all zero (x ∷ xs) h = absurd (omega arith)
take_all (suc n) [] h = refl
take_all (suc n) (x ∷ xs) h = ap (◌∷◌ x) (take_all n xs (omega arith))

module _ (scoring : Scoring) (numbers : NumberOrder scoring) where
  open numbers use {IsNumber, rank, compare_numbers}

  abbrev Candidate : Type 0
  Candidate = SearchCandidateScore scoring

  -- Larger scores first, and for equal scores the smaller ordinal first.
  rank_le : Candidate → Candidate → Bool
  rank_le a b =
      ltb (rank b.score) (rank a.score) || (rank b.score == rank a.score && leb a.ordinal b.ordinal)

  scored_le-rank :
      (a b : Candidate) → IsNumber a.score → IsNumber b.score → scored_le scoring a b ≡ rank_le a b
  unfolding compare_scored_candidates rank_le
  scored_le-rank a b na nb = ground (arith, compare_numbers b.score a.score nb na)

  module _ (scored : List Candidate)
      (distinct : (a b : Candidate)
        → Member a scored
        → Member b scored
        → a.ordinal ≡ b.ordinal
        → a ≡ b) where
    abbrev Ranked : Candidate → Type 0
    Ranked c = IsNumber c.score × Member c scored

    scored-IsOrder : IsOrder (scored_le scoring) Ranked
    unfolding rank_le
    scored-IsOrder = record {
      total =
          λ x y px py. ground (arith, scored_le-rank x y px.0 py.0, scored_le-rank y x py.0 px.0);
      trans = λ x y z px py pz. ground (
        arith,
        scored_le-rank x y px.0 py.0,
        scored_le-rank y z py.0 pz.0,
        scored_le-rank x z px.0 pz.0,
      );
      antisym = λ x y px py h k.
          distinct x y px.1 py.1
            (ground (arith, scored_le-rank x y px.0 py.0, scored_le-rank y x py.0 px.0));
    }

    Ranked-All :
        (cs : List Candidate)
        → All (λ c. IsNumber c.score) cs
        → ((c : Candidate) → Member c cs → Member c scored)
        → All Ranked cs
    Ranked-All [] h into = tt
    Ranked-All (c ∷ cs) h into =
        ((h.0, into c (here cs)), Ranked-All cs h.1 (λ d m. into d (there c m)))

    sorted_nil :
        (cs : List Candidate) (n : ℕ)
        → is_empty cs ≡ true
        → [] ≡ take n (map (to_indexed scoring) (sort_scored_matches scoring cs))
    unfolding sort_scored_matches sort_by
    sorted_nil [] zero h = refl
    sorted_nil [] (suc n) h = refl
    sorted_nil (c ∷ cs) n h = absurd (cc)

    kept_sorted :
        (select : ℕ → List Candidate → List Candidate) (k : ℕ)
        → All (λ c. IsNumber c.score) scored
        → ((k : ℕ) → k < length scored → IsSelection (scored_le scoring) k scored (select k scored))
        → sort_scored_matches scoring (
            if ltb (suc k) (length scored)
            then take (suc k) (select (suc k - 1) scored)
            else scored)
          ≡ take (suc k) (sort_scored_matches scoring scored)
    unfolding sort_scored_matches
    kept_sorted select k numbers_all selects = elim (Bool-cases (ltb (suc k) (length scored))) [
      | inl longer ↦
          let lt : suc k < length scored = ltb→lt _ _ longer in
          let e : suc k - 1 ≡ k = omega arith in
          rw (longer, e)
            (sort_by-selection (scored_le scoring) Ranked scored-IsOrder k scored (select k scored)
              (Ranked-All scored numbers_all (λ c m. m)) (selects k (omega arith)))
      | inr fits ↦
          let short : length scored ≤ suc k = ground arith in
          let size : length (sort_by (scored_le scoring) scored) ≡ length scored =
            length-perm (sort_by-perm (scored_le scoring) scored) in
          rw fits (sym (take_all (suc k) _ (omega arith)))
    ]

    -- Where no score is a NaN and no two matches have the same ordinal, top_ranked_scores returns
    -- the first matches of the sorted list of all, up to the limit, for any selection that keeps
    -- the contract of select_nth_unstable_by.
    pub top_ranked_scores_lem :
        (select : ℕ → List Candidate → List Candidate) (limit : ℕ)
        → All (λ c. IsNumber c.score) scored
        → ((k : ℕ) → k < length scored → IsSelection (scored_le scoring) k scored (select k scored))
        → top_ranked_scores scoring select scored limit
          ≡ take limit (map (to_indexed scoring) (sort_scored_matches scoring scored))
    unfolding top_ranked_scores
    top_ranked_scores_lem select zero numbers_all selects = refl
    top_ranked_scores_lem select (suc k) numbers_all selects =
        let positive : (suc k == 0) ≡ false = ground arith in
        elim (Bool-cases (is_empty scored)) [
          | inl none_found ↦ rw (positive, none_found) (sorted_nil scored (suc k) none_found)
          | inr some_found ↦
              rw (positive, some_found)
                (ap (map (to_indexed scoring)) (kept_sorted select k numbers_all selects)
                  ∙ map-take (to_indexed scoring) (suc k) (sort_scored_matches scoring scored))
        ]
