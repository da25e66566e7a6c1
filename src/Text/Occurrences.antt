-- ===== src/Text/Occurrences.antt =====
-- Disjoint occurrences of a text in another, and the first of them.
use flist_walker.Prelude.{
  ℕ, zero, suc, ◌≡◌, refl, sym, ap, ◌∙◌, inl, inr, some, [], ◌∷◌, ◌++◌, append_assoc, arith, length,
  drop, length-append, drop-append, drop-append_le, Bool-cases,
}
use flist_walker.Text.{Text, starts_with, after_find}
use flist_walker.Text.Affix.{starts_with-append, split_of_starts_with}

-- `t` holds `k` occurrences of `p`, no two of which overlap.
pub data Occurs (p : Text) : ℕ → Text → Type 0 where
  stop : (t : Text) → Occurs p zero t
  next : {k : ℕ} (t pre rest : Text) → t ≡ pre ++ (p ++ rest) → Occurs p k rest → Occurs p (suc k) t

pub Occurs-prepend :
    {p : Text} {k : ℕ} {t : Text} (pre : Text) → Occurs p k t → Occurs p k (pre ++ t)
Occurs-prepend pre (stop t) = stop (pre ++ t)
Occurs-prepend {p} pre (next t before rest e o) =
    next (pre ++ t) (pre ++ before) rest (rw e (sym (append_assoc pre before (p ++ rest)))) o

-- What `after_find` returns lies behind an occurrence.
pub split_of_after_find :
    (t p r : Text) → after_find t p ≡ some r → (pre : Text) × (t ≡ pre ++ (p ++ r))
unfolding after_find
split_of_after_find [] [] r h = ([], ground arith)
split_of_after_find [] (d ∷ p) r h = absurd (cc)
split_of_after_find (c ∷ t) p r h = elim (Bool-cases (starts_with (c ∷ t) p)) [
  | inl front ↦
      let (rest, e) = split_of_starts_with (c ∷ t) p front in
      let same : rest ≡ r =
        sym (drop-append p rest) ∙ ap (drop (length p)) (sym e) ∙ ground arith in
      ([], e ∙ ap (λ u. p ++ u) same)
  | inr later ↦ let (pre, e) = split_of_after_find t p r (ground arith) in (c ∷ pre, ap (◌∷◌ c) e)
]

-- The search finds the leftmost occurrence: whatever follows any occurrence follows that one too.
pub after_find_leftmost :
    (pre p rest : Text)
    → (r : Text) × (skip : Text) × (after_find (pre ++ (p ++ rest)) p ≡ some r) × (r ≡ skip ++ rest)
unfolding after_find
after_find_leftmost [] [] [] = ([], [], refl, refl)
after_find_leftmost [] [] (c ∷ rest) = (c ∷ rest, [], ground arith, refl)
after_find_leftmost [] (d ∷ p) rest =
    (rest, [], ground (arith, starts_with-append (d ∷ p) rest, drop-append p rest), refl)
after_find_leftmost (c ∷ pre) p rest =
    elim (Bool-cases (starts_with (c ∷ (pre ++ (p ++ rest))) p)) [
      | inl front ↦ (
        drop (length p) (c ∷ (pre ++ (p ++ rest))),
        drop (length p) (c ∷ (pre ++ p)),
        ground arith,
        ap (λ u. drop (length p) (c ∷ u)) (sym (append_assoc pre p rest))
            ∙ drop-append_le (length p) (c ∷ (pre ++ p)) rest (omega (arith, length-append pre p)),
      )
      | inr later ↦
          let (r, skip, found, e) = after_find_leftmost pre p rest in (r, skip, ground arith, e)
    ]
