-- ===== src/Text/Subsequence.antt =====
-- Subsequences of a text, and the greedy test for one.
use flist_walker.Prelude.{
  ℕ, ◌≡◌, refl, sym, subst, ◌⊎◌, inl, inr, Bool, true, false, [], ◌∷◌, ◌++◌, arith, ◌==◌, ==_iff,
  Bool-cases,
}
use flist_walker.Text.{Text}

-- The characters of `q` stand in `t` in this order, with any others between them.
pub data Subsequence : Text → Text → Type 0 where
  done : (t : Text) → Subsequence [] t
  keep : (c : ℕ) {q t : Text} → Subsequence q t → Subsequence (c ∷ q) (c ∷ t)
  skip : (c : ℕ) {q t : Text} → Subsequence q t → Subsequence q (c ∷ t)

pub Subsequence-tail : {d : ℕ} {q t : Text} → Subsequence (d ∷ q) t → Subsequence q t
Subsequence-tail (keep c s) = skip c s
Subsequence-tail (skip c s) = skip c (Subsequence-tail s)

pub Subsequence-refl : (q : Text) → Subsequence q q
Subsequence-refl [] = done []
Subsequence-refl (c ∷ q) = keep c (Subsequence-refl q)

-- How a subsequence that begins with `d` meets a text that begins with `c`.
pub Subsequence-inv :
    {d c : ℕ} {q t : Text}
    → Subsequence (d ∷ q) (c ∷ t)
    → ((c ≡ d) × Subsequence q t) ⊎ Subsequence (d ∷ q) t
Subsequence-inv (keep c s) = inl (refl, s)
Subsequence-inv (skip c s) = inr s

keep_eq : {d c : ℕ} {q t : Text} → c ≡ d → Subsequence q t → Subsequence (d ∷ q) (c ∷ t)
keep_eq {d} {c} {q} {t} e s = subst (λ x. Subsequence (d ∷ q) (x ∷ t)) (sym e) (keep d s)

pub Subsequence-append_right : (q rest t : Text) → Subsequence (q ++ rest) t → Subsequence q t
Subsequence-append_right [] rest t s = done t
Subsequence-append_right (d ∷ q) rest [] s = elim s [ ]
Subsequence-append_right (d ∷ q) rest (c ∷ t) s = elim (Subsequence-inv s) [
  | inl (e, u) ↦ keep_eq e (Subsequence-append_right q rest t u)
  | inr u ↦ skip c (Subsequence-append_right (d ∷ q) rest t u)
]

pub Subsequence-prepend : (pre : Text) {q t : Text} → Subsequence q t → Subsequence q (pre ++ t)
Subsequence-prepend [] s = s
Subsequence-prepend (c ∷ pre) s = skip c (Subsequence-prepend pre s)

pub Subsequence-append : (q rest : Text) → Subsequence q (q ++ rest)
Subsequence-append [] rest = done rest
Subsequence-append (c ∷ q) rest = keep c (Subsequence-append q rest)

-- The greedy test on the rest of the query: a character that is wanted is taken at once.
unfoldable pub greedy : Text → Text → Bool
greedy [] t = true
greedy (d ∷ q) [] = false
greedy (d ∷ q) (c ∷ t) = elim (c == d) [ true ↦ greedy q t | false ↦ greedy (d ∷ q) t ]

pub Subsequence-of_greedy : (q t : Text) → greedy q t ≡ true → Subsequence q t
unfolding greedy
Subsequence-of_greedy [] t h = done t
Subsequence-of_greedy (d ∷ q) [] h = absurd (cc)
Subsequence-of_greedy (d ∷ q) (c ∷ t) h = elim (Bool-cases (c == d)) [
  | inl same ↦ keep_eq ((==_iff c d).0 same) (Subsequence-of_greedy q t (ground arith))
  | inr other ↦ skip c (Subsequence-of_greedy (d ∷ q) t (ground arith))
]

pub greedy_of_Subsequence : (q t : Text) → Subsequence q t → greedy q t ≡ true
unfolding greedy
greedy_of_Subsequence [] t s = refl
greedy_of_Subsequence (d ∷ q) [] s = elim s [ ]
greedy_of_Subsequence (d ∷ q) (c ∷ t) s = elim (Bool-cases (c == d)) [
  | inl same ↦ elim (Subsequence-inv s) [
    | inl (_, u) ↦ ground (arith, greedy_of_Subsequence q t u)
    | inr u ↦ ground (arith, greedy_of_Subsequence q t (Subsequence-tail u))
  ]
  | inr other ↦ elim (Subsequence-inv s) [
    | inl (e, _) ↦ absurd (ground arith)
    | inr u ↦ ground (arith, greedy_of_Subsequence (d ∷ q) t u)
  ]
]
