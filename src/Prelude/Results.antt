-- ===== src/Prelude/Results.antt =====
-- Rust's `Result`, and the `?` operator as the bind of a `do` block.
use mathlib.Core.List.{List, [], ◌∷◌}

pub data Result {ℓ κ} (A : Type ℓ) (E : Type κ) : Type (ℓ ⊔ κ) where
  ok : A → Result A E
  err : E → Result A E

infixl 5 ◌>>=◌
abbrev pub ◌>>=◌ {ℓ κ μ} :
    {A : Type ℓ} {B : Type κ} {E : Type μ} → Result A E → (A → Result B E) → Result B E
ok a >>= f = f a
err e >>= f = err e

-- A loop that pushes the result of a fallible step for each item and stops at the first error.
abbrev pub try_map {ℓ κ μ} :
    {A : Type ℓ} {B : Type κ} {E : Type μ} → (A → Result B E) → List A → Result (List B) E
try_map f [] = ok []
try_map f (x ∷ xs) = do y ← f x; ys ← try_map f xs; ok (y ∷ ys)
