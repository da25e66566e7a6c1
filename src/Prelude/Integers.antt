-- ===== src/Prelude/Integers.antt =====
-- The signed machine integers of the source, within their range.
use Prim.Native.Nat.{ℕ, compare, Ordering}

-- `pos n` is n, and `negsuc n` is -(n + 1).
pub data ℤ : Type 0 where
  pos : ℕ → ℤ
  negsuc : ℕ → ℤ

abbrev pub compare_int : ℤ → ℤ → Ordering
compare_int (pos m) (pos n) = compare m n
compare_int (pos m) (negsuc n) = Ordering.gt
compare_int (negsuc m) (pos n) = Ordering.lt
compare_int (negsuc m) (negsuc n) = compare n m
