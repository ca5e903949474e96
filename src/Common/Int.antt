-- ===== src/Common/Int.antt =====
-- Integers over the native numbers: `negsuc n` is -(n + 1).
use rkcockpit.Common.{Bool, true, false, ltb, arith, if◌then◌else◌, leb, suc, ℕ, ◌+◌, ◌-◌, ◌≡◌}

pub data ℤ : Type 0 where
  pos : ℕ → ℤ
  negsuc : ℕ → ℤ

unfoldable pub lt_int : ℤ → ℤ → Bool
lt_int (pos m) (pos n) = ltb m n
lt_int (pos m) (negsuc n) = false
lt_int (negsuc m) (pos n) = true
lt_int (negsuc m) (negsuc n) = ltb n m

-- m - n for natural numbers.
unfoldable pub minus : ℕ → ℕ → ℤ
minus m n = if leb n m then pos (m - n) else negsuc (n - m - 1)

infixl 40 ◌+ℤ◌
unfoldable pub ◌+ℤ◌ : ℤ → ℤ → ℤ
unfolding minus
pos m +ℤ pos n = pos (m + n)
pos m +ℤ negsuc n = minus m (n + 1)
negsuc m +ℤ pos n = minus n (m + 1)
negsuc m +ℤ negsuc n = negsuc (m + n + 1)

pub minus-suc : (m : ℕ) → minus (suc m) 1 ≡ pos m
unfolding minus
minus-suc m = ground arith
