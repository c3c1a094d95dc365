-- ===== src/Base/Int.antt =====
-- Signed integers over the native numbers: arguments that a Go caller may give negative, and counters
-- that a Go program may take below 0. The names are those of the library's integers.
use Prim.Native.Nat.{ℕ, zero, suc, ◌+◌}
use mathlib.Core.Bool.{Bool, true, false}
use mathlib.Core.Path.{◌≡◌}
use native.Mathlib.Omega.{arith}

-- `negsuc n` is -(n + 1).
pub data ℤ : Type 0 where
  pos : ℕ → ℤ
  negsuc : ℕ → ℤ

abbrev pub suc_ℤ : ℤ → ℤ
suc_ℤ (pos n) = pos (suc n)
suc_ℤ (negsuc zero) = pos 0
suc_ℤ (negsuc (suc n)) = negsuc n

abbrev pub pred_ℤ : ℤ → ℤ
pred_ℤ (pos zero) = negsuc 0
pred_ℤ (pos (suc n)) = pos n
pred_ℤ (negsuc n) = negsuc (suc n)

infixl 65 ◌+ℤ◌
abbrev pub ◌+ℤ◌ : ℤ → ℤ → ℤ
m +ℤ pos zero = m
m +ℤ pos (suc n) = suc_ℤ (m +ℤ pos n)
m +ℤ negsuc zero = pred_ℤ m
m +ℤ negsuc (suc n) = pred_ℤ (m +ℤ negsuc n)

abbrev pub is_zero : ℤ → Bool
is_zero (pos zero) = true
is_zero _ = false

pub pos_add : (m n : ℕ) → pos m +ℤ pos n ≡ pos (m + n)
pos_add m zero = let e : m + 0 ≡ m = omega arith in rw e
pos_add m (suc n) = let e : m + suc n ≡ suc (m + n) = omega arith in rw (e, pos_add m n)
