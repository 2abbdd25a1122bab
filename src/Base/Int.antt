-- ===== src/Base/Int.antt =====
-- C's signed results and descriptors: `negsuc n` is -(n + 1).
use Prim.Native.Nat.{ℕ, zero, suc}
use mathlib.Core.Bool.{Bool, true, false}

pub data ℤ : Type 0 where
  pos : ℕ → ℤ
  negsuc : ℕ → ℤ

-- `fd >= 0`.
abbrev pub nonneg : ℤ → Bool
nonneg (pos n) = true
nonneg (negsuc n) = false

-- -1, the descriptor that stands for none.
abbrev pub no_fd : ℤ
no_fd = negsuc 0

-- `n > 0`.
abbrev pub is_positive : ℤ → Bool
is_positive (pos zero) = false
is_positive (pos (suc n)) = true
is_positive (negsuc n) = false
