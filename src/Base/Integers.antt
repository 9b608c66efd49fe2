-- ===== src/Base/Integers.antt =====
-- Integers over native numbers, under the library's names.
use Prim.Native.Nat.{ℕ, zero, suc, ◌+◌, ◌-◌, ◌*◌}
use mathlib.Core.Bool.{Bool, true, false}
use dlite.Base.Tests.{ltb, ◌==◌, if◌then◌else◌}

pub data ℤ : Type 0 where
  pos : ℕ → ℤ
  negsuc : ℕ → ℤ

-- `m - n`.
abbrev pub subℕ : ℕ → ℕ → ℤ
subℕ m n = if ltb m n then ℤ.negsuc (n - m - 1) else ℤ.pos (m - n)

abbrev pub neg_pos : ℕ → ℤ
neg_pos zero = ℤ.pos 0
neg_pos (suc n) = ℤ.negsuc n

infixl 65 ◌+ℤ◌
abbrev pub ◌+ℤ◌ : ℤ → ℤ → ℤ
ℤ.pos m +ℤ ℤ.pos n = ℤ.pos (m + n)
ℤ.pos m +ℤ ℤ.negsuc n = subℕ m (suc n)
ℤ.negsuc m +ℤ ℤ.pos n = subℕ n (suc m)
ℤ.negsuc m +ℤ ℤ.negsuc n = ℤ.negsuc (m + n + 1)

infixl 70 ◌*ℤ◌
abbrev pub ◌*ℤ◌ : ℤ → ℤ → ℤ
ℤ.pos m *ℤ ℤ.pos n = ℤ.pos (m * n)
ℤ.pos m *ℤ ℤ.negsuc n = neg_pos (m * suc n)
ℤ.negsuc m *ℤ ℤ.pos n = neg_pos (suc m * n)
ℤ.negsuc m *ℤ ℤ.negsuc n = ℤ.pos (suc m * suc n)

abbrev pub is_negative : ℤ → Bool
is_negative (ℤ.pos n) = false
is_negative (ℤ.negsuc n) = true

abbrev pub eqℤ : ℤ → ℤ → Bool
eqℤ (ℤ.pos m) (ℤ.pos n) = m == n
eqℤ (ℤ.pos m) (ℤ.negsuc n) = false
eqℤ (ℤ.negsuc m) (ℤ.pos n) = false
eqℤ (ℤ.negsuc m) (ℤ.negsuc n) = m == n

-- `m < n`.
abbrev pub ltℤ : ℤ → ℤ → Bool
ltℤ (ℤ.pos m) (ℤ.pos n) = ltb m n
ltℤ (ℤ.pos m) (ℤ.negsuc n) = false
ltℤ (ℤ.negsuc m) (ℤ.pos n) = true
ltℤ (ℤ.negsuc m) (ℤ.negsuc n) = ltb n m
