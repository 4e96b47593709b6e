-- ===== src/Prelude/Int.antt =====
-- `int` as a signed integer, under the library's names over the native numbers.
use Prim.Native.Nat.{ℕ, suc, ◌+◌, ◌-◌}
use mathlib.Core.Bool.{Bool}
use demeter.Prelude.Tests.{ltb, if◌then◌else◌}

-- `negsuc n` is -(n + 1).
pub data ℤ : Type 0 where
  pos : ℕ → ℤ
  negsuc : ℕ → ℤ

abbrev pub pos_part : ℤ → ℕ
pos_part (pos n) = n
pos_part (negsuc n) = 0

abbrev pub neg_part : ℤ → ℕ
neg_part (pos n) = 0
neg_part (negsuc n) = suc n

-- a < b
abbrev pub ltb_ℤ : ℤ → ℤ → Bool
ltb_ℤ a b = ltb (pos_part a + neg_part b) (pos_part b + neg_part a)

-- `--i`
abbrev pub pred_ℤ : ℤ → ℤ
pred_ℤ (pos n) = if ltb 0 n then pos (n - 1) else negsuc 0
pred_ℤ (negsuc n) = negsuc (suc n)

-- The `int` that a `uint32_t` is converted to.
abbrev pub int_of_u32 : ℕ → ℤ
int_of_u32 n = if ltb n 0x80000000 then pos n else negsuc (0x100000000 - n - 1)
