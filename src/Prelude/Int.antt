-- ===== src/Prelude/Int.antt =====
-- The `int` of C as an integer, and its conversion to an unsigned word.
use Prim.Native.Nat.{ℕ, suc, ◌+◌, ◌-◌, ◌%◌, ◌^◌}
use mathlib.Core.Bool.{Bool}
use somerubbish.Prelude.Tests.{leb, ltb, if◌then◌else◌}

-- `negsuc n` is -(n + 1).
pub data ℤ : Type 0 where
  pos : ℕ → ℤ
  negsuc : ℕ → ℤ

-- An `int` that is assigned to a `u32`.
unfoldable pub to_u32 : ℤ → ℕ
to_u32 (pos n) = n % 2 ^ 32
to_u32 (negsuc n) = 2 ^ 32 - (n % 2 ^ 32) - 1

-- The two parts of an integer, of which one is 0.
abbrev pub pos_part : ℤ → ℕ
pos_part (pos n) = n
pos_part (negsuc n) = 0

abbrev pub neg_part : ℤ → ℕ
neg_part (pos n) = 0
neg_part (negsuc n) = suc n

-- a - b.
abbrev pub sub_ℕ : ℕ → ℕ → ℤ
sub_ℕ a b = if leb b a then pos (a - b) else negsuc (b - a - 1)

infixl 65 ◌+ℤ◌
abbrev pub ◌+ℤ◌ : ℤ → ℤ → ℤ
m +ℤ n = sub_ℕ (pos_part m + pos_part n) (neg_part m + neg_part n)

abbrev pub ltb_ℤ : ℤ → ℤ → Bool
ltb_ℤ m n = ltb (pos_part m + neg_part n) (pos_part n + neg_part m)
