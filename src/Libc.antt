-- ===== src/Libc.antt =====
-- What the C library gives to several of the programs: byte strings and their comparison.
use somerubbish.Prelude.{ℕ, ◌<◌, ◌^◌, ◌≡◌, ◌↔◌, Bool, false, List, ◌==◌}
use somerubbish.Prelude.Int.{ℤ, pos, negsuc}

-- A name is its bytes, without the closing zero.
abbrev pub Name : Type 0
Name = List ℕ

-- The test of an `int` against zero.
abbrev pub is_zero : ℤ → Bool
is_zero (pos n) = n == 0
is_zero (negsuc n) = false

-- An `int` has 32 bits.
abbrev pub IsInt : ℤ → Type 0
IsInt (pos n) = n < 2 ^ 31
IsInt (negsuc n) = n < 2 ^ 31

-- What C says of strcmp: an `int`, which is zero for equal strings and no others.
pub record IsStrcmp (strcmp : Name → Name → ℤ) : Type 0 where
  pub int : (a b : Name) → IsInt (strcmp a b)
  pub zero_iff : (a b : Name) → (strcmp a b ≡ pos 0) ↔ (a ≡ b)
