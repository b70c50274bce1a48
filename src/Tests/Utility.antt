-- ===== src/Tests/Utility.antt =====
-- Runs of the numbers of utility.c.
use somerubbish.Prelude.{ℕ, ◌-◌, ◌^◌, ◌≡◌, refl, List, [], ◌∷◌, arith, inl}
use somerubbish.Utility.{atoi_u32, atoi_u64}
use somerubbish.Utility.Decimal.{atoi-decimal, atoi-HasOther}

atoi-decimal_example : (atoi_u32 (b'4' ∷ b'2' ∷ []) ≡ 42) × (atoi_u64 (b'4' ∷ b'2' ∷ []) ≡ 42)
atoi-decimal_example = atoi-decimal 2 42 (omega arith)

abbrev minus_two : List ℕ
minus_two = b'-' ∷ b'2' ∷ []

minus_two_run : (atoi_u32 minus_two ≡ 2 ^ 32 - 1) × (atoi_u64 minus_two ≡ 2 ^ 64 - 1)
minus_two_run = atoi-HasOther minus_two (inl refl)
