-- ===== src/Utility.antt =====
-- utility.c: atoi_u32 and atoi_u64 of the current version, for texts without their closing zero. The
-- sums are reduced to the width.
pub mod Decimal
use somerubbish.Prelude.{
  ℕ, ◌+◌, ◌-◌, ◌*◌, ◌%◌, ◌^◌, Bool, true, false, ◌||◌, List, [], ◌∷◌, ltb, if◌then◌else◌,
}

-- '0' is 48 and '9' is 57.
abbrev pub is_no_digit : ℕ → Bool
is_no_digit ch = ltb ch 48 || ltb 57 ch

unfoldable pub atoi_loop : (w : ℕ) → (ch : List ℕ) → (i : ℕ) → ℕ
atoi_loop w [] i = i
atoi_loop w (c ∷ ch) i =
    let rest = atoi_loop w ch ((10 * i + (c - 48)) % 2 ^ w) in
    if is_no_digit c then 2 ^ w - 1 else rest

unfoldable pub atoi_u32 : List ℕ → ℕ
atoi_u32 p = atoi_loop 32 p 0

unfoldable pub atoi_u64 : List ℕ → ℕ
atoi_u64 p = atoi_loop 64 p 0
