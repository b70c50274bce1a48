-- ===== src/Kmp/Rounds.antt =====
-- The rounds of find_pattern of kmp.c, case by case.
use somerubbish.Prelude.{
  ℕ, suc, ◌+◌, ◌-◌, ◌≤◌, ◌<◌, ◌≡◌, ◌≢◌, refl, true, false, List, arith, some, ◌==◌, ltb, get_elem?,
  length,
}
use somerubbish.Kmp.{search_step, search_loop}

module _ (src pattern : List ℕ) (pmt : ℕ → ℕ) (fuel index t : ℕ) where
  pub loop_found :
      t ≡ length pattern
      → search_loop src pattern (length src) (length pattern) pmt (suc fuel) index t ≡ some 0
  unfolding search_loop
  loop_found e =
      let less : ltb t (length pattern) ≡ false = ground arith in
      let same : (t == length pattern) ≡ true = ground arith in rw (less, same) refl

  pub loop_short :
      t < length pattern
      → length src - index < length pattern - t
      → search_loop src pattern (length src) (length pattern) pmt (suc fuel) index t ≡ some 1
  unfolding search_loop
  loop_short lt out =
      let less : ltb t (length pattern) ≡ true = ground arith in
      let few : ltb (length src - index) (length pattern - t) ≡ true = ground arith in
      rw (less, few) refl

  pub loop_step :
      (a b i' t' : ℕ)
      → t < length pattern
      → length pattern - t ≤ length src - index
      → get_elem? src index ≡ some a
      → get_elem? pattern t ≡ some b
      → search_step pmt a b index t ≡ (i', t')
      → search_loop src pattern (length src) (length pattern) pmt (suc fuel) index t
        ≡ search_loop src pattern (length src) (length pattern) pmt fuel i' t'
  unfolding search_loop
  loop_step a b i' t' lt room ea eb e =
      let less : ltb t (length pattern) ≡ true = ground arith in
      let few : ltb (length src - index) (length pattern - t) ≡ false = ground arith in
      rw (less, few, ea, eb, e) refl

module _ (pmt : ℕ → ℕ) (a b index t : ℕ) where
  pub step_same : a ≡ b → search_step pmt a b index t ≡ (index + 1, t + 1)
  unfolding search_step
  step_same e = let same : (a == b) ≡ true = ground arith in rw same refl

  pub step_first : a ≢ b → t ≡ 0 → search_step pmt a b index t ≡ (index + 1, t)
  unfolding search_step
  step_first n e =
      let other : (a == b) ≡ false = ground arith in
      let none : (t == 0) ≡ true = ground arith in rw (other, none) refl

  pub step_back : a ≢ b → 0 < t → search_step pmt a b index t ≡ (index, pmt (t - 1))
  unfolding search_step
  step_back n pos =
      let other : (a == b) ≡ false = ground arith in
      let some_t : (t == 0) ≡ false = ground arith in rw (other, some_t) refl
