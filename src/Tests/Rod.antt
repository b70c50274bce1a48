-- ===== src/Tests/Rod.antt =====
-- Runs of the two forms of cut_rod (dynamic_programming/cut_rod.c, dp_cut_rod.c).
use somerubbish.Prelude.{
  ℕ, zero, suc, ◌≤◌, ◌<◌, ◌≡◌, refl, List, [], ◌∷◌, some, arith, get_elem?, replicate,
}
use somerubbish.Prelude.Int.{ℤ, pos, negsuc}
use somerubbish.Rod.Cut.{
  zmax, cut_loop, cut_rod, Arrays, write_cell, improve, inner_loop, fill_length, outer_loop,
  dp_cut_rod,
}
use somerubbish.Rod.Cut.Table.{SameCut, dp_cut_rod-eq-cut_rod}

-- The first prices of the source.
abbrev prices : List ℤ
prices = pos 1 ∷ pos 5 ∷ pos 8 ∷ pos 9 ∷ []

abbrev start_arrays : Arrays
start_arrays = record { r = replicate 4 (negsuc 0); s = replicate 4 0 }

filled_arrays :
    dp_cut_rod prices 4 start_arrays
    ≡ some (record { r = pos 1 ∷ pos 5 ∷ pos 8 ∷ pos 10 ∷ []; s = 1 ∷ 2 ∷ 3 ∷ 2 ∷ [] })
unfolding dp_cut_rod outer_loop fill_length inner_loop improve write_cell
filled_arrays = refl

cut_rod_four : cut_rod 5 prices 4 ≡ some (pos 10)
unfolding cut_rod cut_loop zmax
cut_rod_four = refl

all_start : (n : ℕ) → n < 4 → get_elem? (replicate 4 (negsuc 0)) n ≡ some (negsuc 0)
all_start zero l = refl
all_start (suc zero) l = refl
all_start (suc (suc zero)) l = refl
all_start (suc (suc (suc zero))) l = refl
all_start (suc (suc (suc (suc n)))) l = absurd (omega arith)

dp_cut_rod-eq-cut_rod_example :
    (t' : Arrays) × (dp_cut_rod prices 4 start_arrays ≡ some t')
    × ((n fuel : ℕ) → 1 ≤ n → n ≤ 4 → n < fuel → SameCut prices fuel t' n)
dp_cut_rod-eq-cut_rod_example =
    dp_cut_rod-eq-cut_rod prices 4 start_arrays (omega arith) (omega arith) (omega arith) all_start
