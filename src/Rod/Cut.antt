-- ===== src/Rod/Cut.antt =====
-- cut_rod, by recursion in dynamic_programming/cut_rod.c and with a table in dp_cut_rod.c. `none` is
-- a read or a write outside an array, or the end of the fuel. An `int` is not taken to overflow.
pub mod Recursion
pub mod Table
use somerubbish.Prelude.{
  ℕ, zero, suc, ◌-◌, List, Option, none, some, ◌>>=◌, if◌then◌else◌, get_elem?, set, ltb, length,
}
use somerubbish.Prelude.Int.{ℤ, pos, negsuc, ◌+ℤ◌, ltb_ℤ}

unfoldable pub zmax : ℤ → ℤ → ℤ
zmax a b = if ltb_ℤ a b then b else a

-- The loop of the recursion from `i` on, `k` rounds long; `rec` is the recursive call.
unfoldable pub cut_loop : (rec : ℕ → Option ℤ) (p : List ℤ) (len k i : ℕ) (pi : ℤ) → Option ℤ
cut_loop rec p len zero i pi = some pi
cut_loop rec p len (suc k) i pi = do
  x ← get_elem? p (i - 1)
  y ← rec (len - i)
  cut_loop rec p len k (suc i) (zmax pi (x +ℤ y))

-- cut_rod of cut_rod.c, on fuel.
unfoldable pub cut_rod : (fuel : ℕ) (p : List ℤ) (len : ℕ) → Option ℤ
cut_rod zero p len = none
cut_rod (suc fuel) p zero = some (pos 0)
cut_rod (suc fuel) p (suc m) = cut_loop (cut_rod fuel p) p (suc m) (suc m) 1 (negsuc 0)

-- The arrays `r` and `s` of dp_cut_rod.c.
pub record Arrays : Type 0 where
  pub r : List ℤ
  pub s : List ℕ

-- A write of an array, where it has the cell.
unfoldable pub write_cell {ℓ} : {A : Type ℓ} → List A → (i : ℕ) → A → Option (List A)
write_cell xs i x = if ltb i (length xs) then some (set xs i x) else none

-- A better price for a rod of length `j` goes into `r` and its first piece into `s`.
unfoldable pub improve : (j first : ℕ) (old price : ℤ) → Arrays → Option Arrays
improve j first old price t =
    if ltb_ℤ old price
    then (do
      r ← write_cell t.r (j - 1) price
      s ← write_cell t.s (j - 1) first
      some (record { r = r; s = s }))
    else some t

-- The inner loop from `i` on.
unfoldable pub inner_loop : (p : List ℤ) (j k i : ℕ) → Arrays → Option Arrays
inner_loop p j zero i t = some t
inner_loop p j (suc k) i t = do
  old ← get_elem? t.r (j - 1)
  x ← get_elem? p (i - 1)
  y ← get_elem? t.r (j - i - 1)
  t' ← improve j i old (x +ℤ y) t
  inner_loop p j k (suc i) t'

-- One round of the outer loop.
unfoldable pub fill_length : (p : List ℤ) (j : ℕ) → Arrays → Option Arrays
fill_length p j t = do
  old ← get_elem? t.r (j - 1)
  x ← get_elem? p (j - 1)
  t' ← improve j j old x t
  inner_loop p j (j - 1) 1 t'

unfoldable pub outer_loop : (p : List ℤ) (k j : ℕ) → Arrays → Option Arrays
outer_loop p zero j t = some t
outer_loop p (suc k) j t = do t' ← fill_length p j t; outer_loop p k (suc j) t'

-- cut_rod of dp_cut_rod.c.
unfoldable pub dp_cut_rod : (p : List ℤ) (len : ℕ) → Arrays → Option Arrays
dp_cut_rod p len t = outer_loop p len 1 t
