-- ===== src/Rod/Cut/Recursion.antt =====
-- The recursion of dynamic_programming/cut_rod.c: its fuel, and its price as a maximum over the first
-- piece.
use somerubbish.Prelude.{
  ℕ, zero, suc, ◌+◌, ◌-◌, ◌≤◌, ◌<◌, ◌≡◌, refl, ap, sym, ◌∙◌, List, Option, none, some, arith,
  get_or, length, get_elem?-eq-get_or,
}
use somerubbish.Prelude.Int.{ℤ, pos, negsuc, ◌+ℤ◌}
use somerubbish.Rod.Cut.{zmax, cut_loop, cut_rod}

-- The greatest of `pi` and of `k` values of `g` from `i` on.
abbrev pub fold_max : (g : ℕ → ℤ) (k i : ℕ) (pi : ℤ) → ℤ
fold_max g zero i pi = pi
fold_max g (suc k) i pi = fold_max g k (suc i) (zmax pi (g i))

pub zmax_right_comm : (a b c : ℤ) → zmax (zmax a b) c ≡ zmax (zmax a c) b
unfolding zmax
zmax_right_comm a b c = ground arith

-- The last value may come first.
pub fold_max_last :
    (g : ℕ → ℤ) (k i : ℕ) (pi : ℤ) → fold_max g (suc k) i pi ≡ fold_max g k i (zmax pi (g (i + k)))
fold_max_last g zero i pi = ap (λ n. zmax pi (g n)) (omega arith)
fold_max_last g (suc k) i pi =
    fold_max_last g k (suc i) (zmax pi (g i))
    ∙ ap (fold_max g k (suc i)) (
        zmax_right_comm pi (g i) (g (suc i + k))
        ∙ ap (λ n. zmax (zmax pi (g n)) (g i)) (omega arith))

abbrev pub price : List ℤ → ℕ → ℤ
price p i = get_or p (i - 1) (pos 0)

-- The loop, when the recursive calls return.
pub cut_loop-fold_max :
    (rec : ℕ → Option ℤ) (value : ℕ → ℤ) (p : List ℤ) (len k i : ℕ) (pi : ℤ)
    → ((m : ℕ) → m < len → rec m ≡ some (value m))
    → 1 ≤ i
    → i + k ≤ suc len
    → len ≤ length p
    → cut_loop rec p len k i pi ≡ some (fold_max (λ i. price p i +ℤ value (len - i)) k i pi)
unfolding cut_loop
cut_loop-fold_max rec value p len zero i pi r one le fits = refl
cut_loop-fold_max rec value p len (suc k) i pi r one le fits =
    rw (get_elem?-eq-get_or p (i - 1) (pos 0) (omega arith), r (len - i) (omega arith))
      (cut_loop-fold_max rec value p len k (suc i) _ r (omega arith) (omega arith) fits)

-- A price, where the code returns one.
abbrev pub or_zero : Option ℤ → ℤ
or_zero none = pos 0
or_zero (some v) = v

or_zero-some : (o : Option ℤ) (v : ℤ) → o ≡ some v → o ≡ some (or_zero o)
or_zero-some none v e = ground (arith, e)
or_zero-some (some u) v e = refl

-- What the calls below a length return, the loop returns for that length.
loops_agree :
    (rec rec' : ℕ → Option ℤ) (p : List ℤ) (m : ℕ)
    → ((k : ℕ) → k < suc m → (v : ℤ) × (rec k ≡ some v) × (rec' k ≡ some v))
    → suc m ≤ length p
    → (v : ℤ) × (cut_loop rec p (suc m) (suc m) 1 (negsuc 0) ≡ some v)
      × (cut_loop rec' p (suc m) (suc m) 1 (negsuc 0) ≡ some v)
loops_agree rec rec' p m below fits = (
  _,
  cut_loop-fold_max rec (λ k. or_zero (rec k)) p (suc m) (suc m) 1 (negsuc 0)
      (λ k l. let (v, e, e') = below k l in or_zero-some (rec k) v e) (omega arith) (omega arith)
      fits,
  cut_loop-fold_max rec' (λ k. or_zero (rec k)) p (suc m) (suc m) 1 (negsuc 0)
      (λ k l. let (v, e, e') = below k l in e' ∙ sym e ∙ or_zero-some (rec k) v e) (omega arith)
      (omega arith) fits,
)

-- With more fuel than the length the recursion returns, and the fuel does not matter.
returns_same :
    (f f' : ℕ) (p : List ℤ) (n : ℕ)
    → n < f
    → n < f'
    → n ≤ length p
    → (v : ℤ) × (cut_rod f p n ≡ some v) × (cut_rod f' p n ≡ some v)
unfolding cut_rod
returns_same zero f' p n lt lt' fits = absurd (omega arith)
returns_same (suc f) zero p n lt lt' fits = absurd (omega arith)
returns_same (suc f) (suc f') p zero lt lt' fits = (pos 0, refl, refl)
returns_same (suc f) (suc f') p (suc m) lt lt' fits =
    loops_agree (cut_rod f p) (cut_rod f' p) p m
      (λ k l. returns_same f f' p k (omega arith) (omega arith) (omega arith)) fits

-- The price of a rod: what the code returns with just enough fuel.
abbrev pub best : List ℤ → ℕ → ℤ
best p n = or_zero (cut_rod (suc n) p n)

pub best_zero : (p : List ℤ) → best p 0 ≡ pos 0
unfolding cut_rod
best_zero p = refl

-- More fuel than the length is enough.
pub cut_rod-best :
    (f : ℕ) (p : List ℤ) (n : ℕ) → n < f → n ≤ length p → cut_rod f p n ≡ some (best p n)
cut_rod-best f p n lt fits =
    let (v, e, e') = returns_same f (suc n) p n lt (omega arith) fits in
    e ∙ sym e' ∙ or_zero-some (cut_rod (suc n) p n) v e'

-- A rod is as good as its best first piece with the best of the rest.
pub best-suc :
    (p : List ℤ) (m : ℕ)
    → suc m ≤ length p
    → best p (suc m) ≡ fold_max (λ i. price p i +ℤ best p (suc m - i)) (suc m) 1 (negsuc 0)
unfolding cut_rod
best-suc p m fits = ap or_zero (
    cut_loop-fold_max (cut_rod (suc m) p) (best p) p (suc m) (suc m) 1 (negsuc 0)
      (λ k l. cut_rod-best (suc m) p k l (omega arith)) (omega arith) (omega arith) fits)
