-- ===== src/Rod/Cut/Table.antt =====
-- The table of dynamic_programming/dp_cut_rod.c beside the recursion of cut_rod.c.
use somerubbish.Prelude.{
  ℕ, zero, suc, ◌+◌, ◌-◌, ◌≤◌, ◌<◌, ◌≡◌, ◌≢◌, refl, ap, sym, ◌∙◌, List, some, arith, get_elem?,
  get_or, length, get_elem?-eq-get_or, get_or-set_self, get_or-set_ne, length-set, Bool-cases,
  lt→ltb, set, ◌⊎◌, inl, inr, ap₂, subst, ℕ_discrete, [], ◌∷◌,
}
use somerubbish.Prelude.Int.{ℤ, pos, negsuc, ◌+ℤ◌, ltb_ℤ}
use somerubbish.Rod.Cut.{
  zmax, Arrays, write_cell, improve, inner_loop, fill_length, outer_loop, dp_cut_rod, cut_rod,
}
use somerubbish.Rod.Cut.Recursion.{
  fold_max, fold_max_last, price, best, best-suc, best_zero, cut_rod-best,
}

-- The price for a length that the table holds.
abbrev pub entry : Arrays → ℕ → ℤ
entry t n = get_or t.r (n - 1) (pos 0)

-- The first piece that the table holds for a length.
abbrev pub first_piece : Arrays → ℕ → ℕ
first_piece t n = get_or t.s (n - 1) 0

-- The price in the table is the one of its first piece, where it is not the -1 of the start.
abbrev pub IsCut : (g : ℕ → ℤ) → Arrays → ℕ → Type 0
IsCut g t j =
    (entry t j ≡ negsuc 0)
    ⊎ ((1 ≤ first_piece t j) × (first_piece t j ≤ j) × (entry t j ≡ g (first_piece t j)))

-- The table changes in the entry of length `j` alone.
record EntryBecomes (g : ℕ → ℤ) (t : Arrays) (j : ℕ) (v : ℤ) (t' : Arrays) : Type 0 where
  size : length t'.r ≡ length t.r
  size_s : length t'.s ≡ length t.s
  here : entry t' j ≡ v
  cut : IsCut g t j → IsCut g t' j
  there : (n : ℕ) → 1 ≤ n → n ≢ j → (entry t' n ≡ entry t n) × (first_piece t' n ≡ first_piece t n)

write_cell-set {ℓ} :
    {A : Type ℓ}
    → (xs : List A) (i : ℕ) (x : A) → i < length xs
    → write_cell xs i x ≡ some (set xs i x)
unfolding write_cell
write_cell-set xs i x lt = rw (lt→ltb i (length xs) lt) refl

improve-EntryBecomes :
    (g : ℕ → ℤ) (t : Arrays) (j first : ℕ) (x : ℤ)
    → 1 ≤ j
    → j ≤ length t.r
    → j ≤ length t.s
    → 1 ≤ first
    → first ≤ j
    → x ≡ g first
    → (t' : Arrays) × (improve j first (entry t j) x t ≡ some t')
      × EntryBecomes g t j (zmax (entry t j) x) t'
unfolding improve zmax
improve-EntryBecomes g t j first x one fits fits' low le e =
    elim (Bool-cases (ltb_ℤ (entry t j) x)) [
      | inl b ↦
          let new_r = get_or-set_self t.r (j - 1) x (pos 0) (omega arith) in
          let new_s : get_or (set t.s (j - 1) first) (j - 1) 0 ≡ first =
            get_or-set_self t.s (j - 1) first 0 (omega arith) in
          (
            record { r = set t.r (j - 1) x; s = set t.s (j - 1) first },
            rw
                (
                  b,
                  write_cell-set t.r (j - 1) x (omega arith),
                  write_cell-set t.s (j - 1) first (omega arith),
                )
                refl,
            record {
              size = length-set t.r (j - 1) x;
              size_s = length-set t.s (j - 1) first;
              here = rw b new_r;
              cut = λ old.
                  inr (omega (arith, new_s), omega (arith, new_s), new_r ∙ e ∙ ap g (sym new_s));
              there = λ n o ne. (
                get_or-set_ne t.r (j - 1) (n - 1) x (pos 0) (omega arith),
                get_or-set_ne t.s (j - 1) (n - 1) first 0 (omega arith),
              );
            },
          )
      | inr b ↦ (
        t,
        rw b refl,
        record {
          size = refl;
          size_s = refl;
          here = rw b refl;
          cut = λ old. old;
          there = λ n o ne. (refl, refl);
        },
      )
    ]

EntryBecomes-trans :
    (g : ℕ → ℤ) (t t' t2 : Arrays) (j : ℕ) (v w : ℤ)
    → EntryBecomes g t j v t'
    → EntryBecomes g t' j w t2
    → EntryBecomes g t j w t2
EntryBecomes-trans g t t' t2 j v w a b = record {
  size = b.size ∙ a.size;
  size_s = b.size_s ∙ a.size_s;
  here = b.here;
  cut = λ old. b.cut (a.cut old);
  there =
      λ n o ne. let (x, y) = a.there n o ne in let (x', y') = b.there n o ne in (x' ∙ x, y' ∙ y);
}

read_entry :
    (t : Arrays) (n : ℕ) → 1 ≤ n → n ≤ length t.r → get_elem? t.r (n - 1) ≡ some (entry t n)
read_entry t n one fits = get_elem?-eq-get_or t.r (n - 1) (pos 0) (omega arith)

-- The inner loop, when the shorter lengths are filled.
inner_loop-EntryBecomes :
    (p : List ℤ) (g : ℕ → ℤ) (j k i : ℕ) (t : Arrays) (v : ℤ)
    → entry t j ≡ v
    → 1 ≤ i
    → i + k ≡ j
    → j ≤ length t.r
    → j ≤ length t.s
    → j ≤ length p
    → ((m : ℕ) → 1 ≤ m → m < j → price p m +ℤ entry t (j - m) ≡ g m)
    → (t' : Arrays) × (inner_loop p j k i t ≡ some t') × EntryBecomes g t j (fold_max g k i v) t'
unfolding inner_loop
inner_loop-EntryBecomes p g j zero i t v h one eq fits fits_s fits' e = (
  t,
  refl,
  record { size = refl; size_s = refl; here = h; cut = λ c. c; there = λ n o ne. (refl, refl) },
)
inner_loop-EntryBecomes p g j (suc k) i t v h one eq fits fits_s fits' e =
    let x = price p i +ℤ entry t (j - i) in
    let (t1, better, a) =
      improve-EntryBecomes g t j i x (omega arith) fits fits_s one (omega arith)
        (e i one (omega arith)) in
    let (t2, run, b) =
      inner_loop-EntryBecomes p g j k (suc i) t1 (zmax v (g i))
        (a.here ∙ ap₂ zmax h (e i one (omega arith))) (omega arith) (omega arith)
        (omega (arith, a.size)) (omega (arith, a.size_s)) fits'
        (λ m o l.
          let (same, _) = a.there (j - m) (omega arith) (omega arith) in
          ap (λ y. price p m +ℤ y) same ∙ e m o l) in
    (
      t2,
      rw
          (
            read_entry t j (omega arith) fits,
            get_elem?-eq-get_or p (i - 1) (pos 0) (omega arith),
            read_entry t (j - i) (omega arith) (omega arith),
            better,
          )
          run,
      EntryBecomes-trans g t t1 t2 j _ _ a b,
    )

-- The price of a rod of length `j` with the first piece `i`.
abbrev piece : List ℤ → (j i : ℕ) → ℤ
piece p j i = price p i +ℤ best p (j - i)

-- The lengths below `j` have their best prices and a first piece for them, the others are -1.
record IsFilled (p : List ℤ) (t : Arrays) (j : ℕ) : Type 0 where
  below : (n : ℕ) → 1 ≤ n → n < j → (entry t n ≡ best p n) × IsCut (piece p n) t n
  above : (n : ℕ) → j ≤ n → n ≤ length t.r → entry t n ≡ negsuc 0

best_zero-add : (p : List ℤ) (x : ℤ) → x +ℤ best p 0 ≡ x
best_zero-add p x = rw (best_zero p) (ground arith)

-- The whole rod as the first piece.
piece_whole : (p : List ℤ) (m : ℕ) → piece p (suc m) (suc m) ≡ price p (suc m)
piece_whole p m =
    ap (λ n. price p (suc m) +ℤ best p n) (omega arith) ∙ best_zero-add p (price p (suc m))

best-last :
    (p : List ℤ) (m : ℕ)
    → suc m ≤ length p
    → best p (suc m) ≡ fold_max (piece p (suc m)) m 1 (zmax (negsuc 0) (price p (suc m)))
best-last p m fits =
    best-suc p m fits
    ∙ fold_max_last (piece p (suc m)) m 1 (negsuc 0)
    ∙ ap (λ x. fold_max (piece p (suc m)) m 1 (zmax (negsuc 0) x))
        (ap₂ (λ a b. price p a +ℤ best p b) (omega arith) (omega arith)
          ∙ best_zero-add p (price p (suc m)))

suc_minus : (m : ℕ) → suc m - 1 ≡ m
suc_minus m = omega arith

-- A first piece stays one where the entry does not change.
IsCut-same :
    (g : ℕ → ℤ) (t t' : Arrays) (n : ℕ)
    → entry t' n ≡ entry t n
    → first_piece t' n ≡ first_piece t n
    → IsCut g t n
    → IsCut g t' n
IsCut-same g t t' n e f (inl q) = inl (e ∙ q)
IsCut-same g t t' n e f (inr (a, b, q)) =
    inr (omega (arith, f), omega (arith, f), e ∙ q ∙ ap g (sym f))

fill_length-IsFilled :
    (p : List ℤ) (t : Arrays) (m : ℕ)
    → suc m ≤ length t.r
    → suc m ≤ length t.s
    → suc m ≤ length p
    → IsFilled p t (suc m)
    → (t' : Arrays) × (fill_length p (suc m) t ≡ some t')
      × (length t'.r ≡ length t.r)
      × (length t'.s ≡ length t.s)
      × IsFilled p t' (suc (suc m))
unfolding fill_length
fill_length-IsFilled p t m fits fits_s fits' v =
    let start = v.above (suc m) (omega arith) fits in
    let (t1, better, a) =
      improve-EntryBecomes (piece p (suc m)) t (suc m) (suc m) (price p (suc m)) (omega arith) fits
        fits_s (omega arith) (omega arith) (sym (piece_whole p m)) in
    let (t2, run, b) =
      inner_loop-EntryBecomes p (piece p (suc m)) (suc m) (suc m - 1) 1 t1 _ a.here (omega arith)
        (omega arith) (omega (arith, a.size, fits)) (omega (arith, a.size_s, fits_s)) fits'
        (λ i o l.
          let (same, _) = a.there (suc m - i) (omega arith) (omega arith) in
          let (val, _) = v.below (suc m - i) (omega arith) (omega arith) in
          ap (λ y. price p i +ℤ y) (same ∙ val)) in
    let c = EntryBecomes-trans (piece p (suc m)) t t1 t2 (suc m) _ _ a b in
    let value : entry t2 (suc m) ≡ best p (suc m) =
      c.here
      ∙ ap₂ (λ k x. fold_max (piece p (suc m)) k 1 (zmax x (price p (suc m)))) (suc_minus m) start
      ∙ sym (best-last p m fits') in
    (
      t2,
      rw
          (
            read_entry t (suc m) (omega arith) fits,
            get_elem?-eq-get_or p (suc m - 1) (pos 0) (omega arith),
            better,
          )
          run,
      c.size,
      c.size_s,
      record {
        below = λ n o l. elim (ℕ_discrete n (suc m)) [
          | yes q ↦
              subst (λ n. (entry t2 n ≡ best p n) × IsCut (piece p n) t2 n) (sym q)
                (value, c.cut (inl start))
          | no ne ↦
              let (same, first) = c.there n o ne in
              let (val, cut) = v.below n o (omega arith) in
              (same ∙ val, IsCut-same (piece p n) t t2 n same first cut)
        ];
        above = λ n o l.
            let (same, _) = c.there n (omega arith) (omega arith) in
            same ∙ v.above n (omega arith) (omega (arith, l, c.size));
      },
    )

outer_loop-IsFilled :
    (p : List ℤ) (k m : ℕ) (t : Arrays)
    → m + k ≤ length t.r
    → m + k ≤ length t.s
    → m + k ≤ length p
    → IsFilled p t (suc m)
    → (t' : Arrays) × (outer_loop p k (suc m) t ≡ some t') × IsFilled p t' (suc m + k)
unfolding outer_loop
outer_loop-IsFilled p zero m t fits fits_s fits' v = (t, refl, subst (IsFilled p t) (omega arith) v)
outer_loop-IsFilled p (suc k) m t fits fits_s fits' v =
    let (t1, run, size, size_s, v1) =
      fill_length-IsFilled p t m (omega arith) (omega arith) (omega arith) v in
    let (t2, run2, v2) =
      outer_loop-IsFilled p k (suc m) t1 (omega (arith, size)) (omega (arith, size_s)) (omega arith)
        v1 in
    (t2, rw run run2, subst (IsFilled p t2) (omega arith) v2)

-- The price of a length in the table comes from its first piece, the recursion having `fuel`.
abbrev pub FirstPiece : List ℤ → (fuel : ℕ) → Arrays → ℕ → Type 0
FirstPiece p fuel t n =
    (entry t n ≡ negsuc 0)
    ⊎ ((1 ≤ first_piece t n)
        × (first_piece t n ≤ n)
        × ((rest : ℤ) × (cut_rod fuel p (n - first_piece t n) ≡ some rest)
            × (entry t n ≡ price p (first_piece t n) +ℤ rest)))

-- The table agrees with the recursion on a length.
abbrev pub SameCut : List ℤ → (fuel : ℕ) → Arrays → ℕ → Type 0
SameCut p fuel t n = (cut_rod fuel p n ≡ some (entry t n)) × FirstPiece p fuel t n

get_or-start :
    (r : List ℤ) (i : ℕ) → get_elem? r i ≡ some (negsuc 0) → get_or r i (pos 0) ≡ negsuc 0
get_or-start [] i e = ground (arith, e)
get_or-start (x ∷ r) zero e = ground (arith, e)
get_or-start (x ∷ r) (suc i) e = get_or-start r i e

-- With prices for every length up to `len`, and arrays of this length or more of which `r` starts with
-- -1, the table is filled without a read or a write outside an array. Its price of each length is
-- what the recursion returns with any fuel above the length. Where this is not -1, its first piece of
-- the length is from 1 to the length, and the price is the one of this piece with what the recursion
-- returns for the rest.
pub dp_cut_rod-eq-cut_rod :
    (p : List ℤ) (len : ℕ) (t : Arrays)
    → len ≤ length p
    → len ≤ length t.r
    → len ≤ length t.s
    → ((n : ℕ) → n < length t.r → get_elem? t.r n ≡ some (negsuc 0))
    → (t' : Arrays) × (dp_cut_rod p len t ≡ some t')
      × ((n fuel : ℕ) → 1 ≤ n → n ≤ len → n < fuel → SameCut p fuel t' n)
unfolding dp_cut_rod
dp_cut_rod-eq-cut_rod p len t fits fits_r fits_s start =
    let (t', run, v) =
      outer_loop-IsFilled p len 0 t (omega arith) (omega arith) (omega arith) filled in
    (
      t',
      run,
      λ n fuel o l l'.
          let (val, cut) = v.below n o (omega arith) in
          (
            cut_rod-best fuel p n l' (omega arith) ∙ ap some (sym val),
            returned n fuel t' o (omega arith) l' cut,
          ),
    )
  where
    filled : IsFilled p t 1
    filled = record {
      below = λ n o l. absurd (omega arith);
      above = λ n o l. get_or-start t.r (n - 1) (start (n - 1) (omega arith));
    }

    returned :
        (n fuel : ℕ) (t' : Arrays)
        → 1 ≤ n
        → n ≤ length p
        → n < fuel
        → IsCut (piece p n) t' n
        → FirstPiece p fuel t' n
    returned n fuel t' o le lt (inl q) = inl q
    returned n fuel t' o le lt (inr (a, b, q)) = inr (
      a,
      b,
      (
        best p (n - first_piece t' n),
        cut_rod-best fuel p (n - first_piece t' n) (omega arith) (omega arith),
        q,
      ),
    )
