-- ===== src/Religion/Sets/Forest.antt =====
-- The forest of algorithm/ubiquitous_religion.c, with ranks that rise towards the roots: make_set,
-- get_father, and a link of one root to another.
use somerubbish.Prelude.{
  ℕ, zero, suc, ◌+◌, ◌≤◌, ◌<◌, ◌≡◌, ◌≢◌, refl, ap, sym, ◌∙◌, List, none, some, arith, ◌==◌,
  if◌then◌else◌, set, length, get_or, length-set, get_or-set_self, get_or-set_ne,
  get_elem?-eq-get_or, ℕ_discrete, subst,
}
use somerubbish.Religion.Sets.{Sets, make_set, make_sets, get_father}

abbrev pub father_of : Sets → ℕ → ℕ
father_of t x = get_or t.father x 0

abbrev pub rank_of : Sets → ℕ → ℕ
rank_of t x = get_or t.rank x 0

-- `n` elements, and ranks below `k` that rise from an element to its father.
pub record IsForest (t : Sets) (n k : ℕ) : Type 0 where
  pub ranks : length t.rank ≡ n
  pub fathers : length t.father ≡ n
  pub inside : (x : ℕ) → x < n → father_of t x < n
  pub low : (x : ℕ) → x < n → rank_of t x < k
  pub rising : (x : ℕ) → x < n → father_of t x ≢ x → rank_of t x < rank_of t (father_of t x)

-- After make_set of the first `m` elements each of them is its own father, of rank 0.
make_sets-alone :
    (t : Sets) (n m : ℕ)
    → length t.rank ≡ n
    → length t.father ≡ n
    → m ≤ n
    → (length (make_sets m t).rank ≡ n)
      × (length (make_sets m t).father ≡ n)
      × ((x : ℕ) → x < m → (father_of (make_sets m t) x ≡ x) × (rank_of (make_sets m t) x ≡ 0))
unfolding make_sets make_set
make_sets-alone t n zero e e' l = (e, e', λ x h. absurd (omega arith))
make_sets-alone t n (suc i) e e' l =
    let (r, f, own) = make_sets-alone t n i e e' (omega arith) in
    (
      length-set (make_sets i t).rank i 0 ∙ r,
      length-set (make_sets i t).father i i ∙ f,
      λ x h. elim (ℕ_discrete i x) [
        | yes q ↦ (
          rw (← q) (get_or-set_self (make_sets i t).father i i 0 (omega arith)),
          rw (← q) (get_or-set_self (make_sets i t).rank i 0 0 (omega arith)),
        )
        | no ne ↦ (
          get_or-set_ne (make_sets i t).father i x i 0 ne ∙ (own x (omega arith)).0,
          get_or-set_ne (make_sets i t).rank i x 0 0 ne ∙ (own x (omega arith)).1,
        )
      ],
    )

-- The loop of make_set over arrays of any contents makes a forest.
pub make_sets-IsForest :
    (t : Sets) (n : ℕ) → length t.rank ≡ n → length t.father ≡ n → IsForest (make_sets n t) n 1
make_sets-IsForest t n e e' =
    let (r, f, own) = make_sets-alone t n n e e' (omega arith) in
    record {
      ranks = r;
      fathers = f;
      inside = λ x l. omega (arith, (own x l).0);
      low = λ x l. omega (arith, (own x l).1);
      rising = λ x l ne. absurd (ne (own x l).0);
    }

get_father-root :
    (t : Sets) (fuel x : ℕ)
    → x < length t.father
    → father_of t x ≡ x
    → get_father (suc fuel) t x ≡ some x
unfolding get_father
get_father-root t fuel x l q = rw (get_elem?-eq-get_or t.father x 0 l) (ground (arith, q))

get_father-step :
    (t : Sets) (fuel x : ℕ)
    → x < length t.father
    → father_of t x ≢ x
    → get_father (suc fuel) t x ≡ get_father fuel t (father_of t x)
unfolding get_father
get_father-step t fuel x l ne = rw (get_elem?-eq-get_or t.father x 0 l) (ground (arith, ne))

get_father-zero : (t : Sets) (x : ℕ) → get_father 0 t x ≡ none
unfolding get_father
get_father-zero t x = refl

some_inj : (a b : ℕ) → some a ≡ some b → a ≡ b
some_inj a b e = ground (arith, e)

module _ (t : Sets) (n k : ℕ) (v : IsForest t n k) where
  pub get_father-from :
      (fuel x : ℕ)
      → x < n
      → k ≤ fuel + rank_of t x
      → (r : ℕ) × (get_father fuel t x ≡ some r) × (r < n) × (father_of t r ≡ r)
  unfolding get_father
  get_father-from zero x l e = absurd (omega (arith, v.low x l))
  get_father-from (suc fuel) x l e = elim (ℕ_discrete (father_of t x) x) [
    | yes q ↦ (x, get_father-root t fuel x (omega (arith, v.fathers)) q, l, q)
    | no ne ↦
        let (r, run, l', q) =
          get_father-from fuel (father_of t x) (v.inside x l) (omega (arith, v.rising x l ne)) in
        (r, get_father-step t fuel x (omega (arith, v.fathers)) ne ∙ run, l', q)
  ]

-- `b` is linked to `a`: who had the root `b` has the root `a`, the others keep theirs.
pub link-root :
    (t t' : Sets) (a b : ℕ)
    → t'.father ≡ set t.father b a
    → a < length t.father
    → b < length t.father
    → a ≢ b
    → father_of t a ≡ a
    → father_of t b ≡ b
    → (fuel z r : ℕ) → z < length t.father
    → ((x : ℕ) → x < length t.father → father_of t x < length t.father)
    → get_father fuel t z ≡ some r
    → get_father (suc fuel) t' z ≡ some (if r == b then a else r)
link-root t t' a b e la lb ne qa qb zero z r lz inside run =
    absurd (ground (arith, get_father-zero t z, run))
link-root t t' a b e la lb ne qa qb (suc fuel) z r lz inside run =
    elim (ℕ_discrete (father_of t z) z) [
      | yes q ↦
          let rz = some_inj r z (sym run ∙ get_father-root t fuel z lz q) in
          elim (ℕ_discrete z b) [
            | yes zb ↦
                get_father-step t' (suc fuel) z (fits z lz) (λ h. ne (sym (linked z zb) ∙ h ∙ zb))
                ∙ ap (get_father (suc fuel) t') (linked z zb)
                ∙ get_father-root t' fuel a (fits a la) (kept a ne ∙ qa)
                ∙ ground (arith, rz, zb)
            | no nz ↦
                get_father-root t' (suc fuel) z (fits z lz) (kept z nz ∙ q) ∙ ground (arith, rz, nz)
          ]
      | no nq ↦
          let nz = λ (h : z ≡ b). nq (ap (father_of t) h ∙ qb ∙ sym h) in
          get_father-step t' (suc fuel) z (fits z lz) (λ h. nq (sym (kept z nz) ∙ h))
          ∙ ap (get_father (suc fuel) t') (kept z nz)
          ∙ link-root t t' a b e la lb ne qa qb fuel (father_of t z) r (inside z lz) inside
              (sym (get_father-step t fuel z lz nq) ∙ run)
    ]
  where
    fits : (x : ℕ) → x < length t.father → x < length t'.father
    fits x l = rw (e, length-set t.father b a) l

    linked : (x : ℕ) → x ≡ b → father_of t' x ≡ a
    linked x q = rw (q, e) (get_or-set_self t.father b a 0 lb)

    kept : (x : ℕ) → x ≢ b → father_of t' x ≡ father_of t x
    kept x n = rw e (get_or-set_ne t.father b x a 0 (λ h. n (sym h)))

pub get_father-more :
    (t : Sets) (fuel z r : ℕ)
    → z < length t.father
    → ((x : ℕ) → x < length t.father → father_of t x < length t.father)
    → get_father fuel t z ≡ some r
    → get_father (suc fuel) t z ≡ some r
get_father-more t zero z r lz inside run = absurd (ground (arith, get_father-zero t z, run))
get_father-more t (suc fuel) z r lz inside run = elim (ℕ_discrete (father_of t z) z) [
  | yes q ↦ get_father-root t (suc fuel) z lz q ∙ sym (get_father-root t fuel z lz q) ∙ run
  | no nq ↦
      get_father-step t (suc fuel) z lz nq
      ∙ get_father-more t fuel (father_of t z) r (inside z lz) inside
          (sym (get_father-step t fuel z lz nq) ∙ run)
]

-- A link of a root to a root of a rank that is not lower, the latter raised when they are equal.
pub link-IsForest :
    (t : Sets) (n k a b : ℕ) (rank : List ℕ)
    → IsForest t n k
    → a < n
    → b < n
    → a ≢ b
    → father_of t a ≡ a
    → father_of t b ≡ b
    → length rank ≡ n
    → rank_of t b < get_or rank a 0
    → get_or rank a 0 < suc k
    → ((x : ℕ) → x ≢ a → get_or rank x 0 ≡ rank_of t x)
    → rank_of t a ≤ get_or rank a 0
    → IsForest (record { rank = rank; father = set t.father b a }) n (suc k)
link-IsForest t n k a b rank v la lb ne qa qb size more low same up = record {
  ranks = size;
  fathers = length-set t.father b a ∙ v.fathers;
  inside = λ x l. elim (ℕ_discrete x b) [
    | yes q ↦ rw (linked x q) la
    | no nb ↦ rw (kept x nb) (v.inside x l)
  ];
  low = λ x l. elim (ℕ_discrete x a) [
    | yes q ↦ subst (λ x. get_or rank x 0 < suc k) (sym q) low
    | no na ↦ omega (arith, same x na, v.low x l)
  ];
  rising = λ x l nf. elim (ℕ_discrete x b) [
    | yes q ↦ rw (linked x q) (omega (arith, more, same x (λ h. ne (sym h ∙ q)), ap (rank_of t) q))
    | no nb ↦
        let nx = λ (h : father_of t x ≡ x). nf (kept x nb ∙ h) in
        rw (kept x nb) (
          omega (
            arith,
            v.rising x l nx,
            same x (λ h. nx (ap (father_of t) h ∙ qa ∙ sym h)),
            raised (father_of t x),
          ))
  ];
}
  where
    linked : (x : ℕ) → x ≡ b → get_or (set t.father b a) x 0 ≡ a
    linked x q = rw q (get_or-set_self t.father b a 0 (omega (arith, lb, v.fathers)))

    kept : (x : ℕ) → x ≢ b → get_or (set t.father b a) x 0 ≡ father_of t x
    kept x n = get_or-set_ne t.father b x a 0 (λ h. n (sym h))

    raised : (x : ℕ) → rank_of t x ≤ get_or rank x 0
    raised x = elim (ℕ_discrete x a) [
      | yes q ↦ subst (λ x. rank_of t x ≤ get_or rank x 0) (sym q) up
      | no na ↦ omega (arith, same x na)
    ]
