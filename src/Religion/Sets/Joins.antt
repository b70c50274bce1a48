-- ===== src/Religion/Sets/Joins.antt =====
-- Union of algorithm/ubiquitous_religion.c on a forest.
use somerubbish.Prelude.{
  ℕ, suc, ◌<◌, ◌≡◌, ◌≢◌, ◌⊎◌, refl, ap, sym, ◌∙◌, List, some, arith, ◌==◌, ◌||◌, if◌then◌else◌, set,
  ltb, false, Bool-cases, inl, inr, length-set, get_or-set_self, get_or-set_ne, get_elem?-eq-get_or,
  ℕ_discrete,
}
use somerubbish.Religion.Sets.{Sets, get_father, link_ranks, link_roots, union}
use somerubbish.Religion.Sets.Forest.{
  father_of, rank_of, IsForest, get_father-from, link-root, link-IsForest, get_father-more,
}

-- From `t` to `t'` the sets with the roots `fx` and `fy` get one root of the two, and the others
-- keep theirs. The fuel grows by one.
pub record Joins (t : Sets) (n fuel fx fy : ℕ) (t' : Sets) : Type 0 where
  pub root : ℕ
  pub one_of : (root ≡ fx) ⊎ (root ≡ fy)
  pub look :
      (z r : ℕ)
      → z < n
      → get_father fuel t z ≡ some r
      → get_father (suc fuel) t' z ≡ some (if (r == fx) || (r == fy) then root else r)

pick_first :
    (r fx fy : ℕ) → (if r == fy then fx else r) ≡ (if (r == fx) || (r == fy) then fx else r)
pick_first r fx fy = ground arith

pick_second :
    (r fx fy : ℕ) → (if r == fx then fy else r) ≡ (if (r == fx) || (r == fy) then fy else r)
pick_second r fx fy = ground arith

look_of :
    (t : Sets) (n k a b : ℕ) (rank : List ℕ)
    → IsForest t n k
    → a < n
    → b < n
    → a ≢ b
    → father_of t a ≡ a
    → father_of t b ≡ b
    → (z r : ℕ) → z < n
    → get_father k t z ≡ some r
    → get_father (suc k) (record { rank = rank; father = set t.father b a }) z
      ≡ some (if r == b then a else r)
look_of t n k a b rank v la lb ne qa qb z r l e =
    link-root t (record { rank = rank; father = set t.father b a }) a b refl
      (omega (arith, la, v.fathers)) (omega (arith, lb, v.fathers)) ne qa qb k z r
      (omega (arith, l, v.fathers))
      (λ x h. omega (arith, v.inside x (omega (arith, h, v.fathers)), v.fathers)) e

-- link_ranks when the rank of `fx` is not the greater.
abbrev linked_second : Sets → (fx fy : ℕ) → Sets
linked_second t fx fy = record {
  rank = if rank_of t fx == rank_of t fy then set t.rank fy (suc (rank_of t fy)) else t.rank;
  father = set t.father fx fy;
}

link_ranks-Joins :
    (t : Sets) (n k fx fy : ℕ)
    → IsForest t n k
    → fx < n
    → fy < n
    → fx ≢ fy
    → father_of t fx ≡ fx
    → father_of t fy ≡ fy
    → IsForest (link_ranks t fx fy (rank_of t fx) (rank_of t fy)) n (suc k)
      × Joins t n k fx fy (link_ranks t fx fy (rank_of t fx) (rank_of t fy))
unfolding link_ranks
link_ranks-Joins t n k fx fy v lx ly ne qx qy =
    elim (Bool-cases (ltb (rank_of t fy) (rank_of t fx))) [
      | inl b ↦ rw b (
        link-IsForest t n k fx fy t.rank v lx ly ne qx qy v.ranks (ground (arith, b))
            (omega (arith, v.low fx lx)) (λ x h. refl) (omega arith),
        record {
          root = fx;
          one_of = inl refl;
          look = λ z r l e.
              look_of t n k fx fy t.rank v lx ly ne qx qy z r l e ∙ ap some (pick_first r fx fy);
        },
      )
      | inr b ↦ rw b (second b)
    ]
  where
    look_second :
        (rank : List ℕ) (z r : ℕ)
        → z < n
        → get_father k t z ≡ some r
        → get_father (suc k) (record { rank = rank; father = set t.father fx fy }) z
          ≡ some (if (r == fx) || (r == fy) then fy else r)
    look_second rank z r l e =
        look_of t n k fy fx rank v ly lx (λ h. ne (sym h)) qy qx z r l e
        ∙ ap some (pick_second r fx fy)

    second :
        ltb (rank_of t fy) (rank_of t fx) ≡ false
        → IsForest (linked_second t fx fy) n (suc k) × Joins t n k fx fy (linked_second t fx fy)
    second b = elim (Bool-cases (rank_of t fx == rank_of t fy)) [
      | inl c ↦
          let top = get_or-set_self t.rank fy (suc (rank_of t fy)) 0 (omega (arith, ly, v.ranks)) in
          rw c (
            link-IsForest t n k fy fx (set t.rank fy (suc (rank_of t fy))) v ly lx (λ h. ne (sym h))
                qy qx (length-set t.rank fy _ ∙ v.ranks) (rw top (ground (arith, c)))
                (rw top (omega (arith, v.low fy ly)))
                (λ x h. get_or-set_ne t.rank fy x _ 0 (λ q. h (sym q))) (rw top (omega arith)),
            record { root = fy; one_of = inr refl; look = look_second _ },
          )
      | inr c ↦ rw c (
        link-IsForest t n k fy fx t.rank v ly lx (λ h. ne (sym h)) qy qx v.ranks
            (ground (arith, b, c)) (omega (arith, v.low fy ly)) (λ x h. refl) (omega arith),
        record { root = fy; one_of = inr refl; look = look_second _ },
      )
    ]

-- Union returns: the elements' roots are found, the sets with these roots are joined and no
-- others, and the result is a forest again, with ranks below one more.
pub union-Joins :
    (t : Sets) (n k x y : ℕ)
    → IsForest t n k
    → x < n
    → y < n
    → (t' : Sets) × (fx : ℕ) × (fy : ℕ) × (union k t x y ≡ some t')
      × (get_father k t x ≡ some fx)
      × (get_father k t y ≡ some fy)
      × IsForest t' n (suc k)
      × Joins t n k fx fy t'
unfolding union link_roots
union-Joins t n k x y v lx ly =
    let (fx, ex, lfx, qx) = get_father-from t n k v k x lx (omega arith) in
    let (fy, ey, lfy, qy) = get_father-from t n k v k y ly (omega arith) in
    elim (ℕ_discrete fx fy) [
      | yes q ↦ (
        t,
        fx,
        fy,
        rw (ex, ey) (ground (arith, q)),
        ex,
        ey,
        later v,
        record {
          root = fx;
          one_of = inl refl;
          look = λ z r l e.
              get_father-more t k z r (omega (arith, l, v.fathers))
                (λ x h. omega (arith, v.inside x (omega (arith, h, v.fathers)), v.fathers)) e
              ∙ ap some (ground (arith, q));
        },
      )
      | no ne ↦
          let (forest, joins) = link_ranks-Joins t n k fx fy v lfx lfy ne qx qy in
          (
            link_ranks t fx fy (rank_of t fx) (rank_of t fy),
            fx,
            fy,
            rw
                (
                  ex,
                  ey,
                  get_elem?-eq-get_or t.rank fx 0 (omega (arith, lfx, v.ranks)),
                  get_elem?-eq-get_or t.rank fy 0 (omega (arith, lfy, v.ranks)),
                )
                (ground (arith, ne)),
            ex,
            ey,
            forest,
            joins,
          )
    ]
  where
    later : IsForest t n k → IsForest t n (suc k)
    later v = record {
      ranks = v.ranks;
      fathers = v.fathers;
      inside = v.inside;
      low = λ x l. omega (arith, v.low x l);
      rising = v.rising;
    }
