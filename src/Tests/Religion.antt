-- ===== src/Tests/Religion.antt =====
-- Runs of the disjoint sets of algorithm/ubiquitous_religion.c.
use somerubbish.Prelude.{ℕ, ◌≡◌, refl, [], ◌∷◌, some, arith}
use somerubbish.Religion.Sets.{Sets, make_set, make_sets, get_father, link_ranks, link_roots, union}
use somerubbish.Religion.Sets.Forest.{IsForest, make_sets-IsForest}
use somerubbish.Religion.Sets.Joins.{Joins, union-Joins}

abbrev raw : Sets
raw = record { rank = 9 ∷ 9 ∷ 9 ∷ []; father = 7 ∷ 7 ∷ 7 ∷ [] }

abbrev joined : Sets
joined = record { rank = 0 ∷ 1 ∷ 0 ∷ []; father = 1 ∷ 1 ∷ 2 ∷ [] }

union_run : union 1 (make_sets 3 raw) 0 1 ≡ some joined
unfolding union link_roots link_ranks make_sets make_set get_father
union_run = refl

union-Joins_example :
    (t' : Sets) × (fx : ℕ) × (fy : ℕ) × (union 1 (make_sets 3 raw) 0 1 ≡ some t')
    × (get_father 1 (make_sets 3 raw) 0 ≡ some fx)
    × (get_father 1 (make_sets 3 raw) 1 ≡ some fy)
    × IsForest t' 3 2
    × Joins (make_sets 3 raw) 3 1 fx fy t'
union-Joins_example =
    union-Joins (make_sets 3 raw) 3 1 0 1 (make_sets-IsForest raw 3 refl refl) (omega arith)
      (omega arith)
