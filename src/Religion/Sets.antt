-- ===== src/Religion/Sets.antt =====
-- The disjoint sets of algorithm/ubiquitous_religion.c, a forest in the arrays `father` and `rank`.
-- `none` is a read outside an array, or the end of the fuel. A rank is not taken to overflow.
pub mod Forest
pub mod Joins
use somerubbish.Prelude.{
  ℕ, zero, suc, ◌+◌, List, Option, none, some, ◌>>=◌, ◌==◌, if◌then◌else◌, get_elem?, set, ltb,
  true, false,
}

pub record Sets : Type 0 where
  pub rank : List ℕ
  pub father : List ℕ

-- make_set for `x` below `n`, from malloc's contents.
unfoldable pub make_set : (x : ℕ) → Sets → Sets
make_set x t = record { rank = set t.rank x 0; father = set t.father x x }

-- The loop of main over the first `m` elements.
unfoldable pub make_sets : (m : ℕ) → Sets → Sets
make_sets zero t = t
make_sets (suc i) t = make_set i (make_sets i t)

unfoldable pub get_father : (fuel : ℕ) → Sets → (x : ℕ) → Option ℕ
get_father zero t x = none
get_father (suc fuel) t x = do
  f ← get_elem? t.father x
  elim (f == x) [ true ↦ some x | false ↦ get_father fuel t f ]

-- Union on two roots of the ranks `rx` and `ry`.
unfoldable pub link_ranks : Sets → (fx fy rx ry : ℕ) → Sets
link_ranks t fx fy rx ry = if ltb ry rx then record t { father = set t.father fy fx } else record {
  father = set t.father fx fy;
  rank = if rx == ry then set t.rank fy (suc ry) else t.rank;
}

-- Union after its two calls of get_father.
unfoldable pub link_roots : Sets → (fx fy : ℕ) → Option Sets
link_roots t fx fy =
    if fx == fy
    then some t
    else get_elem? t.rank fx
      >>= (λ rx. get_elem? t.rank fy >>= (λ ry. some (link_ranks t fx fy rx ry)))

unfoldable pub union : (fuel : ℕ) → Sets → (x y : ℕ) → Option Sets
union fuel t x y = do fx ← get_father fuel t x; fy ← get_father fuel t y; link_roots t fx fy
