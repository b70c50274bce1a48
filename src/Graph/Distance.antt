-- ===== src/Graph/Distance.antt =====
-- The longest distance in a binary tree: graph/MaxDistanceInTree.c. No node of a tree stands in it
-- twice. An `int` is not taken to overflow.
pub mod Longest
use somerubbish.Prelude.{if◌then◌else◌}
use somerubbish.Prelude.Int.{ℤ, pos, negsuc, ◌+ℤ◌, ltb_ℤ}

-- A pointer to `node`: NULL, or a node with its two links.
pub data Node : Type 0 where
  null : Node
  node : (l r : Node) → Node

unfoldable pub imax : ℤ → ℤ → ℤ
imax i j = if ltb_ℤ i j then j else i

-- `*max_dis` and `*max_dep`.
unfoldable pub get_max_distance : Node → ℤ × ℤ
get_max_distance null = (pos 0, negsuc 0)
get_max_distance (node l r) =
    let (l_max_dis, l_max_dep) = get_max_distance l in
    let (r_max_dis, r_max_dep) = get_max_distance r in
    (
      imax (imax l_max_dis r_max_dis) (l_max_dep +ℤ r_max_dep +ℤ pos 2),
      imax (l_max_dep +ℤ pos 1) (r_max_dep +ℤ pos 1),
    )
