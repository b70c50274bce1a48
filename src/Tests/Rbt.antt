-- ===== src/Tests/Rbt.antt =====
-- Runs of the red-black tree of nss.c over a tree of three nodes.
use somerubbish.Prelude.{
  ℕ, ◌+◌, ◌≤◌, ◌<◌, ◌≡◌, inl, inr, refl, List, [], ◌∷◌, ◌++◌, some, Option, arith, ◌==◌,
  if◌then◌else◌, ◌>>=◌,
}
use somerubbish.Nss.Rbt.{
  Color, red, black, RbtNode, Rbt, new_rbt_node, rb_insert, get_node_by_key, key_loop, insert_at,
  insert_red, rb_insert_fixup, fixup_loop, fixup_round, left_case, repaint, replace_child,
}
use somerubbish.Nss.Rbt.Tree.{Tree, leaf, node, Frame, is_left, is_right, one, count, IsPlace, keys}
use somerubbish.Nss.Rbt.Place.{down_left, down_right}
use somerubbish.Nss.Rbt.State.{IsRbt, EndsWith, rb_insert-IsRbt}
use somerubbish.Nss.Rbt.Found.{IsIn, Finds, get_node_by_key-Finds}
use somerubbish.Nss.Rbt.Delete.{
  rb_delete, rb_delete_fixup, delete_loop, delete_round, left_brother, node_to_delete, delete_node,
  unlink,
}
use somerubbish.Nss.Rbt.Delete.Deletes.{Deletes, rb_delete-Deletes}
use somerubbish.Nss.Rbt.Delete.RoundTrip.{rb_delete-rb_insert}
use somerubbish.Nss.Rbt.Walk.{rb_suc, rb_pre, rb_min}
use somerubbish.Nss.Rbt.Walk.Next.{IsStart, rb_suc-IsStart}
use somerubbish.Nss.Rbt.Walk.Previous.{IsEnd, rb_pre-IsEnd}

-- 5 and 15 are red below 10.
abbrev three_nodes : ℕ → RbtNode
three_nodes b =
    if b == 1
    then record { i = 10; c = black; l = 2; r = 3; p = 0 }
    else if b == 2
    then record { i = 5; c = red; l = 0; r = 0; p = 1 }
    else if b == 3
    then record { i = 15; c = red; l = 0; r = 0; p = 1 }
    else record { i = 0; c = black; l = 0; r = 0; p = 0 }

abbrev three : Rbt
three = record { root = 1; at = three_nodes }

abbrev left_tree : Tree
left_tree = node 2 5 red leaf leaf

abbrev right_tree : Tree
right_tree = node 3 15 red leaf leaf

abbrev three_tree : Tree
three_tree = node 1 10 black left_tree right_tree

three_once : (b : ℕ) → one 1 b + (one 2 b + 0 + 0) + (one 3 b + 0 + 0) + 0 ≤ 1
unfolding one
three_once b = ground arith

three-IsPlace : IsPlace three [] three_tree
three-IsPlace = record {
  below = (omega arith, refl, (omega arith, refl, tt, tt), (omega arith, refl, tt, tt));
  above = refl;
  once = three_once;
  nil = refl;
}

three-IsRbt : IsRbt three three_tree
three-IsRbt = record {
  place = three-IsPlace;
  height = 1;
  rb = (0, refl, (refl, refl, refl, refl), (refl, refl, refl, refl));
  top = refl;
  sorted = ((omega arith, (omega arith, tt)), ((omega arith, tt), (tt, tt)));
}

four_is_free : count 4 three_tree ≡ 0
unfolding one
four_is_free = refl

-- The nodes of 5 and 15 are painted black.
abbrev colors : Rbt → Option (List Color)
colors t = some ((t.at 2).c ∷ (t.at 3).c ∷ (t.at 4).c ∷ [])

repaint_run :
    (rb_insert 5 (new_rbt_node three 7 (some 4)).0 4 >>= colors) ≡ some (black ∷ black ∷ red ∷ [])
unfolding rb_insert new_rbt_node get_node_by_key key_loop insert_at insert_red rb_insert_fixup
    fixup_loop fixup_round left_case repaint
repaint_run = refl

rb_insert-IsRbt_example :
    EndsWith (rb_insert 5 (new_rbt_node three 7 (some 4)).0 4) (5 ∷ 7 ∷ 10 ∷ 15 ∷ [])
rb_insert-IsRbt_example =
    rb_insert-IsRbt 5 three 7 4 three_tree three-IsRbt (omega arith) four_is_free (omega arith)

get_node_by_key-Finds_example :
    (a : ℕ) × (d : ℕ) × (get_node_by_key 4 three 15 ≡ some (a, d))
    × Finds three 15 (5 ∷ 10 ∷ 15 ∷ []) a d
get_node_by_key-Finds_example =
    get_node_by_key-Finds 4 2 three 15 three_tree three-IsRbt (omega arith) (omega arith)

abbrev at_left : List Frame
at_left = is_left 1 10 black right_tree ∷ []

at_left-IsPlace : IsPlace three at_left left_tree
at_left-IsPlace = down_left three [] 1 10 black left_tree right_tree three-IsPlace

abbrev at_right : List Frame
at_right = is_right 1 10 black left_tree ∷ []

at_right-IsPlace : IsPlace three at_right right_tree
at_right-IsPlace = down_right three [] 1 10 black left_tree right_tree three-IsPlace

rb_suc-IsStart_example :
    (b : ℕ) × (xs : List ℕ) × (ys : List ℕ) × (rb_suc 2 three 2 ≡ some b)
    × ((5 ∷ 10 ∷ 15 ∷ []) ≡ xs ++ 5 ∷ ys)
    × IsStart three b ys
rb_suc-IsStart_example =
    rb_suc-IsStart 2 three at_left 2 5 red leaf leaf (omega arith) at_left-IsPlace

rb_pre-IsEnd_example :
    (b : ℕ) × (xs : List ℕ) × (ys : List ℕ) × (rb_pre 2 three 3 ≡ some b)
    × ((5 ∷ 10 ∷ 15 ∷ []) ≡ xs ++ 15 ∷ ys)
    × IsEnd three b xs
rb_pre-IsEnd_example =
    rb_pre-IsEnd 2 three at_right 3 15 red leaf leaf (omega arith) at_right-IsPlace

-- The root takes the key of the node after it, which goes.
abbrev root_keys : Rbt × ℕ → Option (List ℕ)
root_keys (t, y) = some (y ∷ (t.at t.root).i ∷ (t.at t.root).r ∷ [])

delete_run : (rb_delete 5 three 10 >>= root_keys) ≡ some (3 ∷ 15 ∷ 0 ∷ [])
unfolding rb_delete get_node_by_key key_loop node_to_delete rb_suc rb_min delete_node unlink
    replace_child
delete_run = refl

rb_delete-Deletes_example : Deletes three three_tree 10 (rb_delete 6 three 10)
rb_delete-Deletes_example = rb_delete-Deletes 6 three 10 three_tree three-IsRbt (omega arith)

seven_is_new : IsIn 7 (keys three_tree) → ⊥
seven_is_new (inl e) = omega arith
seven_is_new (inr (inl e)) = omega arith
seven_is_new (inr (inr (inl e))) = omega arith
seven_is_new (inr (inr (inr e))) = elim e [ ]

rb_delete-rb_insert_example :
    (g : Rbt) × (rb_insert 8 (new_rbt_node three 7 (some 4)).0 4 ≡ some g)
    × (g' : Rbt) × (y : ℕ) × (rb_delete 8 g 7 ≡ some (g', y))
    × (0 < y)
    × (s : Tree) × IsRbt g' s
    × (keys s ≡ 5 ∷ 10 ∷ 15 ∷ [])
rb_delete-rb_insert_example =
    rb_delete-rb_insert 8 2 three 7 4 three_tree three-IsRbt (omega arith) four_is_free seven_is_new
      (omega arith) (omega arith)

-- The same tree in black: without 5, its brother turns red.
abbrev black_nodes : ℕ → RbtNode
black_nodes b = record (three_nodes b) { c = black }

abbrev root_and_right : Rbt × ℕ → Option (List Color)
root_and_right (t, y) = some ((t.at 1).c ∷ (t.at 3).c ∷ [])

brother_run :
    (rb_delete 5 (record { root = 1; at = black_nodes }) 5 >>= root_and_right)
    ≡ some (black ∷ red ∷ [])
unfolding rb_delete get_node_by_key key_loop node_to_delete delete_node unlink replace_child
    rb_delete_fixup delete_loop delete_round left_brother
brother_run = refl
