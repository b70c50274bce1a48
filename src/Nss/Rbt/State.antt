-- ===== src/Nss/Rbt/State.antt =====
-- The red-black tree of nss.c as a whole, between the calls.
use somerubbish.Prelude.{
  ℕ, ◌+◌, ◌≤◌, ◌<◌, ◌≡◌, refl, ap, sym, subst, List, [], ◌∷◌, append_assoc, arith, Option, some,
}
use somerubbish.Nss.Rbt.{
  Color, red, black, RbtNode, Rbt, nil_node, update, init_rbt, new_rbt_node, rb_insert, left_rotate,
  right_rotate,
}
use somerubbish.Nss.Rbt.Tree.{Tree, leaf, node, Frame, count, IsPlace, keys, plug}
use somerubbish.Nss.Rbt.Write.{update_self}
use somerubbish.Nss.Rbt.Place.{keys-plug}
use somerubbish.Nss.Rbt.Rotate.{left_rotate-IsPlace, right_rotate-IsPlace}
use somerubbish.Nss.Rbt.Balance.{color_of, IsRb}
use somerubbish.Nss.Rbt.Order.{insert_key, IsSorted, insert_key-IsSorted}
use somerubbish.Nss.Rbt.Way.{depth}
use somerubbish.Nss.Rbt.Attach.{update-IsPlace}
use somerubbish.Nss.Rbt.Insert.{rb_insert-BlackMended}

-- The memory holds a balanced tree with a black root, whose keys are sorted.
pub record IsRbt (h : Rbt) (t : Tree) : Type 0 where
  pub place : IsPlace h [] t
  pub height : ℕ
  pub rb : IsRb height t
  pub top : color_of t ≡ black
  pub sorted : IsSorted (keys t)

-- After init_rbt the tree is empty.
pub init_rbt-IsRbt : (h : Rbt) → IsRbt (init_rbt h) leaf
unfolding init_rbt
init_rbt-IsRbt h = record {
  place = record {
    below = tt;
    above = refl;
    once = λ b. omega arith;
    nil = ap (λ n. n.c) (update_self h 0 (λ n. record n { c = black }));
  };
  height = 0;
  rb = refl;
  top = refl;
  sorted = tt;
}

-- A call ends with a tree that has these keys.
pub record EndsWith (o : Option Rbt) (ks : List ℕ) : Type 0 where
  pub memory : Rbt
  pub tree : Tree
  pub ends : o ≡ some memory
  pub is_rbt : IsRbt memory tree
  pub same : keys tree ≡ ks

-- With the tree in memory, a node of new_rbt_node at an address that is not in the tree, and fuel
-- for the depth of the tree, rb_insert ends with a balanced tree, whose keys are those of the
-- insertion into the sorted list.
pub rb_insert-IsRbt :
    (fuel : ℕ) (h : Rbt) (key z : ℕ) (t : Tree)
    → IsRbt h t
    → 0 < z
    → count z t ≡ 0
    → depth t + 3 ≤ fuel
    → EndsWith (rb_insert fuel (new_rbt_node h key (some z)).0 z) (insert_key key (keys t))
unfolding new_rbt_node
rb_insert-IsRbt fuel h key z t v pos out lt =
    let fresh : RbtNode → RbtNode =
      λ n. record { i = key; c = red; l = nil_node; r = nil_node; p = nil_node } in
    let (m, top) =
      rb_insert-BlackMended fuel (update h z fresh) z key v.height t pos out
        (ap (λ n. n.i) (update_self h z fresh))
        (update-IsPlace h z fresh [] t pos (omega arith) v.place) v.rb v.top v.sorted lt in
    record {
      memory = m.memory;
      tree = m.tree;
      ends = m.ends;
      is_rbt = record {
        place = m.holds;
        height = m.height;
        rb = m.rb;
        top = top;
        sorted = subst IsSorted (sym m.same) (insert_key-IsSorted key (keys t) v.sorted);
      };
      same = m.same;
    }

-- A rotation to the left at any place keeps the keys in order, and the rotation to the right
-- undoes it.
pub right_rotate-left_rotate :
    (h : Rbt) (fs : List Frame) (x k : ℕ) (c : Color) (y k' : ℕ) (c' : Color) (l m r : Tree)
    → IsPlace h fs (node x k c l (node y k' c' m r))
    → IsPlace (left_rotate h x) fs (node y k' c' (node x k c l m) r)
      × IsPlace (right_rotate (left_rotate h x) y) fs (node x k c l (node y k' c' m r))
      × (keys (plug fs (node y k' c' (node x k c l m) r))
          ≡ keys (plug fs (node x k c l (node y k' c' m r))))
right_rotate-left_rotate h fs x k c y k' c' l m r v =
    let turned = left_rotate-IsPlace h fs x k c y k' c' l m r v in
    (
      turned,
      right_rotate-IsPlace (left_rotate h x) fs y k' c' x k c l m r turned,
      keys-plug fs _ _ (append_assoc (keys l) (k ∷ keys m) (k' ∷ keys r)),
    )
