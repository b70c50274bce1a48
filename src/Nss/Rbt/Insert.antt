-- ===== src/Nss/Rbt/Insert.antt =====
-- rb_insert of nss.c: an insertion into a sorted list of keys, on a balanced tree.
use somerubbish.Prelude.{
  ℕ, ◌+◌, ◌≤◌, ◌<◌, ◌≡◌, refl, ap, sym, subst, ◌∙◌, [], ◌∷◌, arith, Option, some, ◌>>=◌, ◌==◌,
  if◌then◌else◌, inl, inr,
}
use somerubbish.Nss.Rbt.{
  red, black, RbtNode, Rbt, nil_node, key_loop, set_p, get_node_by_key, insert_red, insert_at,
  rb_insert,
}
use somerubbish.Nss.Rbt.Tree.{Tree, leaf, node, plug, count, count_above, IsPlace, keys, count-plug}
use somerubbish.Nss.Rbt.Write.{update_self, update_other}
use somerubbish.Nss.Rbt.Balance.{color_of, IsRb}
use somerubbish.Nss.Rbt.Order.{insert_key, IsSorted}
use somerubbish.Nss.Rbt.Loop.{BlackMended}
use somerubbish.Nss.Rbt.Way.{depth}
use somerubbish.Nss.Rbt.Locate.{get_node_by_key-Located}
use somerubbish.Nss.Rbt.Attach.{
  update-IsPlace, insert_red-BlackMended, insert_at_same, insert_at-BlackMended,
}

module _ (fuel : ℕ) (h : Rbt) (z key : ℕ) (pos : 0 < z) (ek : (h.at z).i ≡ key) where
  rb_insert_found :
      {b di : ℕ}
      → get_node_by_key fuel h key ≡ some (b, di)
      → rb_insert fuel h z ≡ insert_at fuel h z b di
  unfolding rb_insert
  rb_insert_found e =
      let go : Option (ℕ × ℕ) → Option Rbt = λ o. o >>= (λ (b, di). insert_at fuel h z b di) in
      ap (λ k. go (get_node_by_key fuel h k)) ek ∙ ap go e

  -- The first node.
  insert_first :
      get_node_by_key fuel h key ≡ some (nil_node, 0)
      → rb_insert fuel h z ≡ insert_red fuel (record (set_p h z nil_node) { root = z }) z
  unfolding insert_at
  insert_first e = rb_insert_found e

  first-BlackMended : IsPlace h [] leaf → 3 ≤ fuel → BlackMended (key ∷ []) (rb_insert fuel h z)
  unfolding get_node_by_key
  first-BlackMended v lt =
      let to_p : RbtNode → RbtNode = λ n. record n { p = nil_node } in
      let from : ℕ → Option (ℕ × ℕ) =
        λ b. if b == nil_node then some (nil_node, 0) else key_loop fuel h key h.root in
      let cell = update_self h z to_p in
      subst (BlackMended (key ∷ [])) (sym (insert_first (ap from v.above))) (
        insert_red-BlackMended fuel (record (set_p h z nil_node) { root = z }) [] z key pos
          (ap (λ n. n.i) cell ∙ ek) (ap (λ n. n.p) cell) refl refl (λ b. omega arith)
          (ap (λ n. n.c) (update_other h to_p (λ e. omega arith)) ∙ v.nil) refl lt)

-- rb_insert of a new node into a balanced tree with sorted keys, with fuel for its depth, ends with
-- a balanced tree with a black root, whose keys are those of the insertion into the list.
pub rb_insert-BlackMended :
    (fuel : ℕ) (h : Rbt) (z key n : ℕ) (t : Tree)
    → 0 < z
    → count z t ≡ 0
    → (h.at z).i ≡ key
    → IsPlace h [] t
    → IsRb n t
    → color_of t ≡ black
    → IsSorted (keys t)
    → depth t + 3 ≤ fuel
    → BlackMended (insert_key key (keys t)) (rb_insert fuel h z)
rb_insert-BlackMended fuel h z key n leaf pos out ek v rb e s lt =
    first-BlackMended fuel h z key pos ek v (omega arith)
rb_insert-BlackMended fuel h z key n (node a k c l r) pos out ek v rb e s lt =
    let t = node a k c l r in
    elim (get_node_by_key-Located fuel h key a k n c l r (omega arith) v rb e s) [
      | inl hit ↦
          subst (BlackMended (insert_key key (keys t)))
            (sym (
              rb_insert_found fuel h z key pos ek hit.found
              ∙ insert_at_same fuel h z hit.at_node hit.not_nil))
            (
              record {
                memory = set_p h z hit.at_node;
                tree = t;
                height = n;
                ends = refl;
                holds =
                    update-IsPlace h z (λ n. record n { p = hit.at_node }) [] t pos (omega arith) v;
                same = sym hit.known;
                rb = rb;
              },
              e,
            )
      | inr miss ↦
          let fs = miss.frame ∷ miss.frames in
          let new = node z key red leaf leaf in
          let there : count z (plug fs leaf) ≡ 0 = ap (count z) miss.is_in ∙ out in
          let same : count z (plug fs leaf) ≡ count z leaf + count_above z fs =
            count-plug z fs leaf in
          subst (λ ks. BlackMended ks (rb_insert fuel h z)) (miss.fits new refl)
            (subst (BlackMended (keys (plug fs new)))
              (sym (rb_insert_found fuel h z key pos ek miss.found))
              (insert_at-BlackMended fuel h z key pos ek miss.frame miss.frames miss.free
                (omega arith) miss.rb (let near = miss.near in omega arith)))
    ]
