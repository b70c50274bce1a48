-- ===== src/Nss/Rbt/Delete/Node.antt =====
-- delete_node of rb_delete of nss.c at every place: the key of the node is out.
use somerubbish.Prelude.{
  ℕ, ◌+◌, ◌≤◌, ◌<◌, ◌≡◌, refl, ap, sym, subst, ◌∙◌, List, ◌∷◌, ◌++◌, length, length-append, arith,
  ◌==◌, if◌then◌else◌,
}
use somerubbish.Nss.Rbt.{Color, red, black, Rbt, nil_node}
use somerubbish.Nss.Rbt.Tree.{Tree, leaf, node, Frame, is_right, root_of, plug, IsPlace, keys}
use somerubbish.Nss.Rbt.Write.{==_other}
use somerubbish.Nss.Rbt.Place.{at_root}
use somerubbish.Nss.Rbt.Balance.{IsRb, IsRbAbove}
use somerubbish.Nss.Rbt.Delete.{set_i, unlink, delete_node}
use somerubbish.Nss.Rbt.Delete.Gap.{IsGap}
use somerubbish.Nss.Rbt.Delete.Unlink.{unlink-y, unlink-IsGap}
use somerubbish.Nss.Rbt.Delete.Rekey.{set_i-IsGap, IsRbAbove-rekey}
use somerubbish.Nss.Rbt.Delete.Repair.{
  Deleted, delete_node_at, delete_node_next, Rest, repair-Deleted,
}

-- The balance of a node whose other child is NIL_NODE.
right-Rest : (n a k : ℕ) (c : Color) (t : Tree) → IsRb n (node a k c leaf t) → Rest n c t
right-Rest n a k red t (el, er, vl, vr) = (er, vr)
right-Rest n a k black t (m, e, vl, vr) = (m, e, vr)

left-Rest : (n a k : ℕ) (c : Color) (t : Tree) → IsRb n (node a k c t leaf) → Rest n c t
left-Rest n a k red t (el, er, vl, vr) = (el, vl)
left-Rest n a k black t (m, e, vl, vr) = (m, e, vl)

module _ (h : Rbt) (fs : List Frame) (y k : ℕ) (c : Color) (t : Tree) where
  lift_right : IsPlace h fs (node y k c leaf t) → IsGap (unlink h y (root_of t)) fs t
  lift_right v =
      let (pos, e, vl, vr) = v.below in
      unlink-IsGap h fs y t pos (ap (λ n. n.p) e) vr v.above (λ b. let o = v.once b in omega arith)
        v.nil

  lifted_right : IsPlace h fs (node y k c leaf t) → (unlink h y (root_of t)).at y ≡ h.at y
  lifted_right v =
      let (pos, e, vl, vr) = v.below in
      unlink-y h fs y t pos (ap (λ n. n.p) e) vr v.above (λ b. let o = v.once b in omega arith)
        v.nil

  lift_left : IsPlace h fs (node y k c t leaf) → IsGap (unlink h y (root_of t)) fs t
  lift_left v =
      let (pos, e, vl, vr) = v.below in
      unlink-IsGap h fs y t pos (ap (λ n. n.p) e) vl v.above (λ b. let o = v.once b in omega arith)
        v.nil

  lifted_left : IsPlace h fs (node y k c t leaf) → (unlink h y (root_of t)).at y ≡ h.at y
  lifted_left v =
      let (pos, e, vl, vr) = v.below in
      unlink-y h fs y t pos (ap (λ n. n.p) e) vl v.above (λ b. let o = v.once b in omega arith)
        v.nil

choose_right :
    (h : Rbt) (y : ℕ) {x : ℕ}
    → (h.at y).l ≡ 0
    → (h.at y).r ≡ x
    → (if (h.at y).l == nil_node then (h.at y).r else (h.at y).l) ≡ x
choose_right h y e q = rw e q

choose_left :
    (h : Rbt) (y : ℕ) {x : ℕ}
    → (h.at y).l ≡ x
    → 0 < x
    → (if (h.at y).l == nil_node then (h.at y).r else (h.at y).l) ≡ x
choose_left h y {x = x} e pos = rw (e, ==_other {a = x} {b = 0} (λ q. omega arith)) refl

module _ (fuel : ℕ) (h : Rbt) (fs : List Frame) (z k n : ℕ) (c : Color) where
  pub no_left :
      (r : Tree)
      → length fs + 4 ≤ fuel
      → IsPlace h fs (node z k c leaf r)
      → IsRb n (node z k c leaf r)
      → IsRbAbove n c fs
      → Deleted (keys (plug fs r)) z (delete_node fuel h z z)
  no_left r lt v rb w =
      let e = at_root v in
      subst (Deleted (keys (plug fs r)) z)
        (sym
          (delete_node_at fuel h z z (choose_right h z (ap (λ n. n.l) e) (ap (λ n. n.r) e)) refl))
        (repair-Deleted fuel (unlink h z (root_of r)) fs r z n c lt (lift_right h fs z k c r v)
          (ap (λ n. n.c) (lifted_right h fs z k c r v ∙ e)) (right-Rest n z k c r rb) w)

  pub no_right :
      (l : Tree)
      → 0 < root_of l
      → length fs + 4 ≤ fuel
      → IsPlace h fs (node z k c l leaf)
      → IsRb n (node z k c l leaf)
      → IsRbAbove n c fs
      → Deleted (keys (plug fs l)) z (delete_node fuel h z z)
  no_right l pos lt v rb w =
      let e = at_root v in
      subst (Deleted (keys (plug fs l)) z)
        (sym (delete_node_at fuel h z z (choose_left h z (ap (λ n. n.l) e) pos) refl))
        (repair-Deleted fuel (unlink h z (root_of l)) fs l z n c lt (lift_left h fs z k c l v)
          (ap (λ n. n.c) (lifted_left h fs z k c l v ∙ e)) (left-Rest n z k c l rb) w)

  -- The node after it goes, and leaves it its key.
  pub by_next :
      (l : Tree) (steps : List Frame) (y ky n' : ℕ) (cy : Color) (ry : Tree)
      → 0 < z
      → (y ≡ z → ⊥)
      → length (steps ++ is_right z k c l ∷ fs) + 4 ≤ fuel
      → IsPlace h (steps ++ is_right z k c l ∷ fs) (node y ky cy leaf ry)
      → IsRb n' (node y ky cy leaf ry)
      → IsRbAbove n' cy (steps ++ is_right z k c l ∷ fs)
      → Deleted (keys (plug (steps ++ is_right z ky c l ∷ fs) ry)) y (delete_node fuel h z y)
  by_next l steps y ky n' cy ry pos apart lt v rb w =
      let e = at_root v in
      let gs = steps ++ is_right z k c l ∷ fs in
      let kept = lifted_right h gs y ky cy ry v ∙ e in
      subst (Deleted (keys (plug (steps ++ is_right z ky c l ∷ fs) ry)) y)
        (sym (
          delete_node_next fuel h z y (choose_right h y (ap (λ n. n.l) e) (ap (λ n. n.r) e)) apart
            (ap (λ n. n.i) kept)))
        (repair-Deleted fuel (set_i (unlink h y (root_of ry)) z ky)
          (steps ++ is_right z ky c l ∷ fs) ry y n' cy (same_length lt)
          (set_i-IsGap z k ky c l fs (unlink h y (root_of ry)) steps ry pos
            (lift_right h gs y ky cy ry v))
          (set_i-color (unlink h y (root_of ry)) ∙ ap (λ n. n.c) kept) (right-Rest n' y ky cy ry rb)
          (IsRbAbove-rekey z k ky c l fs n' cy steps w))
    where
      set_i-color : (g : Rbt) → ((set_i g z ky).at y).c ≡ (g.at y).c
      set_i-color g =
          ap (λ b. (if b then record (g.at y) { i = ky } else g.at y).c) (==_other apart)

      same_length :
          length (steps ++ is_right z k c l ∷ fs) + 4 ≤ fuel
          → length (steps ++ is_right z ky c l ∷ fs) + 4 ≤ fuel
      same_length lt =
          let e = length-append steps (is_right z k c l ∷ fs) in
          let e' = length-append steps (is_right z ky c l ∷ fs) in omega arith
