-- ===== src/Nss/Rbt/Delete/Unlink.antt =====
-- The child of a node takes its place in rb_delete of nss.c.
use somerubbish.Prelude.{
  ℕ, ◌+◌, ◌≤◌, ◌<◌, ◌≡◌, ◌≢◌, refl, ap, sym, subst, ◌∙◌, Bool, true, false, List, arith, ◌==◌,
  if◌then◌else◌,
}
use somerubbish.Nss.Rbt.{black, RbtNode, Rbt, set_p, replace_child}
use somerubbish.Nss.Rbt.Tree.{
  Tree, leaf, node, Frame, root_of, parent_of, Holds, HoldsAbove, one, one_self, count, count_above,
  Holds-cong, HoldsAbove-zero,
}
use somerubbish.Nss.Rbt.Write.{
  update_self, update_other, root-apart, update-Holds, update-HoldsAbove, replace_child_other,
  replace_child-HoldsAbove,
}
use somerubbish.Nss.Rbt.Turn.{parent-apart}
use somerubbish.Nss.Rbt.Delete.{unlink}
use somerubbish.Nss.Rbt.Delete.Gap.{Linked, IsGap}

set_p-color : (h : Rbt) (a v b : ℕ) → ((set_p h a v).at b).c ≡ (h.at b).c
set_p-color h a v b = if-color (b == a)
  where
    if-color : (t : Bool) → (if t then record (h.at b) { p = v } else h.at b).c ≡ (h.at b).c
    if-color true = refl
    if-color false = refl

-- A new parent for the root of a tree.
set_p-Holds :
    (h : Rbt) (y p : ℕ) (t : Tree)
    → ((b : ℕ) → count b t ≤ 1)
    → Holds h y t
    → Holds (set_p h (root_of t) p) p t
set_p-Holds h y p leaf once v = tt
set_p-Holds h y p (node a k c l r) once (pos, n, vl, vr) =
    let f : RbtNode → RbtNode = λ n. record n { p = p } in
    let o = once a in
    let here = one_self (refl {a = a}) in
    (
      pos,
      update_self h a f ∙ ap f n,
      update-Holds h a f a l (omega arith) vl,
      update-Holds h a f a r (omega arith) vr,
    )

set_p-HoldsAbove :
    (h : Rbt) (y p : ℕ) (t : Tree) (fs : List Frame)
    → ((b : ℕ) → count b t + count_above b fs ≤ 1)
    → HoldsAbove h fs y
    → HoldsAbove (set_p h (root_of t) p) fs y
set_p-HoldsAbove h y p leaf fs once v =
    update-HoldsAbove h 0 (λ n. record n { p = p }) fs y (HoldsAbove-zero h fs y v) v
set_p-HoldsAbove h y p (node a k c l r) fs once v =
    let o = once a in
    let here = one_self (refl {a = a}) in
    update-HoldsAbove h a (λ n. record n { p = p }) fs y (omega arith) v

-- A node with one child that is not NIL_NODE, or none.
module _ (h : Rbt) (fs : List Frame) (y : ℕ) (t : Tree) (pos : 0 < y)
    (ep : (h.at y).p ≡ parent_of fs) (vt : Holds h y t) (va : HoldsAbove h fs y)
    (once : (b : ℕ) → one y b + count b t + count_above b fs ≤ 1) (nil : (h.at 0).c ≡ black) where
  abbrev child : Rbt
  child = set_p h (root_of t) (parent_of fs)

  abbrev lifted : Rbt
  lifted = replace_child child y (root_of t)

  unlink_is : unlink h y (root_of t) ≡ lifted
  unfolding unlink
  unlink_is = ap (λ p. replace_child (set_p h (root_of t) p) y (root_of t)) ep

  child_y : child.at y ≡ h.at y
  child_y =
      let o = once y in
      let here = one_self (refl {a = y}) in
      update_other h (λ n. record n { p = parent_of fs })
        (λ e. root-apart t pos (omega arith) (sym e))

  out_of_frames : (b : ℕ) → count_above b fs ≡ 0 → lifted.at b ≡ child.at b
  out_of_frames b z =
      replace_child_other child y (root_of t)
        (subst (λ q. q ≢ 0 → b ≢ q) (sym (ap (λ n. n.p) child_y ∙ ep)) (parent-apart fs z))

  pub unlink-y : (unlink h y (root_of t)).at y ≡ h.at y
  unlink-y =
      let o = once y in
      let here = one_self (refl {a = y}) in
      ap (λ g. g.at y) unlink_is ∙ out_of_frames y (omega arith) ∙ child_y

  lifted-Linked : (s : Tree) → s ≡ t → Linked lifted fs s
  lifted-Linked leaf e =
      ap (λ n. n.p) (out_of_frames 0 (HoldsAbove-zero h fs y va))
      ∙ subst (λ s. ((set_p h (root_of s) (parent_of fs)).at 0).p ≡ parent_of fs) e
          (ap (λ n. n.p) (update_self h 0 (λ n. record n { p = parent_of fs })))
  lifted-Linked (node a k c l r) e = tt

  pub unlink-IsGap : IsGap (unlink h y (root_of t)) fs t
  unlink-IsGap =
      let o = once y in
      let here = one_self (refl {a = y}) in
      let below : Holds child (parent_of fs) t =
        set_p-Holds h y (parent_of fs) t (λ b. let q = once b in omega arith) vt in
      subst (λ g. IsGap g fs t) (sym unlink_is)
        record {
          place = record {
            below =
                Holds-cong child lifted (parent_of fs) t
                  (λ b m. let q = once b in out_of_frames b (omega arith)) below;
            above =
                replace_child-HoldsAbove child y (root_of t) fs pos (ap (λ n. n.p) child_y ∙ ep)
                  (omega arith) (λ b. let q = once b in omega arith)
                  (set_p-HoldsAbove h y (parent_of fs) t fs (λ b. let q = once b in omega arith)
                    va);
            once = λ b. let q = once b in omega arith;
            nil =
                ap (λ n. n.c) (out_of_frames 0 (HoldsAbove-zero h fs y va))
                ∙ set_p-color h (root_of t) (parent_of fs) 0
                ∙ nil;
          };
          linked = lifted-Linked t refl;
        }
