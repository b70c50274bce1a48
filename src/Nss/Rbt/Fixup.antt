-- ===== src/Nss/Rbt/Fixup.antt =====
-- rb_insert_fixup of nss.c on a balanced tree with one red node that may stand below a red one.
use somerubbish.Prelude.{ℕ, suc, ◌≡◌, refl, ap, sym, ◌∙◌, List, [], ◌∷◌, arith, Option, some}
use somerubbish.Nss.Rbt.{red, black, Rbt, repaint, fixup_loop}
use somerubbish.Nss.Rbt.Tree.{Tree, leaf, node, Frame, under, plug, one_self, count, IsPlace, keys}
use somerubbish.Nss.Rbt.Write.{root-apart}
use somerubbish.Nss.Rbt.Place.{up, down_left, down_right, at_root, root_pos, keys-plug}
use somerubbish.Nss.Rbt.Balance.{color_of, IsRb, IsRbAbove, plug-IsRb}
use somerubbish.Nss.Rbt.Round.{
  fixup_round_left, fixup_round_right, left_case_red, right_case_red, fixup_loop_red,
  repaint-IsPlace_left, repaint-IsPlace_right,
}
use somerubbish.Nss.Rbt.Turns.{Ends}

-- The loop ends with a balanced tree of the keys.
pub record Mended (ks : List ℕ) (o : Option Rbt) : Type 0 where
  pub memory : Rbt
  pub tree : Tree
  pub height : ℕ
  pub ends : o ≡ some memory
  pub holds : IsPlace memory [] tree
  pub same : keys tree ≡ ks
  pub rb : IsRb height tree

pub up_all : (h : Rbt) (fs : List Frame) (t : Tree) → IsPlace h fs t → IsPlace h [] (plug fs t)
up_all h [] t v = v
up_all h (f ∷ fs) t v = up_all h fs (under f t) (up h f fs t v)

pub finish :
    {o : Option Rbt} (n : ℕ) (fs : List Frame) (t t' : Tree)
    → Ends o fs t
    → IsRb n t
    → IsRbAbove n (color_of t) fs
    → keys t ≡ keys t'
    → Mended (keys (plug fs t')) o
finish n fs t t' v rb w e =
    let (m, rb') = plug-IsRb n fs t rb w in
    record {
      memory = v.memory;
      tree = plug fs t;
      height = m;
      ends = v.ends;
      holds = up_all v.memory fs t v.holds;
      same = keys-plug fs t t' e;
      rb = rb';
    }

-- The loop from a red node at `g`.
abbrev pub Continues : (fuel : ℕ) (fs : List Frame) (g kg n : ℕ) (w : Tree) → Type 0
Continues fuel fs g kg n w =
    (h : Rbt) (l r : Tree)
    → IsPlace h fs (node g kg red l r)
    → IsRb (suc n) (node g kg red l r)
    → keys (node g kg red l r) ≡ keys w
    → Mended (keys (plug fs w)) (fixup_loop fuel h g)

-- A red other child of the node above the parent is painted black, or the loop rotates.
pub or_repaint_left :
    (fuel : ℕ) (h : Rbt) (fs : List Frame) (g kg p kp z n : ℕ) (a b u : Tree)
    → (h.at z).p ≡ p
    → IsPlace h fs (node g kg black (node p kp red a b) u)
    → IsRb n a
    → IsRb n b
    → IsRb n u
    → Continues fuel fs g kg n (node g kg black (node p kp red a b) u)
    → (color_of u ≡ black
        → Mended
            (keys (plug fs (node g kg black (node p kp red a b) u)))
            (fixup_loop (suc fuel) h z))
    → Mended (keys (plug fs (node g kg black (node p kp red a b) u))) (fixup_loop (suc fuel) h z)
or_repaint_left fuel h fs g kg p kp z n a b leaf ez v va vb vu go turn = turn refl
or_repaint_left fuel h fs g kg p kp z n a b (node y ky black l r) ez v va vb vu go turn = turn refl
or_repaint_left fuel h fs g kg p kp z n a b (node y ky red l r) ez v va vb (el, er, vl, vr) go
      turn =
    let vp = down_left _ _ _ _ _ _ _ v in
    let eg = at_root v in
    let round =
      fixup_round_left h z p g y ez (ap (λ n. n.p) (at_root vp)) (ap (λ n. n.l) eg)
        (ap (λ n. n.r) eg)
      ∙ left_case_red h z p g y (ap (λ n. n.c) (at_root (down_right _ _ _ _ _ _ _ v))) in
    let rest =
      go (repaint h p g y) (node p kp black a b) (node y ky black l r)
        (repaint-IsPlace_left h fs g kg p kp y ky a b l r v)
        (refl, refl, (n, refl, va, vb), (n, refl, vl, vr)) refl in
    record {
      memory = rest.memory;
      tree = rest.tree;
      height = rest.height;
      ends = fixup_loop_red fuel h z p ez (ap (λ n. n.c) (at_root vp)) round ∙ rest.ends;
      holds = rest.holds;
      same = rest.same;
      rb = rest.rb;
    }

pub or_repaint_right :
    (fuel : ℕ) (h : Rbt) (fs : List Frame) (g kg p kp z n : ℕ) (a b u : Tree)
    → (h.at z).p ≡ p
    → IsPlace h fs (node g kg black u (node p kp red a b))
    → IsRb n a
    → IsRb n b
    → IsRb n u
    → Continues fuel fs g kg n (node g kg black u (node p kp red a b))
    → (color_of u ≡ black
        → Mended
            (keys (plug fs (node g kg black u (node p kp red a b))))
            (fixup_loop (suc fuel) h z))
    → Mended (keys (plug fs (node g kg black u (node p kp red a b)))) (fixup_loop (suc fuel) h z)
or_repaint_right fuel h fs g kg p kp z n a b leaf ez v va vb vu go turn = turn refl
or_repaint_right fuel h fs g kg p kp z n a b (node y ky black l r) ez v va vb vu go turn = turn refl
or_repaint_right fuel h fs g kg p kp z n a b (node y ky red l r) ez v va vb (el, er, vl, vr) go
      turn =
    let vp = down_right _ _ _ _ _ _ _ v in
    let eg = at_root v in
    let o = v.once p in
    let here = one_self (refl {a = p}) in
    let py : count p (node y ky red l r) ≡ 0 = omega arith in
    let round =
      fixup_round_right h z p g y ez (ap (λ n. n.p) (at_root vp)) (ap (λ n. n.l) eg)
        (λ q. root-apart (node y ky red l r) (root_pos vp) py (sym q))
      ∙ right_case_red h z p g y (ap (λ n. n.c) (at_root (down_left _ _ _ _ _ _ _ v))) in
    let rest =
      go (repaint h p g y) (node y ky black l r) (node p kp black a b)
        (repaint-IsPlace_right h fs g kg p kp y ky a b l r v)
        (refl, refl, (n, refl, vl, vr), (n, refl, va, vb)) refl in
    record {
      memory = rest.memory;
      tree = rest.tree;
      height = rest.height;
      ends = fixup_loop_red fuel h z p ez (ap (λ n. n.c) (at_root vp)) round ∙ rest.ends;
      holds = rest.holds;
      same = rest.same;
      rb = rest.rb;
    }
