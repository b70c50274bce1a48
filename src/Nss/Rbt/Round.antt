-- ===== src/Nss/Rbt/Round.antt =====
-- The rounds of rb_insert_fixup of nss.c, case by case.
use somerubbish.Prelude.{ℕ, suc, ◌≡◌, ◌≢◌, refl, ap, List, some}
use somerubbish.Nss.Rbt.{
  red, black, Rbt, set_c, left_rotate, right_rotate, repaint, left_case, right_case, fixup_round,
  fixup_loop,
}
use somerubbish.Nss.Rbt.Tree.{Tree, leaf, node, Frame, root_of, Holds, IsPlace}
use somerubbish.Nss.Rbt.Write.{==_other, ==_self}
use somerubbish.Nss.Rbt.Place.{up, down_left, down_right, set_c-IsPlace}
use somerubbish.Nss.Rbt.Balance.{color_of}

module _ (h : Rbt) (z p g y : ℕ) where
  pub fixup_round_left :
      (h.at z).p ≡ p
      → (h.at p).p ≡ g
      → (h.at g).l ≡ p
      → (h.at g).r ≡ y
      → fixup_round h z ≡ left_case h z p g y
  unfolding fixup_round
  fixup_round_left ez ep el er = rw (ez, ep, el, ==_self p, er) refl

  pub fixup_round_right :
      (h.at z).p ≡ p
      → (h.at p).p ≡ g
      → (h.at g).l ≡ y
      → p ≢ y
      → fixup_round h z ≡ right_case h z p g y
  unfolding fixup_round
  fixup_round_right ez ep el n = rw (ez, ep, el, ==_other n) refl

  pub left_case_red : (h.at y).c ≡ red → left_case h z p g y ≡ (repaint h p g y, g)
  unfolding left_case
  left_case_red e = rw e refl

  pub left_case_inner :
      (h.at y).c ≡ black → (h.at p).r ≡ z → left_case h z p g y ≡ (left_rotate h p, p)
  unfolding left_case
  left_case_inner e er = rw (e, er, ==_self z) refl

  pub left_case_outer :
      (h.at y).c ≡ black
      → z ≢ (h.at p).r
      → left_case h z p g y ≡ (right_rotate (set_c (set_c h p black) g red) g, z)
  unfolding left_case
  left_case_outer e n = rw (e, ==_other n) refl

  pub right_case_red : (h.at y).c ≡ red → right_case h z p g y ≡ (repaint h p g y, g)
  unfolding right_case
  right_case_red e = rw e refl

  pub right_case_inner :
      (h.at y).c ≡ black → (h.at p).l ≡ z → right_case h z p g y ≡ (right_rotate h p, p)
  unfolding right_case
  right_case_inner e er = rw (e, er, ==_self z) refl

  pub right_case_outer :
      (h.at y).c ≡ black
      → z ≢ (h.at p).l
      → right_case h z p g y ≡ (left_rotate (set_c (set_c h p black) g red) g, z)
  unfolding right_case
  right_case_outer e n = rw (e, ==_other n) refl

-- The loop ends below a black parent, and goes on below a red one.
pub fixup_loop_black :
    (fuel : ℕ) (h : Rbt) (z p : ℕ)
    → (h.at z).p ≡ p
    → (h.at p).c ≡ black
    → fixup_loop (suc fuel) h z ≡ some h
unfolding fixup_loop
fixup_loop_black fuel h z p ez e = rw (ez, e) refl

pub fixup_loop_red :
    (fuel : ℕ) (h : Rbt) (z p : ℕ) {h' : Rbt} {z' : ℕ}
    → (h.at z).p ≡ p
    → (h.at p).c ≡ red
    → fixup_round h z ≡ (h', z')
    → fixup_loop (suc fuel) h z ≡ fixup_loop fuel h' z'
unfolding fixup_loop
fixup_loop_red fuel h z p ez e er = rw (ez, e, er) refl

-- The colour in memory.
pub root-color :
    (h : Rbt) (p : ℕ) (t : Tree)
    → Holds h p t
    → (h.at 0).c ≡ black
    → (h.at (root_of t)).c ≡ color_of t
root-color h p leaf v n = n
root-color h p (node a k c l r) (pos, e, vl, vr) n = ap (λ n. n.c) e

pub repaint-IsPlace_left :
    (h : Rbt) (fs : List Frame) (g kg p kp y ky : ℕ) (a b l r : Tree)
    → IsPlace h fs (node g kg black (node p kp red a b) (node y ky red l r))
    → IsPlace (repaint h p g y) fs (node g kg red (node p kp black a b) (node y ky black l r))
unfolding repaint
repaint-IsPlace_left h fs g kg p kp y ky a b l r v =
    let v1 = set_c-IsPlace _ _ _ _ _ black _ _ (down_right _ _ _ _ _ _ _ v) in
    let v2 = set_c-IsPlace _ _ _ _ _ black _ _ (down_left _ _ _ _ _ _ _ (up _ _ _ _ v1)) in
    set_c-IsPlace _ _ _ _ _ red _ _ (up _ _ _ _ v2)

pub repaint-IsPlace_right :
    (h : Rbt) (fs : List Frame) (g kg p kp y ky : ℕ) (a b l r : Tree)
    → IsPlace h fs (node g kg black (node y ky red l r) (node p kp red a b))
    → IsPlace (repaint h p g y) fs (node g kg red (node y ky black l r) (node p kp black a b))
unfolding repaint
repaint-IsPlace_right h fs g kg p kp y ky a b l r v =
    let v1 = set_c-IsPlace _ _ _ _ _ black _ _ (down_left _ _ _ _ _ _ _ v) in
    let v2 = set_c-IsPlace _ _ _ _ _ black _ _ (down_right _ _ _ _ _ _ _ (up _ _ _ _ v1)) in
    set_c-IsPlace _ _ _ _ _ red _ _ (up _ _ _ _ v2)
