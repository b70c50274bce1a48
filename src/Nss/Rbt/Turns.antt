-- ===== src/Nss/Rbt/Turns.antt =====
-- The ends of rb_insert_fixup of nss.c: the rounds that rotate, with a red node below a red one and
-- a black node above them.
use somerubbish.Prelude.{ℕ, suc, ◌≡◌, ◌≢◌, refl, ap, sym, ◌∙◌, List, arith, Option, some}
use somerubbish.Nss.Rbt.{red, black, Rbt, set_c, left_rotate, right_rotate, fixup_loop}
use somerubbish.Nss.Rbt.Tree.{Tree, node, Frame, root_of, one_self, count, IsPlace}
use somerubbish.Nss.Rbt.Write.{root-apart}
use somerubbish.Nss.Rbt.Rotate.{left_rotate-IsPlace, right_rotate-IsPlace}
use somerubbish.Nss.Rbt.Place.{up, down_left, down_right, set_c-IsPlace, at_root, root_pos}
use somerubbish.Nss.Rbt.Balance.{color_of}
use somerubbish.Nss.Rbt.Round.{
  fixup_round_left, fixup_round_right, left_case_inner, left_case_outer, right_case_inner,
  right_case_outer, fixup_loop_black, fixup_loop_red, root-color,
}

-- The loop ends, and the memory holds the tree.
pub record Ends (o : Option Rbt) (fs : List Frame) (t : Tree) : Type 0 where
  pub memory : Rbt
  pub ends : o ≡ some memory
  pub holds : IsPlace memory fs t

-- The child below has the side of its parent.
pub outer_left :
    (fuel : ℕ) (h : Rbt) (fs : List Frame) (g kg p kp z kz : ℕ) (l r b u : Tree)
    → IsPlace h fs (node g kg black (node p kp red (node z kz red l r) b) u)
    → color_of u ≡ black
    → Ends
        (fixup_loop (suc (suc fuel)) h z)
        fs
        (node p kp black (node z kz red l r) (node g kg red b u))
outer_left fuel h fs g kg p kp z kz l r b u v e =
    let vp = down_left _ _ _ _ _ _ _ v in
    let vz = down_left _ _ _ _ _ _ _ vp in
    let vu = down_right _ _ _ _ _ _ _ v in
    let ep = at_root vp in
    let eg = at_root v in
    let o = v.once z in
    let here = one_self (refl {a = z}) in
    let zb : count z b ≡ 0 = omega arith in
    let n : z ≢ (h.at p).r = λ q. root-apart b (root_pos vz) zb (sym (q ∙ ap (λ n. n.r) ep)) in
    let round =
      fixup_round_left h z p g (root_of u) (ap (λ n. n.p) (at_root vz)) (ap (λ n. n.p) ep)
        (ap (λ n. n.l) eg) (ap (λ n. n.r) eg)
      ∙ left_case_outer h z p g (root_of u) (root-color h g u vu.below v.nil ∙ e) n in
    let v1 = up _ _ _ _ (set_c-IsPlace _ _ _ _ _ black _ _ vp) in
    let v2 = right_rotate-IsPlace _ _ _ _ _ _ _ _ _ _ _ (set_c-IsPlace _ _ _ _ _ red _ _ v1) in
    record {
      memory = right_rotate (set_c (set_c h p black) g red) g;
      ends =
          fixup_loop_red (suc fuel) h z p (ap (λ n. n.p) (at_root vz)) (ap (λ n. n.c) ep) round
          ∙ fixup_loop_black fuel _ z p (ap (λ n. n.p) (at_root (down_left _ _ _ _ _ _ _ v2)))
              (ap (λ n. n.c) (at_root v2));
      holds = v2;
    }

-- It has the other side.
pub inner_left :
    (fuel : ℕ) (h : Rbt) (fs : List Frame) (g kg p kp z kz : ℕ) (l r b u : Tree)
    → IsPlace h fs (node g kg black (node p kp red b (node z kz red l r)) u)
    → color_of u ≡ black
    → Ends
        (fixup_loop (suc (suc (suc fuel))) h z)
        fs
        (node z kz black (node p kp red b l) (node g kg red r u))
inner_left fuel h fs g kg p kp z kz l r b u v e =
    let vp = down_left _ _ _ _ _ _ _ v in
    let vz = down_right _ _ _ _ _ _ _ vp in
    let vu = down_right _ _ _ _ _ _ _ v in
    let ep = at_root vp in
    let eg = at_root v in
    let round =
      fixup_round_left h z p g (root_of u) (ap (λ n. n.p) (at_root vz)) (ap (λ n. n.p) ep)
        (ap (λ n. n.l) eg) (ap (λ n. n.r) eg)
      ∙ left_case_inner h z p g (root_of u) (root-color h g u vu.below v.nil ∙ e)
          (ap (λ n. n.r) ep) in
    let rest =
      outer_left fuel (left_rotate h p) fs g kg z kz p kp b l r u
        (up _ _ _ _ (left_rotate-IsPlace _ _ _ _ _ _ _ _ _ _ _ vp)) e in
    record {
      memory = rest.memory;
      ends =
          fixup_loop_red (suc (suc fuel)) h z p (ap (λ n. n.p) (at_root vz)) (ap (λ n. n.c) ep)
            round
          ∙ rest.ends;
      holds = rest.holds;
    }

-- The same, with the sides exchanged.
pub outer_right :
    (fuel : ℕ) (h : Rbt) (fs : List Frame) (g kg p kp z kz : ℕ) (l r b u : Tree)
    → IsPlace h fs (node g kg black u (node p kp red b (node z kz red l r)))
    → color_of u ≡ black
    → Ends
        (fixup_loop (suc (suc fuel)) h z)
        fs
        (node p kp black (node g kg red u b) (node z kz red l r))
outer_right fuel h fs g kg p kp z kz l r b u v e =
    let vp = down_right _ _ _ _ _ _ _ v in
    let vz = down_right _ _ _ _ _ _ _ vp in
    let vu = down_left _ _ _ _ _ _ _ v in
    let ep = at_root vp in
    let eg = at_root v in
    let o = v.once z in
    let o' = v.once p in
    let here = one_self (refl {a = z}) in
    let here' = one_self (refl {a = p}) in
    let zb : count z b ≡ 0 = omega arith in
    let pu : count p u ≡ 0 = omega arith in
    let n : z ≢ (h.at p).l = λ q. root-apart b (root_pos vz) zb (sym (q ∙ ap (λ n. n.l) ep)) in
    let round =
      fixup_round_right h z p g (root_of u) (ap (λ n. n.p) (at_root vz)) (ap (λ n. n.p) ep)
        (ap (λ n. n.l) eg) (λ q. root-apart u (root_pos vp) pu (sym q))
      ∙ right_case_outer h z p g (root_of u) (root-color h g u vu.below v.nil ∙ e) n in
    let v1 = up _ _ _ _ (set_c-IsPlace _ _ _ _ _ black _ _ vp) in
    let v2 = left_rotate-IsPlace _ _ _ _ _ _ _ _ _ _ _ (set_c-IsPlace _ _ _ _ _ red _ _ v1) in
    record {
      memory = left_rotate (set_c (set_c h p black) g red) g;
      ends =
          fixup_loop_red (suc fuel) h z p (ap (λ n. n.p) (at_root vz)) (ap (λ n. n.c) ep) round
          ∙ fixup_loop_black fuel _ z p (ap (λ n. n.p) (at_root (down_right _ _ _ _ _ _ _ v2)))
              (ap (λ n. n.c) (at_root v2));
      holds = v2;
    }

pub inner_right :
    (fuel : ℕ) (h : Rbt) (fs : List Frame) (g kg p kp z kz : ℕ) (l r b u : Tree)
    → IsPlace h fs (node g kg black u (node p kp red (node z kz red l r) b))
    → color_of u ≡ black
    → Ends
        (fixup_loop (suc (suc (suc fuel))) h z)
        fs
        (node z kz black (node g kg red u l) (node p kp red r b))
inner_right fuel h fs g kg p kp z kz l r b u v e =
    let vp = down_right _ _ _ _ _ _ _ v in
    let vz = down_left _ _ _ _ _ _ _ vp in
    let vu = down_left _ _ _ _ _ _ _ v in
    let ep = at_root vp in
    let eg = at_root v in
    let o = v.once p in
    let here = one_self (refl {a = p}) in
    let pu : count p u ≡ 0 = omega arith in
    let round =
      fixup_round_right h z p g (root_of u) (ap (λ n. n.p) (at_root vz)) (ap (λ n. n.p) ep)
        (ap (λ n. n.l) eg) (λ q. root-apart u (root_pos vp) pu (sym q))
      ∙ right_case_inner h z p g (root_of u) (root-color h g u vu.below v.nil ∙ e)
          (ap (λ n. n.l) ep) in
    let rest =
      outer_right fuel (right_rotate h p) fs g kg z kz p kp r b l u
        (up _ _ _ _ (right_rotate-IsPlace _ _ _ _ _ _ _ _ _ _ _ vp)) e in
    record {
      memory = rest.memory;
      ends =
          fixup_loop_red (suc (suc fuel)) h z p (ap (λ n. n.p) (at_root vz)) (ap (λ n. n.c) ep)
            round
          ∙ rest.ends;
      holds = rest.holds;
    }
