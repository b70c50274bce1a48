-- ===== src/Nss/Rbt/Rotate.antt =====
-- left_rotate and right_rotate of nss.c, on a tree at a place.
use somerubbish.Prelude.{ℕ, ◌+◌, ◌≤◌, ◌≡◌, ◌≢◌, refl, ap, ap₂, sym, subst, ◌∙◌, List, arith}
use somerubbish.Nss.Rbt.{
  Color, RbtNode, Rbt, set_l, set_r, set_p, adopt, replace_child, left_rotate, right_rotate,
}
use somerubbish.Nss.Rbt.Tree.{
  Tree, node, Frame, root_of, parent_of, one_self, count, count_above, IsPlace, Holds-zero,
  HoldsAbove-zero,
}
use somerubbish.Nss.Rbt.Write.{update_self, update_other, one-apart}
use somerubbish.Nss.Rbt.Turn.{turn, turn-Turned}

-- A tree at its place after a rotation, with NIL_NODE left alone.
pub record Rotated (h g : Rbt) (fs : List Frame) (t : Tree) : Type 0 where
  pub place : IsPlace g fs t
  pub same : g.at 0 ≡ h.at 0

-- left_rotate from the third write on.
abbrev left_rest : Rbt → (x y m : ℕ) → Rbt
left_rest t x y m = set_p (set_l (replace_child (adopt t m x) x y) y x) x y

left_rotate-turn :
    (h : Rbt) (x y p m : ℕ) (nx ny : RbtNode)
    → h.at x ≡ nx
    → h.at y ≡ ny
    → nx.r ≡ y
    → nx.p ≡ p
    → ny.l ≡ m
    → x ≢ y
    → left_rotate h x ≡ turn h x y p m (λ n. record n { r = m }) (λ n. record n { l = x })
unfolding left_rotate
left_rotate-turn h x y p m nx ny ex ey er ep el apart =
    let from : (y p : ℕ) → Rbt = λ y p.
      (let t1 = set_p h y p in let t2 = set_r t1 x (t1.at y).l in left_rest t2 x y (t2.at y).l) in
    let t1 = set_p h y p in
    let first : (t1.at y).l ≡ m =
      ap (λ n. n.l) (update_self h y (λ n. record n { p = p })) ∙ ap (λ n. n.l) ey ∙ el in
    let second : ((set_r t1 x m).at y).l ≡ m =
      ap (λ n. n.l) (update_other t1 (λ n. record n { r = m }) (λ e. apart (sym e))) ∙ first in
    ap₂ from (ap (λ n. n.r) ex ∙ er) (ap (λ n. n.p) ex ∙ ep)
    ∙ ap (λ q. left_rest (set_r t1 x q) x y ((set_r t1 x q).at y).l) first
    ∙ ap (left_rest (set_r t1 x m) x y) second

-- A rotation to the left makes the right child the parent.
pub left_rotate-Rotated :
    (h : Rbt) (fs : List Frame) (x k : ℕ) (c : Color) (y k' : ℕ) (c' : Color) (l m r : Tree)
    → IsPlace h fs (node x k c l (node y k' c' m r))
    → Rotated h (left_rotate h x) fs (node y k' c' (node x k c l m) r)
left_rotate-Rotated h fs x k c y k' c' l m r v =
    let (pos, ex, vl, (pos', ey, vm, vr)) = v.below in
    let ox = v.once x in
    let oy = v.once y in
    let here = one_self (refl {a = x}) in
    let here' = one_self (refl {a = y}) in
    let apart : x ≢ y = λ e. one-apart {a = y} {b = x} (omega arith) e in
    let xm : count x m ≡ 0 = omega arith in
    let ym : count y m ≡ 0 = omega arith in
    let xs : count_above x fs ≡ 0 = omega arith in
    let ys : count_above y fs ≡ 0 = omega arith in
    let f : RbtNode → RbtNode = λ n. record n { r = root_of m } in
    let g : RbtNode → RbtNode = λ n. record n { l = x } in
    let once : (b : ℕ) → count b m + count_above b fs ≤ 1 = λ b. let o = v.once b in omega arith in
    let t = turn-Turned h fs x y _ _ m f g ex ey refl pos apart xm ym xs ys once in
    let z : count 0 m ≡ 0 = Holds-zero h y m vm in
    let zs = HoldsAbove-zero h fs x v.above in
    let same = t.elsewhere 0 (λ e. omega arith) (λ e. omega arith) (omega arith) zs in
    subst (λ g. Rotated h g fs (node y k' c' (node x k c l m) r))
      (sym (left_rotate-turn h x y (parent_of fs) (root_of m) _ _ ex ey refl refl refl apart))
      record {
        place = record {
          below = (
            pos',
            t.at_y,
            (
              pos,
              t.at_x,
              t.kept x l (omega arith) (omega arith) (λ b. let o = v.once b in omega arith) vl,
              t.moved y vm,
            ),
            t.kept y r (omega arith) (omega arith) (λ b. let o = v.once b in omega arith) vr,
          );
          above = t.linked v.above;
          once = λ b. let o = v.once b in omega arith;
          nil = ap (λ n. n.c) same ∙ v.nil;
        };
        same = same;
      }

pub left_rotate-IsPlace :
    (h : Rbt) (fs : List Frame) (x k : ℕ) (c : Color) (y k' : ℕ) (c' : Color) (l m r : Tree)
    → IsPlace h fs (node x k c l (node y k' c' m r))
    → IsPlace (left_rotate h x) fs (node y k' c' (node x k c l m) r)
left_rotate-IsPlace h fs x k c y k' c' l m r v =
    (left_rotate-Rotated h fs x k c y k' c' l m r v).place

-- right_rotate from the third write on.
abbrev right_rest : Rbt → (x y m : ℕ) → Rbt
right_rest t x y m = set_p (set_r (replace_child (adopt t m x) x y) y x) x y

right_rotate-turn :
    (h : Rbt) (x y p m : ℕ) (nx ny : RbtNode)
    → h.at x ≡ nx
    → h.at y ≡ ny
    → nx.l ≡ y
    → nx.p ≡ p
    → ny.r ≡ m
    → x ≢ y
    → right_rotate h x ≡ turn h x y p m (λ n. record n { l = m }) (λ n. record n { r = x })
unfolding right_rotate
right_rotate-turn h x y p m nx ny ex ey er ep el apart =
    let from : (y p : ℕ) → Rbt = λ y p.
      (let t1 = set_p h y p in let t2 = set_l t1 x (t1.at y).r in right_rest t2 x y (t2.at y).r) in
    let t1 = set_p h y p in
    let first : (t1.at y).r ≡ m =
      ap (λ n. n.r) (update_self h y (λ n. record n { p = p })) ∙ ap (λ n. n.r) ey ∙ el in
    let second : ((set_l t1 x m).at y).r ≡ m =
      ap (λ n. n.r) (update_other t1 (λ n. record n { l = m }) (λ e. apart (sym e))) ∙ first in
    ap₂ from (ap (λ n. n.l) ex ∙ er) (ap (λ n. n.p) ex ∙ ep)
    ∙ ap (λ q. right_rest (set_l t1 x q) x y ((set_l t1 x q).at y).r) first
    ∙ ap (right_rest (set_l t1 x m) x y) second

-- A rotation to the right makes the left child the parent.
pub right_rotate-Rotated :
    (h : Rbt) (fs : List Frame) (x k : ℕ) (c : Color) (y k' : ℕ) (c' : Color) (l m r : Tree)
    → IsPlace h fs (node x k c (node y k' c' l m) r)
    → Rotated h (right_rotate h x) fs (node y k' c' l (node x k c m r))
right_rotate-Rotated h fs x k c y k' c' l m r v =
    let (pos, ex, (pos', ey, vl, vm), vr) = v.below in
    let ox = v.once x in
    let oy = v.once y in
    let here = one_self (refl {a = x}) in
    let here' = one_self (refl {a = y}) in
    let apart : x ≢ y = λ e. one-apart {a = y} {b = x} (omega arith) e in
    let xm : count x m ≡ 0 = omega arith in
    let ym : count y m ≡ 0 = omega arith in
    let xs : count_above x fs ≡ 0 = omega arith in
    let ys : count_above y fs ≡ 0 = omega arith in
    let f : RbtNode → RbtNode = λ n. record n { l = root_of m } in
    let g : RbtNode → RbtNode = λ n. record n { r = x } in
    let once : (b : ℕ) → count b m + count_above b fs ≤ 1 = λ b. let o = v.once b in omega arith in
    let t = turn-Turned h fs x y _ _ m f g ex ey refl pos apart xm ym xs ys once in
    let z : count 0 m ≡ 0 = Holds-zero h y m vm in
    let zs = HoldsAbove-zero h fs x v.above in
    let same = t.elsewhere 0 (λ e. omega arith) (λ e. omega arith) (omega arith) zs in
    subst (λ g. Rotated h g fs (node y k' c' l (node x k c m r)))
      (sym (right_rotate-turn h x y (parent_of fs) (root_of m) _ _ ex ey refl refl refl apart))
      record {
        place = record {
          below = (
            pos',
            t.at_y,
            t.kept y l (omega arith) (omega arith) (λ b. let o = v.once b in omega arith) vl,
            (
              pos,
              t.at_x,
              t.moved y vm,
              t.kept x r (omega arith) (omega arith) (λ b. let o = v.once b in omega arith) vr,
            ),
          );
          above = t.linked v.above;
          once = λ b. let o = v.once b in omega arith;
          nil = ap (λ n. n.c) same ∙ v.nil;
        };
        same = same;
      }

pub right_rotate-IsPlace :
    (h : Rbt) (fs : List Frame) (x k : ℕ) (c : Color) (y k' : ℕ) (c' : Color) (l m r : Tree)
    → IsPlace h fs (node x k c (node y k' c' l m) r)
    → IsPlace (right_rotate h x) fs (node y k' c' l (node x k c m r))
right_rotate-IsPlace h fs x k c y k' c' l m r v =
    (right_rotate-Rotated h fs x k c y k' c' l m r v).place
