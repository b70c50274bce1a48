-- ===== src/Nss/Rbt/Delete/Gap.antt =====
-- A place of the red-black tree of nss.c whose subtree may be empty and still knows its parent:
-- rb_delete writes it to NIL_NODE. And the changes that leave NIL_NODE alone.
use somerubbish.Prelude.{ℕ, ◌<◌, ◌≡◌, ◌≢◌, refl, ap, ◌∙◌, List, [], ◌∷◌, arith}
use somerubbish.Nss.Rbt.{Color, Rbt, set_c, left_rotate, right_rotate}
use somerubbish.Nss.Rbt.Tree.{
  Tree, leaf, node, Frame, is_left, is_right, root_of, parent_of, under, one_self, count_above,
  IsPlace, HoldsAbove,
}
use somerubbish.Nss.Rbt.Write.{update_other}
use somerubbish.Nss.Rbt.Place.{up, down_left, down_right, set_c-IsPlace, at_root, root_pos}
use somerubbish.Nss.Rbt.Rotate.{Rotated, left_rotate-Rotated, right_rotate-Rotated}

abbrev pub Linked : Rbt → List Frame → Tree → Type 0
Linked h fs leaf = (h.at 0).p ≡ parent_of fs
Linked h fs (node a k c l r) = Unit

pub record IsGap (h : Rbt) (fs : List Frame) (t : Tree) : Type 0 where
  pub place : IsPlace h fs t
  pub linked : Linked h fs t

pub linked_parent :
    {h : Rbt} {fs : List Frame} (t : Tree) → IsGap h fs t → (h.at (root_of t)).p ≡ parent_of fs
linked_parent leaf v = v.linked
linked_parent (node a k c l r) v = ap (λ n. n.p) (at_root v.place)

Linked-same :
    (h g : Rbt) (fs fs' : List Frame) (t : Tree)
    → g.at 0 ≡ h.at 0
    → parent_of fs ≡ parent_of fs'
    → Linked h fs t
    → Linked g fs' t
Linked-same h g fs fs' leaf e q v = ap (λ n. n.p) e ∙ v ∙ q
Linked-same h g fs fs' (node a k c l r) e q v = tt

-- The gap after a change around it.
pub same-IsGap :
    {h g : Rbt} {fs fs' : List Frame} {t : Tree}
    → IsGap h fs t
    → parent_of fs ≡ parent_of fs'
    → Rotated h g fs' t
    → IsGap g fs' t
same-IsGap {h = h} {g = g} {fs = fs} {fs' = fs'} {t = t} v q w = record {
  place = w.place;
  linked = Linked-same h g fs fs' t w.same q v.linked;
}

pub start : {h : Rbt} {fs : List Frame} {t : Tree} → IsPlace h fs t → Rotated h h fs t
start v = record { place = v; same = refl }

pub ascend :
    {h g : Rbt} {f : Frame} {fs : List Frame} {t : Tree}
    → Rotated h g (f ∷ fs) t
    → Rotated h g fs (under f t)
ascend v = record { place = up _ _ _ _ v.place; same = v.same }

pub descend_left :
    {h g : Rbt} {fs : List Frame} {a k : ℕ} {c : Color} {l r : Tree}
    → Rotated h g fs (node a k c l r)
    → Rotated h g (is_left a k c r ∷ fs) l
descend_left v = record { place = down_left _ _ _ _ _ _ _ v.place; same = v.same }

pub descend_right :
    {h g : Rbt} {fs : List Frame} {a k : ℕ} {c : Color} {l r : Tree}
    → Rotated h g fs (node a k c l r)
    → Rotated h g (is_right a k c l ∷ fs) r
descend_right v = record { place = down_right _ _ _ _ _ _ _ v.place; same = v.same }

pub paint :
    {h g : Rbt} {fs : List Frame} {a k : ℕ} {c : Color} {l r : Tree} (c' : Color)
    → Rotated h g fs (node a k c l r)
    → Rotated h (set_c g a c') fs (node a k c' l r)
paint {g = g} c' v = record {
  place = set_c-IsPlace _ _ _ _ _ c' _ _ v.place;
  same =
      update_other g (λ n. record n { c = c' }) (λ e. let pos = root_pos v.place in omega arith)
      ∙ v.same;
}

pub turn_left :
    {h g : Rbt} {fs : List Frame} {x k : ℕ} {c : Color} {y k' : ℕ} {c' : Color} {l m r : Tree}
    → Rotated h g fs (node x k c l (node y k' c' m r))
    → Rotated h (left_rotate g x) fs (node y k' c' (node x k c l m) r)
turn_left v =
    let w = left_rotate-Rotated _ _ _ _ _ _ _ _ _ _ _ v.place in
    record { place = w.place; same = w.same ∙ v.same }

pub turn_right :
    {h g : Rbt} {fs : List Frame} {x k : ℕ} {c : Color} {y k' : ℕ} {c' : Color} {l m r : Tree}
    → Rotated h g fs (node x k c (node y k' c' l m) r)
    → Rotated h (right_rotate g x) fs (node y k' c' l (node x k c m r))
turn_right v =
    let w = right_rotate-Rotated _ _ _ _ _ _ _ _ _ _ _ v.place in
    record { place = w.place; same = w.same ∙ v.same }

-- The root is not below a frame.
root-above :
    (h : Rbt) (f : Frame) (fs : List Frame) (a : ℕ)
    → HoldsAbove h (f ∷ fs) a
    → (0 < h.root) × (0 < count_above h.root (f ∷ fs))
root-above h (is_left b k c r) [] a (bpos, n, vr, vs) =
    let here = one_self vs in (omega arith, omega arith)
root-above h (is_right b k c l) [] a (bpos, n, vl, vs) =
    let here = one_self vs in (omega arith, omega arith)
root-above h (is_left b k c r) (f ∷ fs) a (bpos, n, vr, vs) =
    let (pos, m) = root-above h f fs b vs in (pos, omega arith)
root-above h (is_right b k c l) (f ∷ fs) a (bpos, n, vl, vs) =
    let (pos, m) = root-above h f fs b vs in (pos, omega arith)

pub not_root :
    {h : Rbt} {f : Frame} {fs : List Frame} (t : Tree) → IsPlace h (f ∷ fs) t → root_of t ≢ h.root
not_root {h = h} {f = f} {fs = fs} leaf v e =
    let (pos, m) = root-above h f fs 0 v.above in omega arith
not_root {h = h} {f = f} {fs = fs} (node a k c l r) v e =
    let (pos, m) = root-above h f fs a v.above in
    let o = v.once a in
    let here = one_self (refl {a = a}) in
    let q : count_above a (f ∷ fs) ≡ count_above h.root (f ∷ fs) =
      ap (λ b. count_above b (f ∷ fs)) e in
    omega arith
