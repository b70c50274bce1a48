-- ===== src/Nss/Rbt/Place.antt =====
-- Places of the red-black tree of nss.c: to go up and down, to write a colour, and the fields of
-- the nodes there.
use somerubbish.Prelude.{ℕ, ◌<◌, ◌≡◌, refl, ap, ◌∙◌, List, [], ◌∷◌, ◌++◌, arith}
use somerubbish.Nss.Rbt.{Color, RbtNode, Rbt, set_c}
use somerubbish.Nss.Rbt.Tree.{
  Tree, node, Frame, is_left, is_right, root_of, parent_of, under, plug, one_self, IsPlace, keys,
}
use somerubbish.Nss.Rbt.Write.{update_self, update_other, update-Holds, update-HoldsAbove}

pub up :
    (h : Rbt) (f : Frame) (fs : List Frame) (t : Tree)
    → IsPlace h (f ∷ fs) t
    → IsPlace h fs (under f t)
up h (is_left a k c r) fs t v =
    let (pos, n, vr, vs) = v.above in
    record {
      below = (pos, n, v.below, vr);
      above = vs;
      once = λ b. let o = v.once b in omega arith;
      nil = v.nil;
    }
up h (is_right a k c l) fs t v =
    let (pos, n, vl, vs) = v.above in
    record {
      below = (pos, n, vl, v.below);
      above = vs;
      once = λ b. let o = v.once b in omega arith;
      nil = v.nil;
    }

pub down_left :
    (h : Rbt) (fs : List Frame) (a k : ℕ) (c : Color) (l r : Tree)
    → IsPlace h fs (node a k c l r)
    → IsPlace h (is_left a k c r ∷ fs) l
down_left h fs a k c l r v =
    let (pos, n, vl, vr) = v.below in
    record {
      below = vl;
      above = (pos, n, vr, v.above);
      once = λ b. let o = v.once b in omega arith;
      nil = v.nil;
    }

pub down_right :
    (h : Rbt) (fs : List Frame) (a k : ℕ) (c : Color) (l r : Tree)
    → IsPlace h fs (node a k c l r)
    → IsPlace h (is_right a k c l ∷ fs) r
down_right h fs a k c l r v =
    let (pos, n, vl, vr) = v.below in
    record {
      below = vr;
      above = (pos, n, vl, v.above);
      once = λ b. let o = v.once b in omega arith;
      nil = v.nil;
    }

pub set_c-IsPlace :
    (h : Rbt) (fs : List Frame) (a k : ℕ) (c c' : Color) (l r : Tree)
    → IsPlace h fs (node a k c l r)
    → IsPlace (set_c h a c') fs (node a k c' l r)
set_c-IsPlace h fs a k c c' l r v =
    let (pos, n, vl, vr) = v.below in
    let f : RbtNode → RbtNode = λ n. record n { c = c' } in
    let o = v.once a in
    let here = one_self (refl {a = a}) in
    record {
      below = (
        pos,
        update_self h a f ∙ ap f n,
        update-Holds h a f a l (omega arith) vl,
        update-Holds h a f a r (omega arith) vr,
      );
      above = update-HoldsAbove h a f fs a (omega arith) v.above;
      once = v.once;
      nil = ap (λ n. n.c) (update_other h f (λ e. omega arith)) ∙ v.nil;
    }

-- The keys depend on the subtree by its keys.
pub keys-plug :
    (fs : List Frame) (t t' : Tree) → keys t ≡ keys t' → keys (plug fs t) ≡ keys (plug fs t')
keys-plug [] t t' e = e
keys-plug (is_left a k c r ∷ fs) t t' e =
    keys-plug fs (node a k c t r) (node a k c t' r) (ap (λ ks. ks ++ k ∷ keys r) e)
keys-plug (is_right a k c l ∷ fs) t t' e =
    keys-plug fs (node a k c l t) (node a k c l t') (ap (λ ks. keys l ++ k ∷ ks) e)

pub at_root :
    {h : Rbt} {fs : List Frame} {a k : ℕ} {c : Color} {l r : Tree}
    → IsPlace h fs (node a k c l r)
    → h.at a ≡ record { i = k; c = c; l = root_of l; r = root_of r; p = parent_of fs }
at_root v = let (pos, n, vl, vr) = v.below in n

pub root_pos :
    {h : Rbt} {fs : List Frame} {a k : ℕ} {c : Color} {l r : Tree}
    → IsPlace h fs (node a k c l r)
    → 0 < a
root_pos v = let (pos, n, vl, vr) = v.below in pos
