-- ===== src/Nss/Rbt/Delete/Least.antt =====
-- The node that rb_min of nss.c finds, with its place.
use somerubbish.Prelude.{
  ℕ, zero, suc, ◌+◌, ◌≤◌, ◌<◌, ◌≡◌, refl, ap, sym, ◌∙◌, List, ◌∷◌, ◌++◌, append_assoc, length,
  arith, some,
}
use somerubbish.Nss.Rbt.{Color, Rbt}
use somerubbish.Nss.Rbt.Tree.{Tree, leaf, node, Frame, is_left, IsPlace, keys}
use somerubbish.Nss.Rbt.Place.{at_root, root_pos, down_left}
use somerubbish.Nss.Rbt.Balance.{IsRb, IsRbAbove}
use somerubbish.Nss.Rbt.Way.{depth, down_left-IsRb}
use somerubbish.Nss.Rbt.Walk.{rb_min}
use somerubbish.Nss.Rbt.Walk.Around.{before, after}
use somerubbish.Nss.Rbt.Walk.Next.{rb_min_end, rb_min_down}

-- The first node below the frames, with no left child. `ks` are the keys from it on.
pub record Least (h : Rbt) (fuel a d : ℕ) (fs : List Frame) (ks : List Frame → List ℕ)
    : Type 0 where
  pub steps : List Frame
  pub y : ℕ
  pub key : ℕ
  pub color : Color
  pub right : Tree
  pub found : rb_min fuel h a ≡ some y
  pub place : IsPlace h (steps ++ fs) (node y key color leaf right)
  pub lefts : (gs : List Frame) → before (steps ++ gs) ≡ before gs
  pub rest : (gs : List Frame) → key ∷ (keys right ++ after (steps ++ gs)) ≡ ks gs
  pub near : length steps ≤ d
  pub height : ℕ
  pub rb : IsRb height (node y key color leaf right)
  pub rb_above : IsRbAbove height color (steps ++ fs)

pub rb_min-Least :
    (fuel : ℕ) (h : Rbt) (steps fs : List Frame) (a k n d : ℕ) (c : Color) (l r : Tree)
    → depth l < fuel
    → length steps + depth l ≤ d
    → IsPlace h (steps ++ fs) (node a k c l r)
    → ((gs : List Frame) → before (steps ++ gs) ≡ before gs)
    → IsRb n (node a k c l r)
    → IsRbAbove n c (steps ++ fs)
    → Least h fuel a d fs (λ gs. keys (node a k c l r) ++ after (steps ++ gs))
rb_min-Least zero h steps fs a k n d c l r f lt v q rb w = absurd (omega arith)
rb_min-Least (suc fuel) h steps fs a k n d c leaf r f lt v q rb w = record {
  steps = steps;
  y = a;
  key = k;
  color = c;
  right = r;
  found = rb_min_end fuel h a (ap (λ n. n.l) (at_root v));
  place = v;
  lefts = q;
  rest = λ gs. refl;
  near = omega arith;
  height = n;
  rb = rb;
  rb_above = w;
}
rb_min-Least (suc fuel) h steps fs a k n d c (node a' k' c' l' r') r f lt v q rb w =
    let l = node a' k' c' l' r' in
    let (m, rb', w') = down_left-IsRb n (steps ++ fs) a k c l r rb w in
    let v' = down_left _ _ _ _ _ _ _ v in
    let least =
      rb_min-Least fuel h (is_left a k c r ∷ steps) fs a' k' m d c' l' r' (omega arith)
        (omega arith) v' q rb' w' in
    record {
      steps = least.steps;
      y = least.y;
      key = least.key;
      color = least.color;
      right = least.right;
      found = rb_min_down fuel h a a' (ap (λ n. n.l) (at_root v)) (root_pos v') ∙ least.found;
      place = least.place;
      lefts = least.lefts;
      rest = λ gs. least.rest gs ∙ sym (append_assoc (keys l) (k ∷ keys r) (after (steps ++ gs)));
      near = least.near;
      height = least.height;
      rb = least.rb;
      rb_above = least.rb_above;
    }
