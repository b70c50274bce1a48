-- ===== src/Nss/Rbt/Loop.antt =====
-- The loop of rb_insert_fixup of nss.c, to its end.
use somerubbish.Prelude.{
  ℕ, zero, suc, ◌+◌, ◌≤◌, ◌≡◌, ◌≢◌, refl, ap, sym, subst, if◌then◌else◌, List, [], ◌∷◌, arith,
  Option, some, ◌>>=◌, length,
}
use somerubbish.Nss.Rbt.{red, black, Rbt, is_red, set_c, fixup_loop, rb_insert_fixup}
use somerubbish.Nss.Rbt.Tree.{
  root_of, Tree, leaf, node, Frame, is_left, is_right, plug, IsPlace, keys,
}
use somerubbish.Nss.Rbt.Write.{update_self}
use somerubbish.Nss.Rbt.Place.{up, set_c-IsPlace, at_root, keys-plug}
use somerubbish.Nss.Rbt.Balance.{color_of, IsRb, IsRbAbove}
use somerubbish.Nss.Rbt.Round.{fixup_loop_black}
use somerubbish.Nss.Rbt.Fixup.{Mended, finish}
use somerubbish.Nss.Rbt.Shapes.{left_left, right_left, right_right, left_right}

pub red≢black : red ≢ black
red≢black e = subst (λ c. if is_red c then Unit else ⊥) e tt

fixup_loop-Mended :
    (more : ℕ) (h : Rbt) (fs : List Frame) (z k n : ℕ) (l r : Tree)
    → length fs ≤ more
    → IsPlace h fs (node z k red l r)
    → IsRb n (node z k red l r)
    → IsRbAbove n black fs
    → Mended (keys (plug fs (node z k red l r))) (fixup_loop (suc (suc (suc more))) h z)
fixup_loop-Mended more h [] z k n l r f v rb w = record {
  memory = h;
  tree = node z k red l r;
  height = n;
  ends = fixup_loop_black (suc (suc more)) h z 0 (ap (λ n. n.p) (at_root v)) v.nil;
  holds = v;
  same = refl;
  rb = rb;
}
fixup_loop-Mended more h (is_left p kp black b ∷ fs) z k n l r f v rb w =
    let vp = up _ _ _ _ v in
    finish n (is_left p kp black b ∷ fs) (node z k red l r) (node z k red l r)
      record {
        memory = h;
        ends =
            fixup_loop_black (suc (suc more)) h z p (ap (λ n. n.p) (at_root v))
              (ap (λ n. n.c) (at_root vp));
        holds = v;
      }
      rb w refl
fixup_loop-Mended more h (is_right p kp black b ∷ fs) z k n l r f v rb w =
    let vp = up _ _ _ _ v in
    finish n (is_right p kp black b ∷ fs) (node z k red l r) (node z k red l r)
      record {
        memory = h;
        ends =
            fixup_loop_black (suc (suc more)) h z p (ap (λ n. n.p) (at_root v))
              (ap (λ n. n.c) (at_root vp));
        holds = v;
      }
      rb w refl
fixup_loop-Mended more h (is_left p kp red b ∷ []) z k n l r f v rb (e, eb, vb, w) =
    absurd (red≢black w)
fixup_loop-Mended more h (is_right p kp red b ∷ []) z k n l r f v rb (e, eb, vb, w) =
    absurd (red≢black w)
fixup_loop-Mended more h (is_left p kp red b ∷ is_left g kg red u ∷ fs) z k n l r f v rb
      (e, eb, vb, (w, ew, vw, rest)) =
    absurd (red≢black w)
fixup_loop-Mended more h (is_left p kp red b ∷ is_right g kg red u ∷ fs) z k n l r f v rb
      (e, eb, vb, (w, ew, vw, rest)) =
    absurd (red≢black w)
fixup_loop-Mended more h (is_right p kp red b ∷ is_left g kg red u ∷ fs) z k n l r f v rb
      (e, eb, vb, (w, ew, vw, rest)) =
    absurd (red≢black w)
fixup_loop-Mended more h (is_right p kp red b ∷ is_right g kg red u ∷ fs) z k n l r f v rb
      (e, eb, vb, (w, ew, vw, rest)) =
    absurd (red≢black w)
fixup_loop-Mended zero h (f ∷ f' ∷ fs) z k n l r lt v rb w = absurd (omega arith)
fixup_loop-Mended (suc more) h (is_left p kp red b ∷ is_left g kg black u ∷ fs) z k n l r f v rb
      (e, eb, vb, (vu, w)) =
    left_left h z k p kp g kg n more fs l r b u (up _ _ _ _ (up _ _ _ _ v)) rb eb vb vu w
      (λ h' l' r' v' rb' q.
        subst (λ ks. Mended ks (fixup_loop (suc (suc (suc more))) h' g)) (keys-plug fs _ _ q)
          (fixup_loop-Mended more h' fs g kg (suc n) l' r' (omega arith) v' rb' w))
fixup_loop-Mended (suc more) h (is_right p kp red b ∷ is_left g kg black u ∷ fs) z k n l r f v rb
      (e, eb, vb, (vu, w)) =
    right_left h z k p kp g kg n more fs l r b u (up _ _ _ _ (up _ _ _ _ v)) rb eb vb vu w
      (λ h' l' r' v' rb' q.
        subst (λ ks. Mended ks (fixup_loop (suc (suc (suc more))) h' g)) (keys-plug fs _ _ q)
          (fixup_loop-Mended more h' fs g kg (suc n) l' r' (omega arith) v' rb' w))
fixup_loop-Mended (suc more) h (is_right p kp red b ∷ is_right g kg black u ∷ fs) z k n l r f v rb
      (e, eb, vb, (vu, w)) =
    right_right h z k p kp g kg n more fs l r b u (up _ _ _ _ (up _ _ _ _ v)) rb eb vb vu w
      (λ h' l' r' v' rb' q.
        subst (λ ks. Mended ks (fixup_loop (suc (suc (suc more))) h' g)) (keys-plug fs _ _ q)
          (fixup_loop-Mended more h' fs g kg (suc n) l' r' (omega arith) v' rb' w))
fixup_loop-Mended (suc more) h (is_left p kp red b ∷ is_right g kg black u ∷ fs) z k n l r f v rb
      (e, eb, vb, (vu, w)) =
    left_right h z k p kp g kg n more fs l r b u (up _ _ _ _ (up _ _ _ _ v)) rb eb vb vu w
      (λ h' l' r' v' rb' q.
        subst (λ ks. Mended ks (fixup_loop (suc (suc (suc more))) h' g)) (keys-plug fs _ _ q)
          (fixup_loop-Mended more h' fs g kg (suc n) l' r' (omega arith) v' rb' w))

-- The root is painted black.
abbrev pub BlackMended : List ℕ → Option Rbt → Type 0
BlackMended ks o = (m : Mended ks o) × (color_of m.tree ≡ black)

pub blacken :
    (ks : List ℕ) (h : Rbt) (t : Tree) (n : ℕ)
    → IsPlace h [] t
    → keys t ≡ ks
    → IsRb n t
    → BlackMended ks (some (set_c h (root_of t) black))
blacken ks h leaf n v e rb = (
  record {
    memory = set_c h 0 black;
    tree = leaf;
    height = n;
    ends = refl;
    holds = record {
      below = tt;
      above = v.above;
      once = v.once;
      nil = ap (λ n. n.c) (update_self h 0 (λ n. record n { c = black }));
    };
    same = e;
    rb = rb;
  },
  refl,
)
blacken ks h (node a k red l r) n v e (el, er, vl, vr) = (
  record {
    memory = set_c h a black;
    tree = node a k black l r;
    height = suc n;
    ends = refl;
    holds = set_c-IsPlace h [] a k red black l r v;
    same = e;
    rb = (n, refl, vl, vr);
  },
  refl,
)
blacken ks h (node a k black l r) n v e rb = (
  record {
    memory = set_c h a black;
    tree = node a k black l r;
    height = n;
    ends = refl;
    holds = set_c-IsPlace h [] a k black black l r v;
    same = e;
    rb = rb;
  },
  refl,
)

-- From a red node whose parent may be red too, with fuel for the frames above it, rb_insert_fixup
-- ends with a balanced tree of the same keys and a black root.
pub rb_insert_fixup-BlackMended :
    (fuel : ℕ) (h : Rbt) (fs : List Frame) (z k n : ℕ) (l r : Tree)
    → length fs + 3 ≤ fuel
    → IsPlace h fs (node z k red l r)
    → IsRb n (node z k red l r)
    → IsRbAbove n black fs
    → BlackMended (keys (plug fs (node z k red l r))) (rb_insert_fixup fuel h z)
unfolding rb_insert_fixup
rb_insert_fixup-BlackMended zero h fs z k n l r f v rb w = absurd (omega arith)
rb_insert_fixup-BlackMended (suc zero) h fs z k n l r f v rb w = absurd (omega arith)
rb_insert_fixup-BlackMended (suc (suc zero)) h fs z k n l r f v rb w = absurd (omega arith)
rb_insert_fixup-BlackMended (suc (suc (suc more))) h fs z k n l r f v rb w =
    let m = fixup_loop-Mended more h fs z k n l r (omega arith) v rb w in
    let ks = keys (plug fs (node z k red l r)) in
    subst (λ o. BlackMended ks (o >>= (λ t'. some (set_c t' t'.root black)))) (sym m.ends)
      (subst (λ a. BlackMended ks (some (set_c m.memory a black))) (sym m.holds.above)
        (blacken ks m.memory m.tree m.height m.holds m.same m.rb))
