-- ===== src/Nss/Rbt/Delete/Ends.antt =====
-- How the loop of rb_delete_fixup of nss.c ends, and what it leaves: rb_delete_fixup paints the
-- node black.
use somerubbish.Prelude.{ℕ, suc, ◌≡◌, refl, ap, sym, subst, ◌∙◌, List, [], ◌∷◌, Option, some, ◌>>=◌}
use somerubbish.Nss.Rbt.{Color, red, black, Rbt, set_c}
use somerubbish.Nss.Rbt.Tree.{Tree, node, Frame, is_left, is_right, root_of, plug, IsPlace, keys}
use somerubbish.Nss.Rbt.Place.{set_c-IsPlace, keys-plug, at_root}
use somerubbish.Nss.Rbt.Balance.{color_of, IsRb, IsRbAbove, plug-IsRb}
use somerubbish.Nss.Rbt.Fixup.{up_all}
use somerubbish.Nss.Rbt.Loop.{BlackMended, blacken, red≢black}
use somerubbish.Nss.Rbt.Delete.{delete_loop}
use somerubbish.Nss.Rbt.Delete.Rounds.{Closed, delete_loop_root, delete_loop_red}

-- What rb_delete_fixup makes of the end of the loop is a balanced tree of the keys.
abbrev pub Repaired : List ℕ → Option (Rbt × ℕ) → Type 0
Repaired ks o = BlackMended ks (o >>= (λ (t', x). some (set_c t' x black)))

-- The frames above a node of a colour over subtrees with `n` black nodes on each way.
abbrev pub Up : ℕ → Color → List Frame → Type 0
Up n red fs = IsRbAbove n red fs
Up n black fs = IsRbAbove (suc n) black fs

pub plug-black :
    (n : ℕ) (fs : List Frame) (t : Tree)
    → IsRbAbove n (color_of t) fs
    → color_of (plug fs t) ≡ black
plug-black n [] t w = w
plug-black n (is_left a k red r ∷ fs) t (e, er, vr, w) = plug-black n fs (node a k red t r) w
plug-black n (is_left a k black r ∷ fs) t (vr, w) = plug-black (suc n) fs (node a k black t r) w
plug-black n (is_right a k red l ∷ fs) t (e, el, vl, w) = plug-black n fs (node a k red l t) w
plug-black n (is_right a k black l ∷ fs) t (vl, w) = plug-black (suc n) fs (node a k black l t) w

-- A black subtree fits where a red one does.
pub weaken : (n : ℕ) (c : Color) (fs : List Frame) → IsRbAbove n c fs → IsRbAbove n black fs
weaken n c [] w = refl
weaken n c (is_left a k red r ∷ fs) (e, er, vr, w) = (refl, er, vr, w)
weaken n c (is_left a k black r ∷ fs) w = w
weaken n c (is_right a k red l ∷ fs) (e, el, vl, w) = (refl, el, vl, w)
weaken n c (is_right a k black l ∷ fs) w = w

pub above_left :
    (n p kp : ℕ) (cp : Color) (w : Tree) (fs : List Frame)
    → IsRbAbove n black (is_left p kp cp w ∷ fs)
    → IsRb n w × Up n cp fs × (color_of w ≡ red → cp ≡ black)
above_left n p kp red w fs (e, ew, vw, v) = (vw, v, λ q. absurd (red≢black (sym q ∙ ew)))
above_left n p kp black w fs (vw, v) = (vw, v, λ q. refl)

pub above_right :
    (n p kp : ℕ) (cp : Color) (w : Tree) (fs : List Frame)
    → IsRbAbove n black (is_right p kp cp w ∷ fs)
    → IsRb n w × Up n cp fs × (color_of w ≡ red → cp ≡ black)
above_right n p kp red w fs (e, ew, vw, v) = (vw, v, λ q. absurd (red≢black (sym q ∙ ew)))
above_right n p kp black w fs (vw, v) = (vw, v, λ q. refl)

-- A node of the colour over two black subtrees.
pub node_with :
    (n a k : ℕ) (c : Color) (l r : Tree) (fs : List Frame)
    → Up n c fs
    → color_of l ≡ black
    → color_of r ≡ black
    → IsRb n l
    → IsRb n r
    → (m : ℕ) × IsRb m (node a k c l r) × IsRbAbove m c fs
node_with n a k red l r fs w el er vl vr = (n, (el, er, vl, vr), w)
node_with n a k black l r fs w el er vl vr = (suc n, (n, refl, vl, vr), w)

module _ (ks : List ℕ) where
  -- The loop stops at the root.
  root_end :
      (h : Rbt) (t : Tree) (n : ℕ)
      → IsPlace h [] t
      → keys t ≡ ks
      → IsRb n t
      → Repaired ks (some (h, h.root))
  root_end h t n v e rb =
      subst (λ a. BlackMended ks (some (set_c h a black))) (sym v.above) (blacken ks h t n v e rb)

  pub closed_end :
      {o : Option (Rbt × ℕ)} (fs : List Frame) (s : Tree) (n : ℕ)
      → Closed o fs s
      → keys (plug fs s) ≡ ks
      → IsRb n s
      → IsRbAbove n (color_of s) fs
      → Repaired ks o
  closed_end fs s n c e rb w =
      let (m, rb') = plug-IsRb n fs s rb w in
      subst (Repaired ks) (sym c.ends)
        (root_end c.memory (plug fs s) m (up_all c.memory fs s c.holds) e rb')

  pub top_end :
      (fuel : ℕ) (h : Rbt) (t : Tree) (n : ℕ)
      → IsPlace h [] t
      → keys t ≡ ks
      → IsRb n t
      → Repaired ks (delete_loop (suc fuel) h (root_of t))
  top_end fuel h t n v e rb =
      subst (Repaired ks) (sym (delete_loop_root fuel h (root_of t) (sym v.above)))
        (blacken ks h t n v e rb)

  -- It stops at a red node.
  pub red_end :
      (fuel : ℕ) (h : Rbt) (fs : List Frame) (a k n : ℕ) (l r : Tree)
      → IsPlace h fs (node a k red l r)
      → keys (plug fs (node a k red l r)) ≡ ks
      → IsRb n l
      → IsRb n r
      → IsRbAbove (suc n) black fs
      → Repaired ks (delete_loop (suc fuel) h a)
  red_end fuel h fs a k n l r v e vl vr w =
      let t' = node a k black l r in
      let (m, rb) = plug-IsRb (suc n) fs t' (n, refl, vl, vr) w in
      subst (Repaired ks) (sym (delete_loop_red fuel h a (ap (λ n. n.c) (at_root v)))) (
        record {
          memory = set_c h a black;
          tree = plug fs t';
          height = m;
          ends = refl;
          holds = up_all _ fs t' (set_c-IsPlace h fs a k red black l r v);
          same = keys-plug fs t' (node a k red l r) refl ∙ e;
          rb = rb;
        },
        plug-black (suc n) fs t' w,
      )
