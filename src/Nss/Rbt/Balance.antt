-- ===== src/Nss/Rbt/Balance.antt =====
-- When the red-black tree of nss.c is balanced: what its colours stand for.
use somerubbish.Prelude.{ℕ, suc, ◌≡◌, refl, List, [], ◌∷◌}
use somerubbish.Nss.Rbt.{Color, red, black}
use somerubbish.Nss.Rbt.Tree.{Tree, leaf, node, Frame, is_left, is_right, plug}

abbrev pub color_of : Tree → Color
color_of leaf = black
color_of (node a k c l r) = c

-- No red node has a red child, and `n` black nodes stand on every way down to NIL_NODE.
abbrev pub IsRb : (n : ℕ) → Tree → Type 0
IsRb n leaf = n ≡ 0
IsRb n (node a k red l r) = (color_of l ≡ black) × (color_of r ≡ black) × IsRb n l × IsRb n r
IsRb n (node a k black l r) = (m : ℕ) × (n ≡ suc m) × IsRb m l × IsRb m r

-- The same of the frames above a subtree that has `n` black nodes on each way and the colour `c`;
-- the topmost node is black.
abbrev pub IsRbAbove : (n : ℕ) → (c : Color) → List Frame → Type 0
IsRbAbove n c [] = c ≡ black
IsRbAbove n c (is_left a k red r ∷ fs) =
    (c ≡ black) × (color_of r ≡ black) × IsRb n r × IsRbAbove n red fs
IsRbAbove n c (is_left a k black r ∷ fs) = IsRb n r × IsRbAbove (suc n) black fs
IsRbAbove n c (is_right a k red l ∷ fs) =
    (c ≡ black) × (color_of l ≡ black) × IsRb n l × IsRbAbove n red fs
IsRbAbove n c (is_right a k black l ∷ fs) = IsRb n l × IsRbAbove (suc n) black fs

pub plug-IsRb :
    (n : ℕ) (fs : List Frame) (t : Tree)
    → IsRb n t
    → IsRbAbove n (color_of t) fs
    → (m : ℕ) × IsRb m (plug fs t)
plug-IsRb n [] t v w = (n, v)
plug-IsRb n (is_left a k red r ∷ fs) t v (e, e', vr, w) =
    plug-IsRb n fs (node a k red t r) (e, e', v, vr) w
plug-IsRb n (is_left a k black r ∷ fs) t v (vr, w) =
    plug-IsRb (suc n) fs (node a k black t r) (n, refl, v, vr) w
plug-IsRb n (is_right a k red l ∷ fs) t v (e, e', vl, w) =
    plug-IsRb n fs (node a k red l t) (e', e, vl, v) w
plug-IsRb n (is_right a k black l ∷ fs) t v (vl, w) =
    plug-IsRb (suc n) fs (node a k black l t) (n, refl, vl, v) w
