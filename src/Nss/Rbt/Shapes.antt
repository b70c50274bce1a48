-- ===== src/Nss/Rbt/Shapes.antt =====
-- The four shapes of two red nodes below a black one in rb_insert_fixup of nss.c.
use somerubbish.Prelude.{ℕ, suc, ◌≡◌, refl, ap, sym, ◌∙◌, List, ◌∷◌, ◌++◌, append_assoc}
use somerubbish.Nss.Rbt.{red, black, Rbt, fixup_loop}
use somerubbish.Nss.Rbt.Tree.{Tree, node, Frame, plug, IsPlace, keys}
use somerubbish.Nss.Rbt.Place.{down_left, down_right, at_root}
use somerubbish.Nss.Rbt.Balance.{color_of, IsRb, IsRbAbove}
use somerubbish.Nss.Rbt.Turns.{outer_left, outer_right, inner_left, inner_right}
use somerubbish.Nss.Rbt.Fixup.{Mended, finish, Continues, or_repaint_left, or_repaint_right}

pub left_left :
    (h : Rbt) (z k p kp g kg n more : ℕ) (fs : List Frame) (l r b u : Tree)
    → IsPlace h fs (node g kg black (node p kp red (node z k red l r) b) u)
    → IsRb n (node z k red l r)
    → color_of b ≡ black
    → IsRb n b
    → IsRb n u
    → IsRbAbove (suc n) black fs
    → Continues
        (suc (suc (suc more)))
        fs
        g
        kg
        n
        (node g kg black (node p kp red (node z k red l r) b) u)
    → Mended
        (keys (plug fs (node g kg black (node p kp red (node z k red l r) b) u)))
        (fixup_loop (suc (suc (suc (suc more)))) h z)
left_left h z k p kp g kg n more fs l r b u v rb eb vb vu w go =
    let (el, er, vl, vr) = rb in
    or_repaint_left (suc (suc (suc more))) h fs g kg p kp z n (node z k red l r) b u
      (ap (λ n. n.p) (at_root (down_left _ _ _ _ _ _ _ (down_left _ _ _ _ _ _ _ v)))) v rb vb vu go
      (λ eu.
        finish (suc n) fs (node p kp black (node z k red l r) (node g kg red b u))
          (node g kg black (node p kp red (node z k red l r) b) u)
          (outer_left (suc (suc more)) h fs g kg p kp z k l r b u v eu)
          (n, refl, (el, er, vl, vr), (eb, eu, vb, vu)) w
          (sym (append_assoc (keys (node z k red l r)) (kp ∷ keys b) (kg ∷ keys u))))

pub right_left :
    (h : Rbt) (z k p kp g kg n more : ℕ) (fs : List Frame) (l r b u : Tree)
    → IsPlace h fs (node g kg black (node p kp red b (node z k red l r)) u)
    → IsRb n (node z k red l r)
    → color_of b ≡ black
    → IsRb n b
    → IsRb n u
    → IsRbAbove (suc n) black fs
    → Continues
        (suc (suc (suc more)))
        fs
        g
        kg
        n
        (node g kg black (node p kp red b (node z k red l r)) u)
    → Mended
        (keys (plug fs (node g kg black (node p kp red b (node z k red l r)) u)))
        (fixup_loop (suc (suc (suc (suc more)))) h z)
right_left h z k p kp g kg n more fs l r b u v rb eb vb vu w go =
    let (el, er, vl, vr) = rb in
    or_repaint_left (suc (suc (suc more))) h fs g kg p kp z n b (node z k red l r) u
      (ap (λ n. n.p) (at_root (down_right _ _ _ _ _ _ _ (down_left _ _ _ _ _ _ _ v)))) v vb rb vu go
      (λ eu.
        finish (suc n) fs (node z k black (node p kp red b l) (node g kg red r u))
          (node g kg black (node p kp red b (node z k red l r)) u)
          (inner_left (suc more) h fs g kg p kp z k l r b u v eu)
          (n, refl, (eb, el, vb, vl), (er, eu, vr, vu)) w
          (sym (
            ap (λ ks. ks ++ kg ∷ keys u) (sym (append_assoc (keys b) (kp ∷ keys l) (k ∷ keys r)))
            ∙ append_assoc (keys b ++ kp ∷ keys l) (k ∷ keys r) (kg ∷ keys u))))

pub right_right :
    (h : Rbt) (z k p kp g kg n more : ℕ) (fs : List Frame) (l r b u : Tree)
    → IsPlace h fs (node g kg black u (node p kp red b (node z k red l r)))
    → IsRb n (node z k red l r)
    → color_of b ≡ black
    → IsRb n b
    → IsRb n u
    → IsRbAbove (suc n) black fs
    → Continues
        (suc (suc (suc more)))
        fs
        g
        kg
        n
        (node g kg black u (node p kp red b (node z k red l r)))
    → Mended
        (keys (plug fs (node g kg black u (node p kp red b (node z k red l r)))))
        (fixup_loop (suc (suc (suc (suc more)))) h z)
right_right h z k p kp g kg n more fs l r b u v rb eb vb vu w go =
    let (el, er, vl, vr) = rb in
    or_repaint_right (suc (suc (suc more))) h fs g kg p kp z n b (node z k red l r) u
      (ap (λ n. n.p) (at_root (down_right _ _ _ _ _ _ _ (down_right _ _ _ _ _ _ _ v)))) v vb rb vu
      go
      (λ eu.
        finish (suc n) fs (node p kp black (node g kg red u b) (node z k red l r))
          (node g kg black u (node p kp red b (node z k red l r)))
          (outer_right (suc (suc more)) h fs g kg p kp z k l r b u v eu)
          (n, refl, (eu, eb, vu, vb), (el, er, vl, vr)) w
          (append_assoc (keys u) (kg ∷ keys b) (kp ∷ keys (node z k red l r))))

pub left_right :
    (h : Rbt) (z k p kp g kg n more : ℕ) (fs : List Frame) (l r b u : Tree)
    → IsPlace h fs (node g kg black u (node p kp red (node z k red l r) b))
    → IsRb n (node z k red l r)
    → color_of b ≡ black
    → IsRb n b
    → IsRb n u
    → IsRbAbove (suc n) black fs
    → Continues
        (suc (suc (suc more)))
        fs
        g
        kg
        n
        (node g kg black u (node p kp red (node z k red l r) b))
    → Mended
        (keys (plug fs (node g kg black u (node p kp red (node z k red l r) b))))
        (fixup_loop (suc (suc (suc (suc more)))) h z)
left_right h z k p kp g kg n more fs l r b u v rb eb vb vu w go =
    let (el, er, vl, vr) = rb in
    or_repaint_right (suc (suc (suc more))) h fs g kg p kp z n (node z k red l r) b u
      (ap (λ n. n.p) (at_root (down_left _ _ _ _ _ _ _ (down_right _ _ _ _ _ _ _ v)))) v rb vb vu go
      (λ eu.
        finish (suc n) fs (node z k black (node g kg red u l) (node p kp red r b))
          (node g kg black u (node p kp red (node z k red l r) b))
          (inner_right (suc more) h fs g kg p kp z k l r b u v eu)
          (n, refl, (eu, el, vu, vl), (er, eb, vr, vb)) w
          (append_assoc (keys u) (kg ∷ keys l) (k ∷ (keys r ++ kp ∷ keys b))
            ∙ ap (λ ks. keys u ++ kg ∷ ks)
                (sym (append_assoc (keys l) (k ∷ keys r) (kp ∷ keys b)))))
