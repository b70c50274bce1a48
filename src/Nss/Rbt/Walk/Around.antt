-- ===== src/Nss/Rbt/Walk/Around.antt =====
-- The keys around a place in the red-black tree of nss.c.
use somerubbish.Prelude.{ℕ, ◌≡◌, ap, sym, ◌∙◌, List, [], ◌∷◌, ◌++◌, append_assoc, append-nil}
use somerubbish.Nss.Rbt.{Color}
use somerubbish.Nss.Rbt.Tree.{Tree, node, Frame, is_left, is_right, plug, keys}

-- The keys on either side of a place.
abbrev pub before : List Frame → List ℕ
before [] = []
before (is_left a k c r ∷ fs) = before fs
before (is_right a k c l ∷ fs) = before fs ++ (keys l ++ k ∷ [])

abbrev pub after : List Frame → List ℕ
after [] = []
after (is_left a k c r ∷ fs) = k ∷ keys r ++ after fs
after (is_right a k c l ∷ fs) = after fs

regroup : (x t k a : List ℕ) → x ++ (t ++ k) ++ a ≡ x ++ t ++ (k ++ a)
regroup x t k a = ap (λ q. q ++ a) (sym (append_assoc x t k)) ∙ append_assoc (x ++ t) k a

pub keys-split : (fs : List Frame) (t : Tree) → keys (plug fs t) ≡ before fs ++ keys t ++ after fs
keys-split [] t = sym (append-nil (keys t))
keys-split (is_left a k c r ∷ fs) t =
    keys-split fs (node a k c t r) ∙ regroup (before fs) (keys t) (k ∷ keys r) (after fs)
keys-split (is_right a k c l ∷ fs) t =
    keys-split fs (node a k c l t)
    ∙ ap (λ q. q ++ after fs)
        (ap (λ q. before fs ++ q) (sym (append_assoc (keys l) (k ∷ []) (keys t)))
          ∙ sym (append_assoc (before fs) (keys l ++ k ∷ []) (keys t)))

-- The keys are those before, the one of the node, and those after.
pub keys-around :
    (fs : List Frame) (z k : ℕ) (c : Color) (l r : Tree)
    → keys (plug fs (node z k c l r)) ≡ before fs ++ keys l ++ k ∷ (keys r ++ after fs)
keys-around fs z k c l r =
    keys-split fs (node z k c l r) ∙ regroup (before fs) (keys l) (k ∷ keys r) (after fs)
