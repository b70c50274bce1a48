-- ===== src/Nss/Rbt/Write.antt =====
-- What the writes of the red-black tree of nss.c leave alone.
use somerubbish.Prelude.{
  ℕ, ◌≤◌, ◌<◌, ◌≡◌, ◌≢◌, refl, ap, sym, subst, ◌∙◌, Bool, true, false, List, [], ◌∷◌, arith, ◌==◌,
  Bool-cases, inl, inr, if◌then◌else◌,
}
use somerubbish.Nss.Rbt.{RbtNode, Rbt, update, set_l, set_r, set_p, adopt, replace_child}
use somerubbish.Nss.Rbt.Tree.{
  Tree, leaf, node, Frame, is_left, is_right, root_of, parent_of, Holds, HoldsAbove, one, one_self,
  count, count_above, Holds-cong, HoldsAbove-cong,
}

pub ==_self : (a : ℕ) → (a == a) ≡ true
==_self a = ground arith

pub ==_other : {a b : ℕ} → a ≢ b → (a == b) ≡ false
==_other n = ground arith

pub update_self : (h : Rbt) (a : ℕ) (f : RbtNode → RbtNode) → (update h a f).at a ≡ f (h.at a)
update_self h a f = rw (==_self a) refl

pub update_other :
    (h : Rbt) {a b : ℕ} (f : RbtNode → RbtNode) → b ≢ a → (update h a f).at b ≡ h.at b
update_other h f n = rw (==_other n) refl

-- An address of a tree is not one that the tree does not have.
pub count-apart : {a b : ℕ} (t : Tree) → 0 < count b t → count a t ≡ 0 → b ≢ a
count-apart t m z e = let q = ap (λ b. count b t) e in omega arith

pub count_above-apart :
    {a b : ℕ} (fs : List Frame) → 0 < count_above b fs → count_above a fs ≡ 0 → b ≢ a
count_above-apart fs m z e = let q = ap (λ b. count_above b fs) e in omega arith

pub one-apart : {a b : ℕ} → one a b ≡ 0 → b ≢ a
one-apart {a = a} z e = let q = one_self e in omega arith

-- A root that is not in the tree.
pub root-apart : {x : ℕ} (t : Tree) → 0 < x → count x t ≡ 0 → root_of t ≢ x
root-apart leaf pos z e = omega arith
root-apart (node a k c l r) pos z e = let q = one_self (sym e) in omega arith

pub update-Holds :
    (h : Rbt) (a : ℕ) (f : RbtNode → RbtNode) (p : ℕ) (t : Tree)
    → count a t ≡ 0
    → Holds h p t
    → Holds (update h a f) p t
update-Holds h a f p t z =
    Holds-cong h (update h a f) p t (λ b m. update_other h f (count-apart t m z))

pub update-HoldsAbove :
    (h : Rbt) (a : ℕ) (f : RbtNode → RbtNode) (fs : List Frame) (x : ℕ)
    → count_above a fs ≡ 0
    → HoldsAbove h fs x
    → HoldsAbove (update h a f) fs x
update-HoldsAbove h a f fs x z =
    HoldsAbove-cong h (update h a f) fs x refl (λ b m. update_other h f (count_above-apart fs m z))

if-at :
    (c : Bool) (s t : Rbt) (b : ℕ) {v : RbtNode}
    → s.at b ≡ v
    → t.at b ≡ v
    → (if c then s else t).at b ≡ v
if-at true s t b e e' = e
if-at false s t b e e' = e'

adopt_nonzero : (h : Rbt) (x : ℕ) {a : ℕ} → 0 < a → adopt h a x ≡ set_p h a x
unfolding adopt
adopt_nonzero h x {a = a} pos = rw (==_other {a = a} {b = 0} (λ e. omega arith)) refl

pub adopt-root : (h : Rbt) (a x : ℕ) → (adopt h a x).root ≡ h.root
unfolding adopt
adopt-root h a x = if-root (a == 0)
  where
    if-root : (c : Bool) → (if c then h else set_p h a x).root ≡ h.root
    if-root true = refl
    if-root false = refl

pub adopt_other :
    (h : Rbt) (x : ℕ) (t : Tree) {b : ℕ} → count b t ≡ 0 → (adopt h (root_of t) x).at b ≡ h.at b
unfolding adopt
adopt_other h x leaf z = refl
adopt_other h x (node a k c l r) z =
    if-at (a == 0) _ _ _ refl (update_other h (λ n. record n { p = x }) (one-apart (omega arith)))

pub adopt-Holds :
    (h : Rbt) (p x : ℕ) (t : Tree)
    → ((b : ℕ) → count b t ≤ 1)
    → Holds h p t
    → Holds (adopt h (root_of t) x) x t
adopt-Holds h p x leaf once v = tt
adopt-Holds h p x (node a k c l r) once (pos, n, vl, vr) =
    let here = one_self (refl {a = a}) in
    let o = once a in
    let f : RbtNode → RbtNode = λ n. record n { p = x } in
    subst (λ g. Holds g x (node a k c l r)) (sym (adopt_nonzero h x pos))
      (
        pos,
        update_self h a f ∙ ap f n,
        update-Holds h a f a l (omega arith) vl,
        update-Holds h a f a r (omega arith) vr,
      )

-- The link from above.
module _ (h : Rbt) (x y : ℕ) where
  pub replace_child_other :
      {b : ℕ} → ((h.at x).p ≢ 0 → b ≢ (h.at x).p) → (replace_child h x y).at b ≡ h.at b
  unfolding replace_child
  replace_child_other n = elim (Bool-cases ((h.at x).p == 0)) [
    | inl e ↦ rw e refl
    | inr e ↦
        let other = n (λ z. ground arith) in
        rw e (
          if-at ((h.at (h.at x).p).l == x) _ _ _ (update_other h (λ n. record n { l = y }) other) (
            if-at ((h.at (h.at x).p).r == x) _ _ _ (update_other h (λ n. record n { r = y }) other)
              refl))
  ]

  replace_child_left :
      (p : ℕ) → (h.at x).p ≡ p → 0 < p → (h.at p).l ≡ x → replace_child h x y ≡ set_l h p y
  unfolding replace_child
  replace_child_left p e pos el =
      rw (e, ==_other {a = p} {b = 0} (λ e. omega arith), el, ==_self x) refl

  replace_child_right :
      (p : ℕ)
      → (h.at x).p ≡ p
      → 0 < p
      → (h.at p).l ≢ x
      → (h.at p).r ≡ x
      → replace_child h x y ≡ set_r h p y
  unfolding replace_child
  replace_child_right p e pos n er =
      rw (e, ==_other {a = p} {b = 0} (λ e. omega arith), ==_other n, er, ==_self x) refl

  replace_child_top : (h.at x).p ≡ 0 → (replace_child h x y).root ≡ y
  unfolding replace_child
  replace_child_top e = rw e refl

  -- A frame is told from the subtree by the addresses.
  pub replace_child-HoldsAbove :
      (fs : List Frame)
      → 0 < x
      → (h.at x).p ≡ parent_of fs
      → count_above x fs ≡ 0
      → ((b : ℕ) → count_above b fs ≤ 1)
      → HoldsAbove h fs x
      → HoldsAbove (replace_child h x y) fs y
  replace_child-HoldsAbove [] pos e z once v = replace_child_top e
  replace_child-HoldsAbove (is_left a k c r ∷ fs) pos e z once (apos, n, vr, vs) =
      let here = one_self (refl {a = a}) in
      let o = once a in
      let f : RbtNode → RbtNode = λ n. record n { l = y } in
      subst (λ g. HoldsAbove g (is_left a k c r ∷ fs) y)
        (sym (replace_child_left a e apos (ap (λ n. n.l) n)))
        (
          apos,
          update_self h a f ∙ ap f n,
          update-Holds h a f a r (omega arith) vr,
          update-HoldsAbove h a f fs a (omega arith) vs,
        )
  replace_child-HoldsAbove (is_right a k c l ∷ fs) pos e z once (apos, n, vl, vs) =
      let here = one_self (refl {a = a}) in
      let o = once a in
      let f : RbtNode → RbtNode = λ n. record n { r = y } in
      subst (λ g. HoldsAbove g (is_right a k c l ∷ fs) y)
        (sym (
          replace_child_right a e apos
            (λ q. root-apart l pos (omega arith) (sym (ap (λ n. n.l) n) ∙ q)) (ap (λ n. n.r) n)))
        (
          apos,
          update_self h a f ∙ ap f n,
          update-Holds h a f a l (omega arith) vl,
          update-HoldsAbove h a f fs a (omega arith) vs,
        )
