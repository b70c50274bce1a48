-- ===== src/Nss/Rbt/Turn.antt =====
-- The writes that left_rotate and right_rotate of nss.c share.
use somerubbish.Prelude.{
  ℕ, ◌+◌, ◌≤◌, ◌<◌, ◌≡◌, ◌≢◌, refl, ap, sym, subst, ◌∙◌, List, [], ◌∷◌, arith,
}
use somerubbish.Nss.Rbt.{RbtNode, Rbt, update, set_p, adopt, replace_child}
use somerubbish.Nss.Rbt.Tree.{
  Tree, Frame, is_left, is_right, root_of, parent_of, Holds, HoldsAbove, count, count_above,
  Holds-cong, HoldsAbove-cong,
}
use somerubbish.Nss.Rbt.Write.{
  update_self, update_other, count-apart, one-apart, update-Holds, update-HoldsAbove, adopt-root,
  adopt_other, adopt-Holds, replace_child_other, replace_child-HoldsAbove,
}

pub parent-apart :
    {b : ℕ} (fs : List Frame) → count_above b fs ≡ 0 → parent_of fs ≢ 0 → b ≢ parent_of fs
parent-apart [] z n = absurd (n refl)
parent-apart (is_left a k c r ∷ fs) z n = one-apart (omega arith)
parent-apart (is_right a k c l ∷ fs) z n = one-apart (omega arith)

abbrev with_p : ℕ → RbtNode → RbtNode
with_p v n = record n { p = v }

-- What a rotation leaves, in which `x` and `y` have become `nx` and `ny`.
pub record Turned (h g : Rbt) (fs : List Frame) (x y : ℕ) (nx ny : RbtNode) (m : Tree)
    : Type 0 where
  pub at_x : g.at x ≡ nx
  pub at_y : g.at y ≡ ny
  pub elsewhere : (b : ℕ) → b ≢ x → b ≢ y → count b m ≡ 0 → count_above b fs ≡ 0 → g.at b ≡ h.at b
  pub kept :
      (p : ℕ) (t : Tree)
      → count x t ≡ 0
      → count y t ≡ 0
      → ((b : ℕ) → count b t + (count b m + count_above b fs) ≤ 1)
      → Holds h p t
      → Holds g p t
  pub moved : (p : ℕ) → Holds h p m → Holds g x m
  pub linked : HoldsAbove h fs x → HoldsAbove g fs y

-- The writes of a rotation of `x` with its child `y`, whose child `m` goes to `x`: `f` writes the
-- child of `x`, and `g` that of `y`.
abbrev pub turn : Rbt → (x y p m : ℕ) (f g : RbtNode → RbtNode) → Rbt
turn h x y p m f g =
    set_p (update (replace_child (adopt (update (set_p h y p) x f) m x) x y) y g) x y

module _ (h : Rbt) (fs : List Frame) (x y : ℕ) (nx ny : RbtNode) (m : Tree)
    (f g : RbtNode → RbtNode) (ex : h.at x ≡ nx) (ey : h.at y ≡ ny) (fp : (f nx).p ≡ parent_of fs)
    (pos : 0 < x) (apart : x ≢ y) (xm : count x m ≡ 0) (ym : count y m ≡ 0)
    (xs : count_above x fs ≡ 0) (ys : count_above y fs ≡ 0)
    (once : (b : ℕ) → count b m + count_above b fs ≤ 1) where
  abbrev h2 : Rbt
  h2 = update (set_p h y (parent_of fs)) x f

  abbrev h3 : Rbt
  h3 = adopt h2 (root_of m) x

  abbrev h6 : Rbt
  h6 = turn h x y (parent_of fs) (root_of m) f g

  h3-x : h3.at x ≡ f nx
  h3-x =
      adopt_other h2 x m xm
      ∙ update_self (set_p h y (parent_of fs)) x f
      ∙ ap f (update_other h (with_p (parent_of fs)) apart ∙ ex)

  h3-p : (h3.at x).p ≡ parent_of fs
  h3-p = ap (λ n. n.p) h3-x ∙ fp

  -- Past the writes after the third, away from the parent.
  past : (b : ℕ) → b ≢ x → b ≢ y → count_above b fs ≡ 0 → h6.at b ≡ h3.at b
  past b nx ny z =
      update_other (update (replace_child h3 x y) y g) (with_p y) nx
      ∙ update_other (replace_child h3 x y) g ny
      ∙ replace_child_other h3 x y (subst (λ q. q ≢ 0 → b ≢ q) (sym h3-p) (parent-apart fs z))

  turn-x : h6.at x ≡ record (f nx) { p = y }
  turn-x =
      update_self (update (replace_child h3 x y) y g) x (with_p y)
      ∙ ap (with_p y) (
          update_other (replace_child h3 x y) g apart
          ∙ replace_child_other h3 x y (subst (λ q. q ≢ 0 → x ≢ q) (sym h3-p) (parent-apart fs xs))
          ∙ h3-x)

  turn-y : h6.at y ≡ g (record ny { p = parent_of fs })
  turn-y =
      update_other (update (replace_child h3 x y) y g) (with_p y) (λ e. apart (sym e))
      ∙ update_self (replace_child h3 x y) y g
      ∙ ap g (
          replace_child_other h3 x y (subst (λ q. q ≢ 0 → y ≢ q) (sym h3-p) (parent-apart fs ys))
          ∙ adopt_other h2 x m ym
          ∙ update_other (set_p h y (parent_of fs)) f (λ e. apart (sym e))
          ∙ update_self h y (with_p (parent_of fs))
          ∙ ap (with_p (parent_of fs)) ey)

  turn_other : (b : ℕ) → b ≢ x → b ≢ y → count b m ≡ 0 → count_above b fs ≡ 0 → h6.at b ≡ h.at b
  turn_other b nx ny zm zs =
      past b nx ny zs
      ∙ adopt_other h2 x m zm
      ∙ update_other (set_p h y (parent_of fs)) f nx
      ∙ update_other h (with_p (parent_of fs)) ny

  turn-Holds :
      (p : ℕ) (t : Tree)
      → count x t ≡ 0
      → count y t ≡ 0
      → ((b : ℕ) → count b t + (count b m + count_above b fs) ≤ 1)
      → Holds h p t
      → Holds h6 p t
  turn-Holds p t zx zy o = Holds-cong h h6 p t (λ b i.
      let ob = o b in
      let nx = count-apart t i zx in
      let ny = count-apart t i zy in turn_other b nx ny (omega arith) (omega arith))

  turn-moved : (p : ℕ) → Holds h p m → Holds h6 x m
  turn-moved p v =
      Holds-cong h3 h6 x m
        (λ b i. let ob = once b in past b (count-apart m i xm) (count-apart m i ym) (omega arith))
        (adopt-Holds h2 p x m (λ b. let ob = once b in omega arith)
          (update-Holds (set_p h y (parent_of fs)) x f p m xm
            (update-Holds h y (with_p (parent_of fs)) p m ym v)))

  turn-HoldsAbove : HoldsAbove h fs x → HoldsAbove h6 fs y
  turn-HoldsAbove v = update-HoldsAbove (update (replace_child h3 x y) y g) x (with_p y) fs y xs (
      update-HoldsAbove (replace_child h3 x y) y g fs y ys (
        replace_child-HoldsAbove h3 x y fs pos h3-p xs (λ b. let ob = once b in omega arith)
          (HoldsAbove-cong h2 h3 fs x (adopt-root h2 (root_of m) x)
            (λ b i. let ob = once b in adopt_other h2 x m (omega arith))
            (update-HoldsAbove (set_p h y (parent_of fs)) x f fs x xs
              (update-HoldsAbove h y (with_p (parent_of fs)) fs x ys v)))))

  pub turn-Turned : Turned h h6 fs x y (with_p y (f nx)) (g (with_p (parent_of fs) ny)) m
  turn-Turned = record {
    at_x = turn-x;
    at_y = turn-y;
    elsewhere = turn_other;
    kept = turn-Holds;
    moved = turn-moved;
    linked = turn-HoldsAbove;
  }
