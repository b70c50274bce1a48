-- ===== src/Nss/Rbt/Attach.antt =====
-- rb_insert of nss.c, from the search on.
use somerubbish.Prelude.{
  ℕ, ◌+◌, ◌≤◌, ◌<◌, ◌≡◌, ◌≢◌, refl, ap, ap₂, sym, subst, ◌∙◌, List, ◌∷◌, arith, some, inl, inr,
  length,
}
use somerubbish.Nss.Rbt.{
  red, black, RbtNode, Rbt, nil_node, minus_one, update, set_l, set_r, set_p, insert_red, insert_at,
}
use somerubbish.Nss.Rbt.Tree.{
  Tree, leaf, node, Frame, is_left, is_right, addr_of, root_of, parent_of, plug, HoldsAbove, one,
  one_self, one_other, count, count_above, IsPlace, keys,
}
use somerubbish.Nss.Rbt.Write.{
  ==_other, one-apart, update_self, update_other, update-Holds, update-HoldsAbove,
}
use somerubbish.Nss.Rbt.Balance.{IsRbAbove}
use somerubbish.Nss.Rbt.Order.{compare_keys}
use somerubbish.Nss.Rbt.Loop.{BlackMended, rb_insert_fixup-BlackMended}
use somerubbish.Nss.Rbt.Way.{side_of}

-- A node outside of the tree is written.
pub update-IsPlace :
    (h : Rbt) (z : ℕ) (f : RbtNode → RbtNode) (fs : List Frame) (t : Tree)
    → 0 < z
    → count z t + count_above z fs ≡ 0
    → IsPlace h fs t
    → IsPlace (update h z f) fs t
update-IsPlace h z f fs t pos out v = record {
  below = update-Holds h z f (parent_of fs) t (omega arith) v.below;
  above = update-HoldsAbove h z f fs (root_of t) (omega arith) v.above;
  once = v.once;
  nil = ap (λ n. n.c) (update_other h f (λ e. omega arith)) ∙ v.nil;
}

-- The node `z`, linked below the frames, becomes a red node without children.
pub insert_red-BlackMended :
    (fuel : ℕ) (h : Rbt) (fs : List Frame) (z key : ℕ)
    → 0 < z
    → (h.at z).i ≡ key
    → (h.at z).p ≡ parent_of fs
    → HoldsAbove h fs z
    → count_above z fs ≡ 0
    → ((b : ℕ) → count_above b fs ≤ 1)
    → (h.at 0).c ≡ black
    → IsRbAbove 0 black fs
    → length fs + 3 ≤ fuel
    → BlackMended (keys (plug fs (node z key red leaf leaf))) (insert_red fuel h z)
unfolding insert_red
insert_red-BlackMended fuel h fs z key pos ek ep v out once nil rb f =
    let to_l : RbtNode → RbtNode = λ n. record n { l = nil_node } in
    let to_r : RbtNode → RbtNode = λ n. record n { r = nil_node } in
    let to_red : RbtNode → RbtNode = λ n. record n { c = red } in
    let h1 = update h z to_l in
    let h2 = update h1 z to_r in
    let h3 = update h2 z to_red in
    let cell : h3.at z ≡ to_red (to_r (to_l (h.at z))) =
      update_self h2 z to_red
      ∙ ap to_red (update_self h1 z to_r ∙ ap to_r (update_self h z to_l)) in
    let zero_apart : 0 ≢ z = λ e. omega arith in
    rb_insert_fixup-BlackMended fuel h3 fs z key 0 leaf leaf f
      record {
        below =
            (pos, cell ∙ ap₂ (λ i p. record { i = i; c = red; l = 0; r = 0; p = p }) ek ep, tt, tt);
        above =
            update-HoldsAbove h2 z to_red fs z out
              (update-HoldsAbove h1 z to_r fs z out (update-HoldsAbove h z to_l fs z out v));
        once = λ b. at_most b (once b) out;
        nil =
            ap (λ n. n.c)
              (update_other h2 to_red zero_apart
                ∙ update_other h1 to_r zero_apart
                ∙ update_other h to_l zero_apart)
            ∙ nil;
      }
      (refl, refl, refl, refl) rb
  where
    at_most :
        (b : ℕ)
        → count_above b fs ≤ 1
        → count_above z fs ≡ 0
        → one z b + 0 + 0 + count_above b fs ≤ 1
    at_most b o out = elim (compare_keys b z) [
      | inl lt ↦ let e : one z b ≡ 0 = one_other (λ q. omega arith) in omega arith
      | inr (inl gt) ↦ let e : one z b ≡ 0 = one_other (λ q. omega arith) in omega arith
      | inr (inr q) ↦
          let e = one_self q in
          let e' : count_above b fs ≡ 0 = ap (λ b. count_above b fs) q ∙ out in omega arith
    ]

-- insert_at below a node.
insert_at_left :
    (fuel : ℕ) (h : Rbt) (z b : ℕ)
    → 0 < b
    → insert_at fuel h z b minus_one ≡ insert_red fuel (set_l (set_p h z b) b z) z
unfolding insert_at
insert_at_left fuel h z b pos = rw (==_other {a = b} {b = 0} (λ e. omega arith)) refl

insert_at_right :
    (fuel : ℕ) (h : Rbt) (z b : ℕ)
    → 0 < b
    → insert_at fuel h z b 1 ≡ insert_red fuel (set_r (set_p h z b) b z) z
unfolding insert_at
insert_at_right fuel h z b pos = rw (==_other {a = b} {b = 0} (λ e. omega arith)) refl

pub insert_at_same :
    (fuel : ℕ) (h : Rbt) (z b : ℕ) → 0 < b → insert_at fuel h z b 0 ≡ some (set_p h z b)
unfolding insert_at
insert_at_same fuel h z b pos = rw (==_other {a = b} {b = 0} (λ e. omega arith)) refl

module _ (fuel : ℕ) (h : Rbt) (z key : ℕ) (pos : 0 < z) (ek : (h.at z).i ≡ key) where
  pub insert_at-BlackMended :
      (f : Frame) (fs : List Frame)
      → IsPlace h (f ∷ fs) leaf
      → count_above z (f ∷ fs) ≡ 0
      → IsRbAbove 0 black (f ∷ fs)
      → length (f ∷ fs) + 3 ≤ fuel
      → BlackMended
          (keys (plug (f ∷ fs) (node z key red leaf leaf)))
          (insert_at fuel h z (addr_of f) (side_of f))
  insert_at-BlackMended (is_left b k c r) fs v out rb lt =
      let to_p : RbtNode → RbtNode = λ n. record n { p = b } in
      let to_l : RbtNode → RbtNode = λ n. record n { l = z } in
      let h1 = update h z to_p in
      let (bpos, n, vr, vs) = update-HoldsAbove h z to_p (is_left b k c r ∷ fs) 0 out v.above in
      let o = v.once b in
      let here = one_self (refl {a = b}) in
      let apart : z ≢ b = one-apart {a = b} {b = z} (omega arith) in
      let cell = update_other h1 to_l apart ∙ update_self h z to_p in
      subst (BlackMended _) (sym (insert_at_left fuel h z b bpos)) (
        insert_red-BlackMended fuel (set_l h1 b z) (is_left b k c r ∷ fs) z key pos
          (ap (λ n. n.i) cell ∙ ek) (ap (λ n. n.p) cell)
          (
            bpos,
            update_self h1 b to_l ∙ ap to_l n,
            update-Holds h1 b to_l b r (omega arith) vr,
            update-HoldsAbove h1 b to_l fs b (omega arith) vs,
          )
          out (λ b'. let w = v.once b' in omega arith)
          (ap (λ n. n.c)
              (update_other h1 to_l (λ e. omega arith) ∙ update_other h to_p (λ e. omega arith))
            ∙ v.nil)
          rb lt)
  insert_at-BlackMended (is_right b k c l) fs v out rb lt =
      let to_p : RbtNode → RbtNode = λ n. record n { p = b } in
      let to_r : RbtNode → RbtNode = λ n. record n { r = z } in
      let h1 = update h z to_p in
      let (bpos, n, vl, vs) = update-HoldsAbove h z to_p (is_right b k c l ∷ fs) 0 out v.above in
      let o = v.once b in
      let here = one_self (refl {a = b}) in
      let apart : z ≢ b = one-apart {a = b} {b = z} (omega arith) in
      let cell = update_other h1 to_r apart ∙ update_self h z to_p in
      subst (BlackMended _) (sym (insert_at_right fuel h z b bpos)) (
        insert_red-BlackMended fuel (set_r h1 b z) (is_right b k c l ∷ fs) z key pos
          (ap (λ n. n.i) cell ∙ ek) (ap (λ n. n.p) cell)
          (
            bpos,
            update_self h1 b to_r ∙ ap to_r n,
            update-Holds h1 b to_r b l (omega arith) vl,
            update-HoldsAbove h1 b to_r fs b (omega arith) vs,
          )
          out (λ b'. let w = v.once b' in omega arith)
          (ap (λ n. n.c)
              (update_other h1 to_r (λ e. omega arith) ∙ update_other h to_p (λ e. omega arith))
            ∙ v.nil)
          rb lt)
