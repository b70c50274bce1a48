-- ===== src/Nss/Rbt/Delete/Rekey.antt =====
-- The write of a key in rb_delete of nss.c, to the node above a place that keeps its other child.
use somerubbish.Prelude.{
  ℕ, suc, ◌≤◌, ◌<◌, ◌≡◌, ◌≢◌, refl, ap, sym, subst, ◌∙◌, List, [], ◌∷◌, ◌++◌, arith,
}
use somerubbish.Nss.Rbt.{Color, red, black, RbtNode, Rbt}
use somerubbish.Nss.Rbt.Tree.{
  Tree, leaf, node, Frame, is_left, is_right, root_of, parent_of, Holds, HoldsAbove, one_self,
  count_above,
}
use somerubbish.Nss.Rbt.Write.{update_self, update_other, update-Holds, update-HoldsAbove}
use somerubbish.Nss.Rbt.Balance.{IsRbAbove}
use somerubbish.Nss.Rbt.Delete.{set_i}
use somerubbish.Nss.Rbt.Delete.Gap.{Linked, IsGap}

module _ (z k k' : ℕ) (c : Color) (l : Tree) (fs : List Frame) where
  abbrev pub with_key : ℕ → List Frame → List Frame
  with_key q steps = steps ++ is_right z q c l ∷ fs

  parent_of-rekey :
      (steps : List Frame) → parent_of (with_key k steps) ≡ parent_of (with_key k' steps)
  parent_of-rekey [] = refl
  parent_of-rekey (f ∷ steps) = refl

  count_above-rekey :
      (b : ℕ) (steps : List Frame)
      → count_above b (with_key k steps) ≡ count_above b (with_key k' steps)
  count_above-rekey b [] = refl
  count_above-rekey b (is_left a ka ca r ∷ steps) = let e = count_above-rekey b steps in omega arith
  count_above-rekey b (is_right a ka ca r ∷ steps) =
      let e = count_above-rekey b steps in omega arith

  there : (steps : List Frame) → 0 < count_above z (with_key k steps)
  there [] = let e = one_self (refl {a = z}) in omega arith
  there (is_left a ka ca r ∷ steps) = let m = there steps in omega arith
  there (is_right a ka ca r ∷ steps) = let m = there steps in omega arith

  pub IsRbAbove-rekey :
      (n : ℕ) (c' : Color) (steps : List Frame)
      → IsRbAbove n c' (with_key k steps)
      → IsRbAbove n c' (with_key k' steps)
  IsRbAbove-rekey n c' [] w = swap c w
    where
      swap :
          (c : Color)
          → IsRbAbove n c' (is_right z k c l ∷ fs)
          → IsRbAbove n c' (is_right z k' c l ∷ fs)
      swap red w = w
      swap black w = w
  IsRbAbove-rekey n c' (is_left a ka red r ∷ steps) (e, er, vr, w) =
      (e, er, vr, IsRbAbove-rekey n red steps w)
  IsRbAbove-rekey n c' (is_left a ka black r ∷ steps) (vr, w) =
      (vr, IsRbAbove-rekey (suc n) black steps w)
  IsRbAbove-rekey n c' (is_right a ka red r ∷ steps) (e, er, vr, w) =
      (e, er, vr, IsRbAbove-rekey n red steps w)
  IsRbAbove-rekey n c' (is_right a ka black r ∷ steps) (vr, w) =
      (vr, IsRbAbove-rekey (suc n) black steps w)

  module _ (h : Rbt) where
    HoldsAbove-rekey :
        (steps : List Frame) (a : ℕ)
        → count_above z (with_key k steps) ≤ 1
        → HoldsAbove h (with_key k steps) a
        → HoldsAbove (set_i h z k') (with_key k' steps) a
    HoldsAbove-rekey [] a once (pos, n, vl, vs) =
        let here = one_self (refl {a = z}) in
        let f : RbtNode → RbtNode = λ n. record n { i = k' } in
        (
          pos,
          update_self h z f ∙ ap f n,
          update-Holds h z f z l (omega arith) vl,
          update-HoldsAbove h z f fs z (omega arith) vs,
        )
    HoldsAbove-rekey (is_left b kb cb r ∷ steps) a once (pos, n, vr, vs) =
        let m = there steps in
        let f : RbtNode → RbtNode = λ n. record n { i = k' } in
        (
          pos,
          update_other h f (λ e. let q = one_self (sym e) in omega arith)
              ∙ n
              ∙ ap (λ p. record { i = kb; c = cb; l = a; r = root_of r; p = p })
                  (parent_of-rekey steps),
          update-Holds h z f b r (omega arith) vr,
          HoldsAbove-rekey steps b (omega arith) vs,
        )
    HoldsAbove-rekey (is_right b kb cb r ∷ steps) a once (pos, n, vr, vs) =
        let m = there steps in
        let f : RbtNode → RbtNode = λ n. record n { i = k' } in
        (
          pos,
          update_other h f (λ e. let q = one_self (sym e) in omega arith)
              ∙ n
              ∙ ap (λ p. record { i = kb; c = cb; l = root_of r; r = a; p = p })
                  (parent_of-rekey steps),
          update-Holds h z f b r (omega arith) vr,
          HoldsAbove-rekey steps b (omega arith) vs,
        )

    Linked-rekey :
        (steps : List Frame) (t : Tree)
        → 0 ≢ z
        → Linked h (with_key k steps) t
        → Linked (set_i h z k') (with_key k' steps) t
    Linked-rekey steps leaf apart v =
        ap (λ n. n.p) (update_other h (λ n. record n { i = k' }) apart) ∙ v ∙ parent_of-rekey steps
    Linked-rekey steps (node a ka ca l r) apart v = tt

    pub set_i-IsGap :
        (steps : List Frame) (t : Tree)
        → 0 < z
        → IsGap h (with_key k steps) t
        → IsGap (set_i h z k') (with_key k' steps) t
    set_i-IsGap steps t pos v =
        let f : RbtNode → RbtNode = λ n. record n { i = k' } in
        let o = v.place.once z in
        let m = there steps in
        record {
          place = record {
            below =
                subst (λ p. Holds (set_i h z k') p t) (parent_of-rekey steps)
                  (update-Holds h z f _ t (omega arith) v.place.below);
            above = HoldsAbove-rekey steps (root_of t) (omega arith) v.place.above;
            once = λ b. let o' = v.place.once b in let e = count_above-rekey b steps in omega arith;
            nil = ap (λ n. n.c) (update_other h f (λ e. omega arith)) ∙ v.place.nil;
          };
          linked = Linked-rekey steps t (λ e. omega arith) v.linked;
        }
