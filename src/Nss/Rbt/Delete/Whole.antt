-- ===== src/Nss/Rbt/Delete/Whole.antt =====
-- rb_delete of nss.c from the node that the search finds.
use somerubbish.Prelude.{
  ℕ, suc, ◌+◌, ◌≤◌, ◌<◌, ◌≡◌, refl, ap, sym, subst, ◌∙◌, List, [], ◌∷◌, ◌++◌, append_assoc,
  append-nil, length, length-append, arith, Option, some, ◌==◌, ◌>>=◌, Bool, true, false, ◌||◌,
}
use somerubbish.Nss.Rbt.{Color, Rbt, nil_node}
use somerubbish.Nss.Rbt.Tree.{
  Tree, leaf, node, Frame, is_left, is_right, root_of, plug, one_self, count_above, IsPlace, keys,
}
use somerubbish.Nss.Rbt.Write.{==_other}
use somerubbish.Nss.Rbt.Place.{at_root, root_pos, down_left, down_right}
use somerubbish.Nss.Rbt.Balance.{IsRb, IsRbAbove}
use somerubbish.Nss.Rbt.Way.{depth, down_right-IsRb}
use somerubbish.Nss.Rbt.Walk.{rb_suc}
use somerubbish.Nss.Rbt.Walk.Around.{before, after, keys-split}
use somerubbish.Nss.Rbt.Walk.Next.{rb_suc_down}
use somerubbish.Nss.Rbt.Delete.{node_to_delete, delete_node}
use somerubbish.Nss.Rbt.Delete.Least.{Least, rb_min-Least}
use somerubbish.Nss.Rbt.Delete.Repair.{Deleted}
use somerubbish.Nss.Rbt.Delete.Node.{no_left, no_right, by_next}

-- The keys around a node, without its own.
abbrev pub without : List Frame → (l r : Tree) → List ℕ
without fs l r = before fs ++ keys l ++ (keys r ++ after fs)

module _ (fuel : ℕ) (h : Rbt) (z : ℕ) where
  takes_leftless : (h.at z).l ≡ 0 → node_to_delete fuel h z ≡ some z
  unfolding node_to_delete
  takes_leftless e = rw e refl

  takes_rightless : (h.at z).r ≡ 0 → node_to_delete fuel h z ≡ some z
  unfolding node_to_delete
  takes_rightless e = rw (e, or_true ((h.at z).l == nil_node)) refl
    where
      or_true : (b : Bool) → (b || true) ≡ true
      or_true true = refl
      or_true false = refl

  takes_next :
      (a b : ℕ)
      → (h.at z).l ≡ a
      → (h.at z).r ≡ b
      → 0 < a
      → 0 < b
      → node_to_delete fuel h z ≡ rb_suc fuel h z
  unfolding node_to_delete
  takes_next a b ea eb apos bpos =
      rw
        (
          ea,
          eb,
          ==_other {a = a} {b = 0} (λ e. omega arith),
          ==_other {a = b} {b = 0} (λ e. omega arith),
        )
        refl

-- rb_delete from the node on.
abbrev pub removed : (fuel : ℕ) → Rbt → (z : ℕ) → Option (Rbt × ℕ)
removed fuel h z = node_to_delete fuel h z >>= (λ y. delete_node fuel h z y)

abbrev pub Removed : (ks : List ℕ) → Option (Rbt × ℕ) → Type 0
Removed ks o = (y : ℕ) × (0 < y) × Deleted ks y o

removed_by :
    (fuel : ℕ) (h : Rbt) (z : ℕ) (ks ks' : List ℕ) (y : ℕ)
    → 0 < y
    → node_to_delete fuel h z ≡ some y
    → ks ≡ ks'
    → Deleted ks y (delete_node fuel h z y)
    → Removed ks' (removed fuel h z)
removed_by fuel h z ks ks' y pos e q v = (
  y,
  pos,
  subst (Deleted ks' y) (sym (ap (λ o. o >>= (λ y. delete_node fuel h z y)) e))
      (subst (λ ks. Deleted ks y (delete_node fuel h z y)) q v),
)

-- Two places in a tree have two nodes.
steps-once :
    (z k : ℕ) (c : Color) (l : Tree) (fs steps : List Frame)
    → 0 < count_above z (steps ++ is_right z k c l ∷ fs)
steps-once z k c l fs [] = let e = one_self (refl {a = z}) in omega arith
steps-once z k c l fs (is_left a ka ca r ∷ steps) =
    let m = steps-once z k c l fs steps in omega arith
steps-once z k c l fs (is_right a ka ca r ∷ steps) =
    let m = steps-once z k c l fs steps in omega arith

module _ (fuel : ℕ) (h : Rbt) (fs : List Frame) (z k n : ℕ) (c : Color) where
  removed_next :
      (l r : Tree) {d : ℕ}
      → IsPlace h fs (node z k c l r)
      → 0 < root_of l
      → 0 < root_of r
      → length fs + suc d + 4 ≤ fuel
      → Least h fuel (root_of r) d (is_right z k c l ∷ fs) (λ gs. keys r ++ after gs)
      → Removed (without fs l r) (removed fuel h z)
  removed_next l r v lpos rpos lt least =
      let e = at_root v in
      let steps = least.steps in
      let gs = steps ++ is_right z least.key c l ∷ fs in
      let near = least.near in
      let len = length-append steps (is_right z k c l ∷ fs) in
      let apart : least.y ≡ z → ⊥ = λ q.
        let o = least.place.once z in
        let here = one_self (sym q) in let m = steps-once z k c l fs steps in omega arith in
      removed_by fuel h z (keys (plug gs least.right)) (without fs l r) least.y
        (root_pos least.place)
        (takes_next fuel h z (root_of l) (root_of r) (ap (λ n. n.l) e) (ap (λ n. n.r) e) lpos rpos
          ∙ rb_suc_down fuel h z (root_pos v) (root_of r) (ap (λ n. n.r) e) rpos
          ∙ least.found)
        (keys-split gs least.right
          ∙ append_assoc (before gs) (keys least.right) (after gs)
          ∙ ap (λ q. q ++ (keys least.right ++ after gs))
              (least.lefts (is_right z least.key c l ∷ fs)
                ∙ sym (append_assoc (before fs) (keys l) (least.key ∷ [])))
          ∙ append_assoc (before fs ++ keys l) (least.key ∷ []) (keys least.right ++ after gs)
          ∙ ap (λ q. before fs ++ keys l ++ q) (least.rest (is_right z least.key c l ∷ fs)))
        (by_next fuel h fs z k n c l steps least.y least.key least.height least.color least.right
          (root_pos v) apart (omega arith) least.place least.rb least.rb_above)

  -- With fuel for the tree around the node, its key goes out, and the tree is balanced again.
  pub removed-Removed :
      (l r : Tree)
      → length fs + depth (node z k c l r) + 4 ≤ fuel
      → IsPlace h fs (node z k c l r)
      → IsRb n (node z k c l r)
      → IsRbAbove n c fs
      → Removed (without fs l r) (removed fuel h z)
  removed-Removed leaf r lt v rb w =
      removed_by fuel h z (keys (plug fs r)) (without fs leaf r) z (root_pos v)
        (takes_leftless fuel h z (ap (λ n. n.l) (at_root v)))
        (keys-split fs r
          ∙ append_assoc (before fs) (keys r) (after fs)
          ∙ ap (λ q. q ++ (keys r ++ after fs)) (sym (append-nil (before fs))))
        (no_left fuel h fs z k n c r (omega arith) v rb w)
  removed-Removed (node a' k' c' l' r') leaf lt v rb w =
      let l = node a' k' c' l' r' in
      removed_by fuel h z (keys (plug fs l)) (without fs l leaf) z (root_pos v)
        (takes_rightless fuel h z (ap (λ n. n.r) (at_root v))) (keys-split fs l)
        (no_right fuel h fs z k n c l (root_pos (down_left _ _ _ _ _ _ _ v)) (omega arith) v rb w)
  removed-Removed (node a' k' c' l' r') (node a k'' c'' l'' r'') lt v rb w =
      let l = node a' k' c' l' r' in
      let r = node a k'' c'' l'' r'' in
      let v' = down_right _ _ _ _ _ _ _ v in
      let (m, rb', w') = down_right-IsRb n fs z k c l r rb w in
      removed_next l r v (root_pos (down_left _ _ _ _ _ _ _ v)) (root_pos v') (omega arith) (
        rb_min-Least fuel h [] (is_right z k c l ∷ fs) a k'' m (depth l'') c'' l'' r'' (omega arith)
          (omega arith) v' (λ gs. refl) rb' w')
