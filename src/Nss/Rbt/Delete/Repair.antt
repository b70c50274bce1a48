-- ===== src/Nss/Rbt/Delete/Repair.antt =====
-- rb_delete of nss.c once the node is unlinked: the repair, when the node was black.
use somerubbish.Prelude.{
  ℕ, suc, ◌+◌, ◌≤◌, ◌≡◌, refl, ap, sym, subst, ◌∙◌, Bool, List, [], length, Option, some, ◌==◌,
  if◌then◌else◌, ◌>>=◌,
}
use somerubbish.Nss.Rbt.{Color, red, black, is_red, Rbt, nil_node}
use somerubbish.Nss.Rbt.Tree.{Tree, Frame, root_of, plug, IsPlace, keys}
use somerubbish.Nss.Rbt.Write.{==_self, ==_other}
use somerubbish.Nss.Rbt.Balance.{color_of, IsRb, IsRbAbove, plug-IsRb}
use somerubbish.Nss.Rbt.Fixup.{up_all}
use somerubbish.Nss.Rbt.Delete.{set_i, rb_delete_fixup, unlink, delete_node}
use somerubbish.Nss.Rbt.Delete.Gap.{IsGap}
use somerubbish.Nss.Rbt.Delete.Ends.{plug-black, weaken}
use somerubbish.Nss.Rbt.Delete.Loop.{rb_delete_fixup-BlackMended}

-- The deletion ends with a balanced tree of the keys and the node that is out.
pub record Deleted (ks : List ℕ) (y : ℕ) (o : Option (Rbt × ℕ)) : Type 0 where
  pub memory : Rbt
  pub tree : Tree
  pub ends : o ≡ some (memory, y)
  pub holds : IsPlace memory [] tree
  pub height : ℕ
  pub rb : IsRb height tree
  pub top : color_of tree ≡ black
  pub same : keys tree ≡ ks

abbrev pub repair : (fuel : ℕ) → Rbt → (y x : ℕ) → Option (Rbt × ℕ)
repair fuel t y x =
    if is_red (t.at y).c then some (t, y) else rb_delete_fixup fuel t x >>= (λ t3. some (t3, y))

module _ (fuel : ℕ) (h : Rbt) (z y : ℕ) {x : ℕ}
    (e : (if (h.at y).l == nil_node then (h.at y).r else (h.at y).l) ≡ x) where
  abbrev after_unlink : ℕ → Bool → Option (Rbt × ℕ)
  after_unlink x b =
      let t1 = unlink h y x in repair fuel (if b then t1 else set_i t1 z (t1.at y).i) y x

  pub delete_node_at : y ≡ z → delete_node fuel h z y ≡ repair fuel (unlink h y x) y x
  unfolding delete_node
  delete_node_at q =
      ap (λ x. after_unlink x (y == z)) e
      ∙ ap (after_unlink x) (ap (λ a. y == a) (sym q) ∙ ==_self y)

  pub delete_node_next :
      {i : ℕ}
      → (y ≡ z → ⊥)
      → ((unlink h y x).at y).i ≡ i
      → delete_node fuel h z y ≡ repair fuel (set_i (unlink h y x) z i) y x
  unfolding delete_node
  delete_node_next n q =
      ap (λ x. after_unlink x (y == z)) e
      ∙ ap (after_unlink x) (==_other n)
      ∙ ap (λ i. repair fuel (set_i (unlink h y x) z i) y x) q

-- What stays of the node's balance.
abbrev pub Rest : (n : ℕ) → Color → Tree → Type 0
Rest n red t = (color_of t ≡ black) × IsRb n t
Rest n black t = (m : ℕ) × (n ≡ suc m) × IsRb m t

pub repair-Deleted :
    (fuel : ℕ) (h : Rbt) (fs : List Frame) (t : Tree) (y n : ℕ) (c : Color)
    → length fs + 4 ≤ fuel
    → IsGap h fs t
    → (h.at y).c ≡ c
    → Rest n c t
    → IsRbAbove n c fs
    → Deleted (keys (plug fs t)) y (repair fuel h y (root_of t))
repair-Deleted fuel h fs t y n red lt v e (et, rt) w =
    let above = subst (λ c. IsRbAbove n c fs) (sym et) (weaken n red fs w) in
    let (m, rb) = plug-IsRb n fs t rt above in
    record {
      memory = h;
      tree = plug fs t;
      ends = rw e refl;
      holds = up_all h fs t v.place;
      height = m;
      rb = rb;
      top = plug-black n fs t above;
      same = refl;
    }
repair-Deleted fuel h fs t y n black lt v e (m, q, rt) w =
    let (mended, top) =
      rb_delete_fixup-BlackMended fuel h fs t m lt v rt (subst (λ n. IsRbAbove n black fs) q w) in
    record {
      memory = mended.memory;
      tree = mended.tree;
      ends = rw (e, mended.ends) refl;
      holds = mended.holds;
      height = mended.height;
      rb = mended.rb;
      top = top;
      same = mended.same;
    }
