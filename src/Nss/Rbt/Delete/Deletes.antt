-- ===== src/Nss/Rbt/Delete/Deletes.antt =====
-- rb_delete of nss.c: a removal from a sorted list of keys, on a balanced tree.
use somerubbish.Prelude.{
  ℕ, ◌+◌, ◌≤◌, ◌<◌, ◌≡◌, refl, ap, sym, subst, ◌∙◌, ◌⊎◌, inl, inr, List, ◌∷◌, ◌++◌, arith, Option,
  some, ◌==◌, ◌||◌, Bool, true, false,
}
use somerubbish.Nss.Rbt.{Rbt, nil_node, get_node_by_key}
use somerubbish.Nss.Rbt.Tree.{Tree, leaf, node, addr_of, keys}
use somerubbish.Nss.Rbt.Write.{==_other}
use somerubbish.Nss.Rbt.Order.{IsSorted, IsSorted-before}
use somerubbish.Nss.Rbt.Way.{depth, side_of, Hit}
use somerubbish.Nss.Rbt.Locate.{get_node_at_nil, get_node_by_key-Located}
use somerubbish.Nss.Rbt.State.{IsRbt}
use somerubbish.Nss.Rbt.Found.{IsIn, Miss-absent, side_pos}
use somerubbish.Nss.Rbt.Walk.Around.{before, after, keys-around}
use somerubbish.Nss.Rbt.Delete.{rb_delete}
use somerubbish.Nss.Rbt.Delete.Remove.{
  remove_key, remove_key-append, remove_key_absent, IsSorted-remove, IsIn-append,
}
use somerubbish.Nss.Rbt.Delete.Whole.{removed, removed-Removed}

-- A call ends with a balanced tree without the key, and the node that is out of it; or with
-- NIL_NODE and the memory as it was, when the key is not there.
pub record Deletes (h : Rbt) (t : Tree) (key : ℕ) (o : Option (Rbt × ℕ)) : Type 0 where
  pub memory : Rbt
  pub tree : Tree
  pub out : ℕ
  pub ends : o ≡ some (memory, out)
  pub is_rbt : IsRbt memory tree
  pub same : keys tree ≡ remove_key key (keys t)
  pub answer :
      (IsIn key (keys t) × (0 < out)) ⊎ ((IsIn key (keys t) → ⊥) × (out ≡ nil_node) × (memory ≡ h))

module _ (fuel : ℕ) (h : Rbt) (key : ℕ) where
  delete_hit :
      (a : ℕ)
      → 0 < a
      → get_node_by_key fuel h key ≡ some (a, 0)
      → rb_delete fuel h key ≡ removed fuel h a
  unfolding rb_delete
  delete_hit a pos e = rw (e, ==_other {a = a} {b = 0} (λ q. omega arith)) refl

  delete_nil :
      (d : ℕ) → get_node_by_key fuel h key ≡ some (0, d) → rb_delete fuel h key ≡ some (h, nil_node)
  unfolding rb_delete
  delete_nil d e = rw e refl

  delete_miss :
      (a d : ℕ)
      → 0 < d
      → get_node_by_key fuel h key ≡ some (a, d)
      → rb_delete fuel h key ≡ some (h, nil_node)
  unfolding rb_delete
  delete_miss a d pos e =
      rw (e, ==_other {a = d} {b = 0} (λ q. omega arith), or_true (a == nil_node)) refl
    where
      or_true : (b : Bool) → (b || true) ≡ true
      or_true true = refl
      or_true false = refl

  absent-Deletes :
      (t : Tree)
      → IsRbt h t
      → (IsIn key (keys t) → ⊥)
      → rb_delete fuel h key ≡ some (h, nil_node)
      → Deletes h t key (rb_delete fuel h key)
  absent-Deletes t v out e = record {
    memory = h;
    tree = t;
    out = nil_node;
    ends = e;
    is_rbt = v;
    same = sym (remove_key_absent key (keys t) out);
    answer = inr (out, refl, refl);
  }

  -- The keys are those around the node that is found.
  found-Deletes :
      {d : ℕ} {new : List ℕ} {o : Option (ℕ × ℕ)} (t : Tree)
      → IsRbt h t
      → d + 4 ≤ fuel
      → (hit : Hit h t key d new o) → get_node_by_key fuel h key ≡ some (hit.at_node, 0)
      → Deletes h t key (rb_delete fuel h key)
  found-Deletes t v lt hit e =
      let fs = hit.frames in
      let w = hit.way in
      let deep = w.deep in
      let ahead = before fs ++ keys hit.left in
      let behind = keys hit.right ++ after fs in
      let split : keys t ≡ ahead ++ key ∷ behind =
        sym (ap keys w.is_in)
        ∙ keys-around fs hit.at_node hit.its_key hit.color hit.left hit.right
        ∙ ap (λ k. ahead ++ k ∷ behind) (sym hit.same_key) in
      let sorted = subst IsSorted split v.sorted in
      let (y, pos, d) =
        removed-Removed fuel h fs hit.at_node hit.its_key w.height hit.color hit.left hit.right
          (omega arith) w.place w.rb w.rb_above in
      record {
        memory = d.memory;
        tree = d.tree;
        out = y;
        ends = delete_hit hit.at_node hit.not_nil e ∙ d.ends;
        is_rbt = record {
          place = d.holds;
          height = d.height;
          rb = d.rb;
          top = d.top;
          sorted = subst IsSorted (sym d.same) (IsSorted-remove ahead key behind sorted);
        };
        same =
            d.same
            ∙ sym (
                ap (remove_key key) split
                ∙ remove_key-append key ahead behind (IsSorted-before ahead key behind sorted));
        answer = inl (subst (IsIn key) (sym split) (IsIn-append ahead key behind), pos);
      }

-- With the tree in memory and fuel for its depth, rb_delete of a key that the tree has ends with a
-- node and a balanced tree whose keys are those of the removal from the sorted list; of any other
-- key with NIL_NODE and the memory unchanged.
pub rb_delete-Deletes :
    (fuel : ℕ) (h : Rbt) (key : ℕ) (t : Tree)
    → IsRbt h t
    → depth t + 4 ≤ fuel
    → Deletes h t key (rb_delete fuel h key)
rb_delete-Deletes fuel h key leaf v lt =
    absent-Deletes fuel h key leaf v (λ i. i)
      (delete_nil fuel h key 0 (get_node_at_nil fuel h key v.place.above))
rb_delete-Deletes fuel h key (node a k c l r) v lt =
    let t = node a k c l r in
    elim (get_node_by_key-Located fuel h key a k v.height c l r (omega arith) v.place v.rb v.top
      v.sorted) [
        | inl hit ↦ found-Deletes fuel h key t v lt hit hit.found
        | inr miss ↦ absent-Deletes fuel h key t v (Miss-absent t v.sorted miss) (
            delete_miss fuel h key (addr_of miss.frame) (side_of miss.frame) (side_pos miss.frame)
              miss.found)
      ]
