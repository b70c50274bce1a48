-- ===== src/Nss/Rbt/Delete/RoundTrip.antt =====
-- rb_insert and then rb_delete of nss.c, of the same key.
use somerubbish.Prelude.{
  ℕ, ◌+◌, ◌*◌, ◌^◌, ◌≤◌, ◌<◌, ◌≡◌, refl, ap, sym, subst, ◌∙◌, ◌⊎◌, inl, inr, List, [], ◌∷◌, length,
  arith, Option, some,
}
use somerubbish.Nss.Rbt.{Rbt, nil_node, new_rbt_node, rb_insert}
use somerubbish.Nss.Rbt.Tree.{Tree, count, keys}
use somerubbish.Nss.Rbt.Write.{==_self}
use somerubbish.Nss.Rbt.Order.{
  insert_key, insert_key_less, insert_key_more, insert_key_same, compare_keys,
}
use somerubbish.Nss.Rbt.State.{IsRbt, rb_insert-IsRbt}
use somerubbish.Nss.Rbt.Depth.{depth-IsRbt}
use somerubbish.Nss.Rbt.Found.{IsIn, IsIn-insert_key}
use somerubbish.Nss.Rbt.Delete.{rb_delete}
use somerubbish.Nss.Rbt.Delete.Remove.{remove_key, remove_key_other}
use somerubbish.Nss.Rbt.Delete.Deletes.{Deletes, rb_delete-Deletes}

remove_key-insert_key :
    (key : ℕ) (xs : List ℕ) → (IsIn key xs → ⊥) → remove_key key (insert_key key xs) ≡ xs
remove_key-insert_key key [] out = rw (==_self key) refl
remove_key-insert_key key (x ∷ xs) out = elim (compare_keys key x) [
  | inl lt ↦ ap (remove_key key) (insert_key_less key x xs lt) ∙ rw (==_self key) refl
  | inr (inl gt) ↦
      ap (remove_key key) (insert_key_more key x xs gt)
      ∙ remove_key_other key x (insert_key key xs) (λ e. omega arith)
      ∙ ap (λ q. x ∷ q) (remove_key-insert_key key xs (λ i. out (inr i)))
  | inr (inr e) ↦ absurd (out (inl (sym e)))
]

length-insert_key : (key : ℕ) (xs : List ℕ) → length (insert_key key xs) ≤ length xs + 1
length-insert_key key [] = omega arith
length-insert_key key (x ∷ xs) = elim (compare_keys key x) [
  | inl lt ↦ let e = ap length (insert_key_less key x xs lt) in omega arith
  | inr (inl gt) ↦
      let e = ap length (insert_key_more key x xs gt) in
      let le = length-insert_key key xs in omega arith
  | inr (inr e) ↦
      let e' : length (insert_key key (x ∷ xs)) ≡ length (x ∷ xs) =
        subst (λ x. length (insert_key key (x ∷ xs)) ≡ length (x ∷ xs)) e
          (ap length (insert_key_same key xs)) in
      omega arith
]

known_out :
    {h : Rbt} {key : ℕ} {t : Tree} {o : Option (Rbt × ℕ)} (d : Deletes h t key o)
    → IsIn key (keys t)
    → 0 < d.out
known_out {h = h} {key = key} {t = t} d there = in_answer d.out d.memory d.answer
  where
    in_answer :
        (n : ℕ) (g : Rbt)
        → (IsIn key (keys t) × (0 < n)) ⊎ ((IsIn key (keys t) → ⊥) × (n ≡ nil_node) × (g ≡ h))
        → 0 < n
    in_answer n g (inl (i, pos)) = pos
    in_answer n g (inr (absent, nil, kept)) = absurd (absent there)

-- A new key goes in and out again: with fewer than 2 ^ (m + 1) - 2 keys in the tree and fuel for
-- 2 * m + 4 rounds, rb_insert of a key that the tree does not have ends, rb_delete of it ends with
-- a node, and the tree is balanced and has the keys it had.
pub rb_delete-rb_insert :
    (fuel m : ℕ) (h : Rbt) (key z : ℕ) (t : Tree)
    → IsRbt h t
    → 0 < z
    → count z t ≡ 0
    → (IsIn key (keys t) → ⊥)
    → length (keys t) + 2 < 2 ^ (m + 1)
    → 2 * m + 4 ≤ fuel
    → (g : Rbt) × (rb_insert fuel (new_rbt_node h key (some z)).0 z ≡ some g)
      × (g' : Rbt) × (y : ℕ) × (rb_delete fuel g key ≡ some (g', y))
      × (0 < y)
      × (s : Tree) × IsRbt g' s
      × (keys s ≡ keys t)
rb_delete-rb_insert fuel m h key z t v pos free out few lt =
    let shallow = depth-IsRbt h t m v (omega arith) in
    let ins = rb_insert-IsRbt fuel h key z t v pos free (omega arith) in
    let more = length-insert_key key (keys t) in
    let len = ap length ins.same in
    let shallow' = depth-IsRbt ins.memory ins.tree m ins.is_rbt (omega arith) in
    let del = rb_delete-Deletes fuel ins.memory key ins.tree ins.is_rbt (omega arith) in
    let there : IsIn key (keys ins.tree) =
      subst (IsIn key) (sym ins.same) (IsIn-insert_key key (keys t)) in
    (
      ins.memory,
      ins.ends,
      del.memory,
      del.out,
      del.ends,
      known_out del there,
      del.tree,
      del.is_rbt,
      del.same ∙ ap (remove_key key) ins.same ∙ remove_key-insert_key key (keys t) out,
    )
