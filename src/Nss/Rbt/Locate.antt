-- ===== src/Nss/Rbt/Locate.antt =====
-- get_node_by_key of nss.c on a tree at a place: it stands where the key is, or where it goes.
use somerubbish.Prelude.{
  ℕ, zero, suc, ◌≤◌, ◌<◌, ◌≡◌, refl, ap, sym, subst, ◌∙◌, List, [], ◌∷◌, ◌++◌, arith, Option, some,
  ◌==◌, if◌then◌else◌, inl, inr,
}
use somerubbish.Nss.Rbt.{Color, black, Rbt, nil_node, key_loop, get_node_by_key}
use somerubbish.Nss.Rbt.Tree.{Tree, leaf, node, Frame, is_left, is_right, root_of, IsPlace, keys}
use somerubbish.Nss.Rbt.Write.{==_other}
use somerubbish.Nss.Rbt.Place.{at_root, root_pos}
use somerubbish.Nss.Rbt.Balance.{IsRb}
use somerubbish.Nss.Rbt.Order.{
  insert_key, IsSorted, AllBelow, IsSorted-before, insert_key-right, insert_key_same, compare_keys,
}
use somerubbish.Nss.Rbt.Way.{
  depth, Located, loop_left, end_left, loop_right, end_right, end_here, Way, go_left, go_right,
  missed,
}

insert_known :
    (key k : ℕ) (xs ys : List ℕ)
    → key ≡ k
    → AllBelow k xs
    → insert_key key (xs ++ k ∷ ys) ≡ xs ++ k ∷ ys
insert_known key k xs ys e v =
    subst (λ q. insert_key q (xs ++ k ∷ ys) ≡ xs ++ k ∷ ys) (sym e)
      (insert_key-right k xs (k ∷ ys) v ∙ ap (λ ks. xs ++ ks) (insert_key_same k ys))

-- The rest of the loop finds the place in a smaller tree.
abbrev Again : (fuel : ℕ) (h : Rbt) (whole : Tree) (key d : ℕ) (new : List ℕ) → Type 0
Again fuel h whole key d new =
    (fs : List Frame) (a k : ℕ) (c : Color) (l r : Tree)
    → depth (node a k c l r) ≤ fuel
    → Way h whole key d new fs (node a k c l r)
    → Located h whole key d new (key_loop fuel h key a)

locate_left :
    (fuel : ℕ) (h : Rbt) (whole : Tree) (key d : ℕ) (new : List ℕ) (fs : List Frame) (a k : ℕ)
    (c : Color) (r t : Tree)
    → Again fuel h whole key d new
    → depth t ≤ fuel
    → Way h whole key d new (is_left a k c r ∷ fs) t
    → key < k
    → (h.at a).i ≡ k
    → (h.at a).l ≡ root_of t
    → Located h whole key d new (key_loop (suc fuel) h key a)
locate_left fuel h whole key d new fs a k c r leaf again f w lt ek e =
    missed h whole key d new (is_left a k c r) fs w (end_left fuel h key a k 0 0 ek lt e)
locate_left fuel h whole key d new fs a k c r (node a' k' c' l' r') again f w lt ek e =
    subst (Located h whole key d new)
      (sym (loop_left fuel h key a k a' 0 ek lt e (root_pos w.place)))
      (again (is_left a k c r ∷ fs) a' k' c' l' r' f w)

locate_right :
    (fuel : ℕ) (h : Rbt) (whole : Tree) (key d : ℕ) (new : List ℕ) (fs : List Frame) (a k : ℕ)
    (c : Color) (l t : Tree)
    → Again fuel h whole key d new
    → depth t ≤ fuel
    → Way h whole key d new (is_right a k c l ∷ fs) t
    → k < key
    → (h.at a).i ≡ k
    → (h.at a).r ≡ root_of t
    → Located h whole key d new (key_loop (suc fuel) h key a)
locate_right fuel h whole key d new fs a k c l leaf again f w lt ek e =
    missed h whole key d new (is_right a k c l) fs w (end_right fuel h key a k 0 0 ek lt e)
locate_right fuel h whole key d new fs a k c l (node a' k' c' l' r') again f w lt ek e =
    subst (Located h whole key d new)
      (sym (loop_right fuel h key a k 0 a' ek lt e (root_pos w.place)))
      (again (is_right a k c l ∷ fs) a' k' c' l' r' f w)

key_loop-Located :
    (fuel : ℕ) (h : Rbt) (whole : Tree) (key d : ℕ) (new : List ℕ) (fs : List Frame) (a k : ℕ)
    (c : Color) (l r : Tree)
    → depth (node a k c l r) ≤ fuel
    → Way h whole key d new fs (node a k c l r)
    → Located h whole key d new (key_loop fuel h key a)
key_loop-Located zero h whole key d new fs a k c l r f v = absurd (omega arith)
key_loop-Located (suc fuel) h whole key d new fs a k c l r f v =
    let ea = at_root v.place in
    let ek = ap (λ n. n.i) ea in
    let again = key_loop-Located fuel h whole key d new in
    elim (compare_keys key k) [
      | inl lt ↦
          locate_left fuel h whole key d new fs a k c r l again (omega arith)
            (go_left h whole key d new fs a k c l r lt v) lt ek (ap (λ n. n.l) ea)
      | inr (inl gt) ↦
          locate_right fuel h whole key d new fs a k c l r again (omega arith)
            (go_right h whole key d new fs a k c l r gt v) gt ek (ap (λ n. n.r) ea)
      | inr (inr e) ↦ inl record {
        at_node = a;
        frames = fs;
        its_key = k;
        color = c;
        left = l;
        right = r;
        way = v;
        same_key = e;
        not_nil = root_pos v.place;
        key_there = ek ∙ sym e;
        found = end_here fuel h key a k 0 0 ek e;
        known =
            sym (
              v.fits (node a k c l r) (
                sym (
                  insert_known key k (keys l) (keys r) e
                    (IsSorted-before (keys l) k (keys r) v.sorted))))
            ∙ ap keys v.is_in;
      }
    ]

pub get_node_at_nil :
    (fuel : ℕ) (h : Rbt) (key : ℕ) → h.root ≡ 0 → get_node_by_key fuel h key ≡ some (nil_node, 0)
unfolding get_node_by_key
get_node_at_nil fuel h key e =
    ap (λ b. if b == nil_node then some (nil_node, 0) else key_loop fuel h key h.root) e

get_node_at_root :
    (fuel : ℕ) (h : Rbt) (key a : ℕ)
    → 0 < a
    → h.root ≡ a
    → get_node_by_key fuel h key ≡ key_loop fuel h key a
unfolding get_node_by_key
get_node_at_root fuel h key a pos e =
    let from : ℕ → Option (ℕ × ℕ) =
      λ b. if b == nil_node then some (nil_node, 0) else key_loop fuel h key b in
    ap from e ∙ rw (==_other {a = a} {b = 0} (λ e. omega arith)) refl

-- On a balanced, sorted tree with a node, with fuel for its depth, get_node_by_key finds the node
-- with the key and 0, or a node with a free place where the key goes, and its side.
pub get_node_by_key-Located :
    (fuel : ℕ) (h : Rbt) (key a k n : ℕ) (c : Color) (l r : Tree)
    → depth (node a k c l r) ≤ fuel
    → IsPlace h [] (node a k c l r)
    → IsRb n (node a k c l r)
    → c ≡ black
    → IsSorted (keys (node a k c l r))
    → Located h
        (node a k c l r)
        key
        (depth (node a k c l r))
        (insert_key key (keys (node a k c l r)))
        (get_node_by_key fuel h key)
get_node_by_key-Located fuel h key a k n c l r f v rb e s =
    let t = node a k c l r in
    subst (Located h t key (depth t) (insert_key key (keys t)))
      (sym (get_node_at_root fuel h key a (root_pos v) v.above))
      (key_loop-Located fuel h t key (depth t) (insert_key key (keys t)) [] a k c l r f record {
        place = v;
        is_in = refl;
        deep = omega arith;
        height = n;
        rb = rb;
        rb_above = e;
        sorted = s;
        fits = λ s q. q;
      })
