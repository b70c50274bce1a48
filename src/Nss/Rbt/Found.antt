-- ===== src/Nss/Rbt/Found.antt =====
-- Whether get_node_by_key of nss.c finds a key, and how many rounds it takes.
use somerubbish.Prelude.{
  ℕ, ◌+◌, ◌*◌, ◌^◌, ◌≤◌, ◌<◌, ◌≡◌, refl, ap, sym, ◌∙◌, subst, List, [], ◌∷◌, arith, Option, some,
  length, length-append, ◌⊎◌, inl, inr,
}
use somerubbish.Nss.Rbt.{red, Rbt, get_node_by_key}
use somerubbish.Nss.Rbt.Tree.{Tree, leaf, node, Frame, is_left, is_right, addr_of, plug, keys}
use somerubbish.Nss.Rbt.Order.{
  insert_key, AllAbove, IsSorted, compare_keys, insert_key_less, insert_key_more, insert_key_same,
}
use somerubbish.Nss.Rbt.Way.{side_of, Miss}
use somerubbish.Nss.Rbt.Locate.{get_node_at_nil, get_node_by_key-Located}
use somerubbish.Nss.Rbt.State.{IsRbt}
use somerubbish.Nss.Rbt.Depth.{depth-IsRbt}

abbrev pub IsIn : ℕ → List ℕ → Type 0
IsIn key [] = ⊥
IsIn key (x ∷ xs) = (x ≡ key) ⊎ IsIn key xs

AllAbove-IsIn : (x key : ℕ) (xs : List ℕ) → AllAbove x xs → IsIn key xs → x < key
AllAbove-IsIn x key [] v i = elim i [ ]
AllAbove-IsIn x key (y ∷ ys) (lt, v) (inl e) = omega arith
AllAbove-IsIn x key (y ∷ ys) (lt, v) (inr i) = AllAbove-IsIn x key ys v i

insert_key-known : (key : ℕ) (xs : List ℕ) → IsSorted xs → IsIn key xs → insert_key key xs ≡ xs
insert_key-known key [] v i = elim i [ ]
insert_key-known key (x ∷ xs) (a, v) (inl e) =
    subst (λ x. insert_key key (x ∷ xs) ≡ x ∷ xs) (sym e) (insert_key_same key xs)
insert_key-known key (x ∷ xs) (a, v) (inr i) =
    insert_key_more key x xs (AllAbove-IsIn x key xs a i)
    ∙ ap (λ ks. x ∷ ks) (insert_key-known key xs v i)

pub IsIn-insert_key : (key : ℕ) (xs : List ℕ) → IsIn key (insert_key key xs)
IsIn-insert_key key [] = inl refl
IsIn-insert_key key (x ∷ xs) = elim (compare_keys key x) [
  | inl lt ↦ subst (IsIn key) (sym (insert_key_less key x xs lt)) (inl refl)
  | inr (inl gt) ↦
      subst (IsIn key) (sym (insert_key_more key x xs gt)) (inr (IsIn-insert_key key xs))
  | inr (inr e) ↦
      subst (λ x. IsIn key (insert_key key (x ∷ xs))) e
        (subst (IsIn key) (sym (insert_key_same key xs)) (inl refl))
]

-- A tree in a place has as many keys more as its own.
length-plug :
    (fs : List Frame) (s t : Tree)
    → length (keys (plug fs s)) + length (keys t) ≡ length (keys (plug fs t)) + length (keys s)
length-plug [] s t = omega arith
length-plug (is_left a k c r ∷ fs) s t =
    let e = length-plug fs (node a k c s r) (node a k c t r) in
    let es = length-append (keys s) (k ∷ keys r) in
    let et = length-append (keys t) (k ∷ keys r) in omega arith
length-plug (is_right a k c l ∷ fs) s t =
    let e = length-plug fs (node a k c l s) (node a k c l t) in
    let es = length-append (keys l) (k ∷ keys s) in
    let et = length-append (keys l) (k ∷ keys t) in omega arith

-- A key with a free place is not in the tree.
pub Miss-absent :
    {h : Rbt} {key d : ℕ} {o : Option (ℕ × ℕ)} (t : Tree)
    → IsSorted (keys t)
    → Miss h t key d (insert_key key (keys t)) o
    → IsIn key (keys t)
    → ⊥
Miss-absent {key = key} t sorted miss i =
    let fs = miss.frame ∷ miss.frames in
    let new = node 0 key red leaf leaf in
    let e : length (keys (plug fs new)) ≡ length (keys t) =
      ap length (miss.fits new refl ∙ insert_key-known key (keys t) sorted i) in
    let e' : length (keys (plug fs leaf)) ≡ length (keys t) =
      ap (λ t. length (keys t)) miss.is_in in
    let e'' = length-plug fs new leaf in omega arith

pub side_pos : (f : Frame) → 0 < side_of f
side_pos (is_left a k c r) = omega arith
side_pos (is_right a k c l) = omega arith

-- The node with the key and 0; or NIL_NODE or a side, and the key is not there.
abbrev pub Finds : (h : Rbt) (key : ℕ) (ks : List ℕ) (a d : ℕ) → Type 0
Finds h key ks a d =
    ((0 < a) × (d ≡ 0) × ((h.at a).i ≡ key) × IsIn key ks)
    ⊎ (((a ≡ 0) ⊎ (0 < d)) × (IsIn key ks → ⊥))

-- A search of a tree of fewer than 2 ^ (m + 1) - 1 keys ends within 2 * m rounds, and for the empty
-- tree at once. It finds the key when the tree has it, and only then.
pub get_node_by_key-Finds :
    (fuel m : ℕ) (h : Rbt) (key : ℕ) (t : Tree)
    → IsRbt h t
    → length (keys t) + 1 < 2 ^ (m + 1)
    → 2 * m ≤ fuel
    → (a : ℕ) × (d : ℕ) × (get_node_by_key fuel h key ≡ some (a, d)) × Finds h key (keys t) a d
get_node_by_key-Finds fuel m h key leaf v few lt =
    (0, 0, get_node_at_nil fuel h key v.place.above, inr (inl refl, λ i. i))
get_node_by_key-Finds fuel m h key (node a k c l r) v few lt =
    let t = node a k c l r in
    let d = depth-IsRbt h t m v few in
    elim (get_node_by_key-Located fuel h key a k v.height c l r (omega arith) v.place v.rb v.top
      v.sorted) [
        | inl hit ↦ (
          hit.at_node,
          0,
          hit.found,
          inl (
            hit.not_nil,
            refl,
            hit.key_there,
            subst (IsIn key) hit.known (IsIn-insert_key key (keys t)),
          ),
        )
        | inr miss ↦ (
          addr_of miss.frame,
          side_of miss.frame,
          miss.found,
          inr (inr (side_pos miss.frame), Miss-absent t v.sorted miss),
        )
      ]
