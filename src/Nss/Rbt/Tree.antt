-- ===== src/Nss/Rbt/Tree.antt =====
-- What the nodes of the red-black tree of nss.c form: a tree with a place in it. A place is a
-- subtree and the frames above it, the nearest first.
use somerubbish.Prelude.{
  ℕ, ◌+◌, ◌≤◌, ◌<◌, ◌≡◌, ◌≢◌, refl, ◌∙◌, List, [], ◌∷◌, ◌++◌, arith, ◌==◌, if◌then◌else◌,
}
use somerubbish.Nss.Rbt.{Color, black, black, Rbt}

pub data Tree : Type 0 where
  leaf : Tree
  node : (a k : ℕ) (c : Color) (l r : Tree) → Tree

-- A node above a place, which is its left or its right child.
pub data Frame : Type 0 where
  is_left : (a k : ℕ) (c : Color) (r : Tree) → Frame
  is_right : (a k : ℕ) (c : Color) (l : Tree) → Frame

abbrev pub root_of : Tree → ℕ
root_of leaf = 0
root_of (node a k c l r) = a

abbrev pub addr_of : Frame → ℕ
addr_of (is_left a k c r) = a
addr_of (is_right a k c l) = a

abbrev pub parent_of : List Frame → ℕ
parent_of [] = 0
parent_of (f ∷ fs) = addr_of f

-- The tree below a frame, and the whole tree.
abbrev pub under : Frame → Tree → Tree
under (is_left a k c r) t = node a k c t r
under (is_right a k c l) t = node a k c l t

abbrev pub plug : List Frame → Tree → Tree
plug [] t = t
plug (f ∷ fs) t = plug fs (under f t)

-- The memory holds the tree, whose root has the parent `p`.
abbrev pub Holds : Rbt → (p : ℕ) → Tree → Type 0
Holds h p leaf = Unit
Holds h p (node a k c l r) =
    (0 < a)
    × (h.at a ≡ record { i = k; c = c; l = root_of l; r = root_of r; p = p })
    × Holds h a l
    × Holds h a r

-- The memory holds the frames above a subtree with its root at `a`.
abbrev pub HoldsAbove : Rbt → List Frame → (a : ℕ) → Type 0
HoldsAbove h [] a = h.root ≡ a
HoldsAbove h (is_left b k c r ∷ fs) a =
    (0 < b)
    × (h.at b ≡ record { i = k; c = c; l = a; r = root_of r; p = parent_of fs })
    × Holds h b r
    × HoldsAbove h fs b
HoldsAbove h (is_right b k c l ∷ fs) a =
    (0 < b)
    × (h.at b ≡ record { i = k; c = c; l = root_of l; r = a; p = parent_of fs })
    × Holds h b l
    × HoldsAbove h fs b

-- One for an address that is the other, else 0.
unfoldable pub one : ℕ → ℕ → ℕ
one a b = if a == b then 1 else 0

pub one_self : {a b : ℕ} → b ≡ a → one a b ≡ 1
unfolding one
one_self e = ground arith

pub one_other : {a b : ℕ} → b ≢ a → one a b ≡ 0
unfolding one
one_other n = ground arith

-- How often an address stands in a tree, and in the frames.
abbrev pub count : ℕ → Tree → ℕ
count b leaf = 0
count b (node a k c l r) = one a b + count b l + count b r

abbrev pub count_above : ℕ → List Frame → ℕ
count_above b [] = 0
count_above b (is_left a k c r ∷ fs) = one a b + count b r + count_above b fs
count_above b (is_right a k c l ∷ fs) = one a b + count b l + count_above b fs

-- The memory holds a tree, at a place, and NIL_NODE is black.
pub record IsPlace (h : Rbt) (fs : List Frame) (t : Tree) : Type 0 where
  pub below : Holds h (parent_of fs) t
  pub above : HoldsAbove h fs (root_of t)
  pub once : (b : ℕ) → count b t + count_above b fs ≤ 1
  pub nil : (h.at 0).c ≡ black

-- The keys in order.
abbrev pub keys : Tree → List ℕ
keys leaf = []
keys (node a k c l r) = keys l ++ k ∷ keys r

-- A change of the memory elsewhere.
pub Holds-cong :
    (h h' : Rbt) (p : ℕ) (t : Tree)
    → ((b : ℕ) → 0 < count b t → h'.at b ≡ h.at b)
    → Holds h p t
    → Holds h' p t
Holds-cong h h' p leaf e v = tt
Holds-cong h h' p (node a k c l r) e (pos, n, vl, vr) = (
  pos,
  e a (let q = one_self (refl {a = a}) in omega arith) ∙ n,
  Holds-cong h h' a l (λ b lt. e b (omega arith)) vl,
  Holds-cong h h' a r (λ b lt. e b (omega arith)) vr,
)

pub HoldsAbove-cong :
    (h h' : Rbt) (fs : List Frame) (a : ℕ)
    → h'.root ≡ h.root
    → ((b : ℕ) → 0 < count_above b fs → h'.at b ≡ h.at b)
    → HoldsAbove h fs a
    → HoldsAbove h' fs a
HoldsAbove-cong h h' [] a q e v = q ∙ v
HoldsAbove-cong h h' (is_left b k c r ∷ fs) a q e (pos, n, vr, vs) = (
  pos,
  e b (let q = one_self (refl {a = b}) in omega arith) ∙ n,
  Holds-cong h h' b r (λ b lt. e b (omega arith)) vr,
  HoldsAbove-cong h h' fs b q (λ b lt. e b (omega arith)) vs,
)
HoldsAbove-cong h h' (is_right b k c l ∷ fs) a q e (pos, n, vl, vs) = (
  pos,
  e b (let q = one_self (refl {a = b}) in omega arith) ∙ n,
  Holds-cong h h' b l (λ b lt. e b (omega arith)) vl,
  HoldsAbove-cong h h' fs b q (λ b lt. e b (omega arith)) vs,
)

-- NIL_NODE is not in a tree.
pub Holds-zero : (h : Rbt) (p : ℕ) (t : Tree) → Holds h p t → count 0 t ≡ 0
Holds-zero h p leaf v = refl
Holds-zero h p (node a k c l r) (pos, n, vl, vr) =
    let zl = Holds-zero h a l vl in
    let zr = Holds-zero h a r vr in
    let o : one a 0 ≡ 0 = one_other (λ e. omega arith) in omega arith

pub HoldsAbove-zero : (h : Rbt) (fs : List Frame) (a : ℕ) → HoldsAbove h fs a → count_above 0 fs ≡ 0
HoldsAbove-zero h [] a v = refl
HoldsAbove-zero h (is_left b k c r ∷ fs) a (pos, n, vr, vs) =
    let zr = Holds-zero h b r vr in
    let zs = HoldsAbove-zero h fs b vs in
    let o : one b 0 ≡ 0 = one_other (λ e. omega arith) in omega arith
HoldsAbove-zero h (is_right b k c l ∷ fs) a (pos, n, vl, vs) =
    let zl = Holds-zero h b l vl in
    let zs = HoldsAbove-zero h fs b vs in
    let o : one b 0 ≡ 0 = one_other (λ e. omega arith) in omega arith

pub count-plug :
    (b : ℕ) (fs : List Frame) (t : Tree) → count b (plug fs t) ≡ count b t + count_above b fs
count-plug b [] t = omega arith
count-plug b (is_left a k c r ∷ fs) t = let e = count-plug b fs (node a k c t r) in omega arith
count-plug b (is_right a k c l ∷ fs) t = let e = count-plug b fs (node a k c l t) in omega arith
