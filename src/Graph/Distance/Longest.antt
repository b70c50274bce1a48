-- ===== src/Graph/Distance/Longest.antt =====
-- The results of get_max_distance of graph/MaxDistanceInTree.c. The distance of two nodes of a tree is
-- the length of the way between them.
use somerubbish.Prelude.{
  ℕ, zero, suc, ◌+◌, ◌≤◌, ◌<◌, ◌≡◌, max, ◌⊎◌, inl, inr, refl, Bool, true, false, List, [], ◌∷◌,
  arith, length, ap₂, ◌∙◌, sym, ap,
}
use somerubbish.Prelude.Int.{ℤ, pos, sub_ℕ, ◌+ℤ◌}
use somerubbish.Graph.Distance.{Node, null, node, imax, get_max_distance}

-- A node is named by the turns from the root to it: `true` is to the right.
abbrev pub IsNode : Node → List Bool → Type 0
IsNode null p = ⊥
IsNode (node l r) [] = Unit
IsNode (node l r) (false ∷ p) = IsNode l p
IsNode (node l r) (true ∷ p) = IsNode r p

-- The number of links between two nodes: up to where their ways part, and down.
abbrev pub distance : List Bool → List Bool → ℕ
distance [] q = length q
distance (a ∷ p) [] = suc (length p)
distance (false ∷ p) (false ∷ q) = distance p q
distance (false ∷ p) (true ∷ q) = suc (length p) + suc (length q)
distance (true ∷ p) (false ∷ q) = suc (length p) + suc (length q)
distance (true ∷ p) (true ∷ q) = distance p q

-- `d` is the longest distance of two nodes, and `e` the number of nodes on the longest way down.
record Measured (t : Node) (d e : ℕ) : Type 0 where
  deep : (p : List Bool) → IsNode t p → length p < e
  deepest : (e ≡ 0) ⊎ ((p : List Bool) × IsNode t p × (suc (length p) ≡ e))
  far : (p q : List Bool) → IsNode t p → IsNode t q → distance p q ≤ d
  farthest :
      (d ≡ 0) ⊎ ((p : List Bool) × (q : List Bool) × IsNode t p × IsNode t q × (distance p q ≡ d))

null-Measured : Measured null 0 0
null-Measured = record {
  deep = λ p x. elim x [ ];
  deepest = inl refl;
  far = λ p q x y. elim x [ ];
  farthest = inl refl;
}

module _ (l r : Node) (dl el dr er : ℕ) (ml : Measured l dl el) (mr : Measured r dr er) where
  abbrev new_d : ℕ
  new_d = max (max dl dr) (el + er)

  node_deep : (p : List Bool) → IsNode (node l r) p → length p < suc (max el er)
  node_deep [] x = omega arith
  node_deep (false ∷ p) x = omega (arith, ml.deep p x)
  node_deep (true ∷ p) x = omega (arith, mr.deep p x)

  node_far : (p q : List Bool) → IsNode (node l r) p → IsNode (node l r) q → distance p q ≤ new_d
  node_far [] [] x y = omega arith
  node_far [] (false ∷ q) x y = omega (arith, ml.deep q y)
  node_far [] (true ∷ q) x y = omega (arith, mr.deep q y)
  node_far (false ∷ p) [] x y = omega (arith, ml.deep p x)
  node_far (true ∷ p) [] x y = omega (arith, mr.deep p x)
  node_far (false ∷ p) (false ∷ q) x y = omega (arith, ml.far p q x y)
  node_far (true ∷ p) (true ∷ q) x y = omega (arith, mr.far p q x y)
  node_far (false ∷ p) (true ∷ q) x y = omega (arith, ml.deep p x, mr.deep q y)
  node_far (true ∷ p) (false ∷ q) x y = omega (arith, mr.deep p x, ml.deep q y)

  node_deepest : (p : List Bool) × IsNode (node l r) p × (suc (length p) ≡ suc (max el er))
  node_deepest = elim (larger el er) [
    | inl h ↦ elim ml.deepest [
      | inl z ↦ ([], tt, omega arith)
      | inr (p, x, e) ↦ (false ∷ p, x, omega arith)
    ]
    | inr h ↦ elim mr.deepest [
      | inl z ↦ ([], tt, omega arith)
      | inr (p, x, e) ↦ (true ∷ p, x, omega arith)
    ]
  ]
    where
      larger : (a b : ℕ) → (b ≤ a) ⊎ (a ≤ b)
      larger a b = omega arith

  -- Two nodes whose way leads through the root.
  through_root :
      (p : List Bool) × (q : List Bool) × IsNode (node l r) p
      × IsNode (node l r) q
      × (distance p q ≡ el + er)
  through_root = elim ml.deepest [
    | inl z ↦ elim mr.deepest [
      | inl z' ↦ ([], [], tt, tt, omega arith)
      | inr (q, y, e) ↦ ([], true ∷ q, tt, y, omega arith)
    ]
    | inr (p, x, e) ↦ elim mr.deepest [
      | inl z' ↦ (false ∷ p, [], x, tt, omega arith)
      | inr (q, y, e') ↦ (false ∷ p, true ∷ q, x, y, omega arith)
    ]
  ]

  node_farthest :
      (p : List Bool) × (q : List Bool) × IsNode (node l r) p
      × IsNode (node l r) q
      × (distance p q ≡ new_d)
  node_farthest = elim (largest dl dr (el + er)) [
    | inl h ↦ let (p, q, x, y, e) = through_root in (p, q, x, y, omega arith)
    | inr (inl h) ↦ elim ml.farthest [
      | inl z ↦ let (p, q, x, y, e) = through_root in (p, q, x, y, omega arith)
      | inr (p, q, x, y, e) ↦ (false ∷ p, false ∷ q, x, y, omega arith)
    ]
    | inr (inr h) ↦ elim mr.farthest [
      | inl z ↦ let (p, q, x, y, e) = through_root in (p, q, x, y, omega arith)
      | inr (p, q, x, y, e) ↦ (true ∷ p, true ∷ q, x, y, omega arith)
    ]
  ]
    where
      largest :
          (a b c : ℕ) → (max (max a b) c ≡ c) ⊎ ((max (max a b) c ≡ a) ⊎ (max (max a b) c ≡ b))
      largest a b c = omega arith

  node-Measured : Measured (node l r) new_d (suc (max el er))
  node-Measured = record {
    deep = node_deep;
    deepest = inr node_deepest;
    far = node_far;
    farthest = inr node_farthest;
  }

-- `d` is the longest distance of two nodes of the tree, and `e` the longest way down from the root.
pub record IsLongest (t : Node) (d e : ℕ) : Type 0 where
  pub deep : (p : List Bool) → IsNode t p → length p ≤ e
  pub deepest : (p : List Bool) × IsNode t p × (length p ≡ e)
  pub far : (p q : List Bool) → IsNode t p → IsNode t q → distance p q ≤ d
  pub farthest : (p : List Bool) × (q : List Bool) × IsNode t p × IsNode t q × (distance p q ≡ d)

-- What the code computes from the results for the children.
results-node :
    (dl el dr er : ℕ)
    → (imax (imax (pos dl) (pos dr)) (sub_ℕ el 1 +ℤ sub_ℕ er 1 +ℤ pos 2)
        ≡ pos (max (max dl dr) (el + er)))
      × (imax (sub_ℕ el 1 +ℤ pos 1) (sub_ℕ er 1 +ℤ pos 1) ≡ pos (max el er))
unfolding imax
results-node dl el dr er = (ground arith, ground arith)

sub_one : (n : ℕ) → sub_ℕ (suc n) 1 ≡ pos n
sub_one n = ground arith

-- The node's results from those of its children.
combine : ℤ × ℤ → ℤ × ℤ → ℤ × ℤ
combine (l_dis, l_dep) (r_dis, r_dep) =
    (imax (imax l_dis r_dis) (l_dep +ℤ r_dep +ℤ pos 2), imax (l_dep +ℤ pos 1) (r_dep +ℤ pos 1))

get_max_distance-node :
    (l r : Node) → get_max_distance (node l r) ≡ combine (get_max_distance l) (get_max_distance r)
unfolding get_max_distance combine
get_max_distance-node l r = refl

get_max_distance-null : get_max_distance null ≡ (pos 0, sub_ℕ 0 1)
unfolding get_max_distance
get_max_distance-null = refl

combine_measures :
    (dl el dr er : ℕ)
    → combine (pos dl, sub_ℕ el 1) (pos dr, sub_ℕ er 1)
      ≡ (pos (max (max dl dr) (el + er)), sub_ℕ (suc (max el er)) 1)
unfolding combine
combine_measures dl el dr er =
    let (a, b) = results-node dl el dr er in ap₂ (λ x y. (x, y)) a (b ∙ sym (sub_one (max el er)))

get_max_distance-Measured :
    (t : Node) → (d : ℕ) × (e : ℕ) × (get_max_distance t ≡ (pos d, sub_ℕ e 1)) × Measured t d e
get_max_distance-Measured null = (0, 0, get_max_distance-null, null-Measured)
get_max_distance-Measured (node l r) =
    let (dl, el, p, ml) = get_max_distance-Measured l in
    let (dr, er, q, mr) = get_max_distance-Measured r in
    (
      max (max dl dr) (el + er),
      suc (max el er),
      get_max_distance-node l r ∙ ap₂ combine p q ∙ combine_measures dl el dr er,
      node-Measured l r dl el dr er ml mr,
    )

-- On a tree that is not empty the code gives the longest distance of two nodes, and the length of
-- the longest way down from the root.
pub get_max_distance-IsLongest :
    (l r : Node)
    → (d : ℕ) × (e : ℕ) × (get_max_distance (node l r) ≡ (pos d, pos e)) × IsLongest (node l r) d e
get_max_distance-IsLongest l r =
    let (d, e, p, m) = get_max_distance-Measured (node l r) in go d e p m
  where
    go :
        (d e : ℕ)
        → get_max_distance (node l r) ≡ (pos d, sub_ℕ e 1)
        → Measured (node l r) d e
        → (d : ℕ) × (e : ℕ) × (get_max_distance (node l r) ≡ (pos d, pos e))
          × IsLongest (node l r) d e
    go d zero p m = absurd (omega (arith, m.deep [] tt))
    go d (suc k) p m = (
      d,
      k,
      p ∙ ap (λ x. (pos d, x)) (sub_one k),
      record {
        deep = λ p x. omega (arith, m.deep p x);
        deepest = elim m.deepest [
          | inl z ↦ absurd (omega (arith, z))
          | inr (p, x, e) ↦ (p, x, omega arith)
        ];
        far = m.far;
        farthest = elim m.farthest [ inl z ↦ ([], [], tt, tt, omega (arith, z)) | inr x ↦ x ];
      },
    )
