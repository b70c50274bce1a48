-- ===== src/Nss/Rbt/Walk/Previous.antt =====
-- rb_pre of nss.c finds the previous key.
use somerubbish.Prelude.{
  ℕ, zero, suc, ◌+◌, ◌<◌, ◌≡◌, ◌≢◌, refl, ap, sym, ◌∙◌, subst, List, [], ◌∷◌, ◌++◌, arith, some,
  length, append_assoc, append-nil, ◌⊎◌, inl, inr,
}
use somerubbish.Nss.Rbt.{Color, Rbt, nil_node}
use somerubbish.Nss.Rbt.Tree.{
  Tree, leaf, node, Frame, is_left, is_right, root_of, count, one_self, plug, keys, IsPlace,
}
use somerubbish.Nss.Rbt.Write.{==_other, ==_self, root-apart}
use somerubbish.Nss.Rbt.Place.{at_root, root_pos, up, down_left, down_right}
use somerubbish.Nss.Rbt.Way.{depth}
use somerubbish.Nss.Rbt.Walk.{rb_max, pre_loop, rb_pre}
use somerubbish.Nss.Rbt.Walk.Around.{before, after, keys-around}

-- NIL_NODE when there is no key, else the node with the last.
abbrev pub IsEnd : Rbt → (b : ℕ) → List ℕ → Type 0
IsEnd h b xs =
    ((b ≡ nil_node) × (xs ≡ [])) ⊎ ((0 < b) × (ys : List ℕ) × (xs ≡ ys ++ (h.at b).i ∷ []))

rb_max_end : (fuel : ℕ) (h : Rbt) (z : ℕ) → (h.at z).r ≡ 0 → rb_max (suc fuel) h z ≡ some z
unfolding rb_max
rb_max_end fuel h z e = rw e refl

rb_max_down :
    (fuel : ℕ) (h : Rbt) (z y : ℕ)
    → (h.at z).r ≡ y
    → 0 < y
    → rb_max (suc fuel) h z ≡ rb_max fuel h y
unfolding rb_max
rb_max_down fuel h z y e pos = rw (e, ==_other {a = y} {b = 0} (λ e. omega arith)) refl

-- rb_max finds the last key of a subtree.
rb_max-IsEnd :
    (fuel : ℕ) (h : Rbt) (fs : List Frame) (a k : ℕ) (c : Color) (l r : Tree)
    → depth r < fuel
    → IsPlace h fs (node a k c l r)
    → (b : ℕ) × (ys : List ℕ) × (rb_max fuel h a ≡ some b)
      × (0 < b)
      × (keys (node a k c l r) ≡ ys ++ (h.at b).i ∷ [])
rb_max-IsEnd zero h fs a k c l r f v = absurd (omega arith)
rb_max-IsEnd (suc fuel) h fs a k c l leaf f v = (
  a,
  keys l,
  rb_max_end fuel h a (ap (λ n. n.r) (at_root v)),
  root_pos v,
  ap (λ k. keys l ++ k ∷ []) (sym (ap (λ n. n.i) (at_root v))),
)
rb_max-IsEnd (suc fuel) h fs a k c l (node a' k' c' l' r') f v =
    let w = down_right _ _ _ _ _ _ _ v in
    let (b, ys, e, pos, s) =
      rb_max-IsEnd fuel h (is_right a k c l ∷ fs) a' k' c' l' r' (omega arith) w in
    (
      b,
      keys l ++ k ∷ ys,
      rb_max_down fuel h a a' (ap (λ n. n.r) (at_root v)) (root_pos w) ∙ e,
      pos,
      ap (λ q. keys l ++ k ∷ q) s ∙ sym (append_assoc (keys l) (k ∷ ys) ((h.at b).i ∷ [])),
    )

module _ (fuel : ℕ) (h : Rbt) (x : ℕ) where
  pre_loop_top : (h.at x).p ≡ 0 → pre_loop (suc fuel) h x ≡ some 0
  unfolding pre_loop
  pre_loop_top e = rw e refl

  pre_loop_stop :
      (b y : ℕ) → (h.at x).p ≡ b → 0 < b → (h.at b).l ≡ y → x ≢ y → pre_loop (suc fuel) h x ≡ some b
  unfolding pre_loop
  pre_loop_stop b y e pos er n =
      rw (e, ==_other {a = b} {b = 0} (λ e. omega arith), er, ==_other n) refl

  pre_loop_up :
      (b : ℕ)
      → (h.at x).p ≡ b
      → 0 < b
      → (h.at b).l ≡ x
      → pre_loop (suc fuel) h x ≡ pre_loop fuel h b
  unfolding pre_loop
  pre_loop_up b e pos er = rw (e, ==_other {a = b} {b = 0} (λ e. omega arith), er, ==_self x) refl

-- The loop finds the last key before a subtree.
pre_loop-IsEnd :
    (fuel : ℕ) (h : Rbt) (fs : List Frame) (a k : ℕ) (c : Color) (l r : Tree)
    → length fs < fuel
    → IsPlace h fs (node a k c l r)
    → (b : ℕ) × (pre_loop fuel h a ≡ some b) × IsEnd h b (before fs)
pre_loop-IsEnd zero h fs a k c l r f v = absurd (omega arith)
pre_loop-IsEnd (suc fuel) h [] a k c l r f v =
    (0, pre_loop_top fuel h a (ap (λ n. n.p) (at_root v)), inl (refl, refl))
pre_loop-IsEnd (suc fuel) h (is_right b k' c' l' ∷ fs) a k c l r f v =
    let w = up _ _ _ _ v in
    let o = v.once a in
    let here = one_self (refl {a = a}) in
    let out : count a l' ≡ 0 = omega arith in
    (
      b,
      pre_loop_stop fuel h a b (root_of l') (ap (λ n. n.p) (at_root v)) (root_pos w)
          (ap (λ n. n.l) (at_root w)) (λ e. root-apart l' (root_pos v) out (sym e)),
      inr (
        root_pos w,
        before fs ++ keys l',
        sym (append_assoc (before fs) (keys l') (k' ∷ []))
            ∙ ap (λ k. before fs ++ keys l' ++ k ∷ []) (sym (ap (λ n. n.i) (at_root w))),
      ),
    )
pre_loop-IsEnd (suc fuel) h (is_left b k' c' r' ∷ fs) a k c l r f v =
    let w = up _ _ _ _ v in
    let (d, e, s) = pre_loop-IsEnd fuel h fs b k' c' (node a k c l r) r' (omega arith) w in
    (
      d,
      pre_loop_up fuel h a b (ap (λ n. n.p) (at_root v)) (root_pos w) (ap (λ n. n.l) (at_root w))
          ∙ e,
      s,
    )

module _ (fuel : ℕ) (h : Rbt) (z : ℕ) (pos : 0 < z) where
  rb_pre_up : (h.at z).l ≡ 0 → rb_pre fuel h z ≡ pre_loop fuel h z
  unfolding rb_pre
  rb_pre_up e = rw (==_other {a = z} {b = 0} (λ e. omega arith), e) refl

  rb_pre_down : (y : ℕ) → (h.at z).l ≡ y → 0 < y → rb_pre fuel h z ≡ rb_max fuel h y
  unfolding rb_pre
  rb_pre_down y e ypos =
      rw
        (
          ==_other {a = z} {b = 0} (λ e. omega arith),
          e,
          ==_other {a = y} {b = 0} (λ e. omega arith),
        )
        refl

-- With fuel for the subtree and the frames above it, rb_pre ends at the node with the previous key,
-- or at NIL_NODE when there is none.
pub rb_pre-IsEnd :
    (fuel : ℕ) (h : Rbt) (fs : List Frame) (z k : ℕ) (c : Color) (l r : Tree)
    → length fs + depth l < fuel
    → IsPlace h fs (node z k c l r)
    → (b : ℕ) × (xs : List ℕ) × (ys : List ℕ) × (rb_pre fuel h z ≡ some b)
      × (keys (plug fs (node z k c l r)) ≡ xs ++ k ∷ ys)
      × IsEnd h b xs
rb_pre-IsEnd fuel h fs z k c leaf r f v =
    let (b, e, s) = pre_loop-IsEnd fuel h fs z k c leaf r (omega arith) v in
    (
      b,
      before fs ++ [],
      keys r ++ after fs,
      rb_pre_up fuel h z (root_pos v) (ap (λ n. n.l) (at_root v)) ∙ e,
      keys-around fs z k c leaf r,
      subst (IsEnd h b) (sym (append-nil (before fs))) s,
    )
rb_pre-IsEnd fuel h fs z k c (node a' k' c' l' r') r f v =
    let w = down_left _ _ _ _ _ _ _ v in
    let (b, ys, e, pos, s) =
      rb_max-IsEnd fuel h (is_left z k c r ∷ fs) a' k' c' l' r' (omega arith) w in
    (
      b,
      before fs ++ keys (node a' k' c' l' r'),
      keys r ++ after fs,
      rb_pre_down fuel h z (root_pos v) a' (ap (λ n. n.l) (at_root v)) (root_pos w) ∙ e,
      keys-around fs z k c (node a' k' c' l' r') r,
      inr (
        pos,
        before fs ++ ys,
        ap (λ q. before fs ++ q) s ∙ sym (append_assoc (before fs) ys ((h.at b).i ∷ [])),
      ),
    )
