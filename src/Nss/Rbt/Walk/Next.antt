-- ===== src/Nss/Rbt/Walk/Next.antt =====
-- rb_suc of nss.c finds the next key.
use somerubbish.Prelude.{
  ℕ, zero, suc, ◌+◌, ◌<◌, ◌≡◌, ◌≢◌, refl, ap, sym, ◌∙◌, List, [], ◌∷◌, ◌++◌, arith, some, length,
}
use somerubbish.Nss.Rbt.{Color, Rbt, nil_node}
use somerubbish.Nss.Rbt.Tree.{
  Tree, leaf, node, Frame, is_left, is_right, root_of, count, one_self, plug, keys, IsPlace,
}
use somerubbish.Nss.Rbt.Write.{==_other, ==_self, root-apart}
use somerubbish.Nss.Rbt.Place.{at_root, root_pos, up, down_left, down_right}
use somerubbish.Nss.Rbt.Way.{depth}
use somerubbish.Nss.Rbt.Walk.{rb_min, suc_loop, rb_suc}
use somerubbish.Nss.Rbt.Walk.Around.{before, after, keys-around}

-- NIL_NODE when there is no key, else the node with the first.
abbrev pub IsStart : Rbt → (b : ℕ) → List ℕ → Type 0
IsStart h b [] = b ≡ nil_node
IsStart h b (x ∷ xs) = (0 < b) × ((h.at b).i ≡ x)

IsStart-append :
    (h : Rbt) (b : ℕ) (xs ys : List ℕ) → 0 < b → IsStart h b xs → IsStart h b (xs ++ ys)
IsStart-append h b [] ys pos e = absurd (omega arith)
IsStart-append h b (x ∷ xs) ys pos v = v

pub rb_min_end : (fuel : ℕ) (h : Rbt) (z : ℕ) → (h.at z).l ≡ 0 → rb_min (suc fuel) h z ≡ some z
unfolding rb_min
rb_min_end fuel h z e = rw e refl

pub rb_min_down :
    (fuel : ℕ) (h : Rbt) (z y : ℕ)
    → (h.at z).l ≡ y
    → 0 < y
    → rb_min (suc fuel) h z ≡ rb_min fuel h y
unfolding rb_min
rb_min_down fuel h z y e pos = rw (e, ==_other {a = y} {b = 0} (λ e. omega arith)) refl

-- rb_min finds the first key of a subtree.
rb_min-IsStart :
    (fuel : ℕ) (h : Rbt) (fs : List Frame) (a k : ℕ) (c : Color) (l r : Tree)
    → depth l < fuel
    → IsPlace h fs (node a k c l r)
    → (b : ℕ) × (rb_min fuel h a ≡ some b) × (0 < b) × IsStart h b (keys (node a k c l r))
rb_min-IsStart zero h fs a k c l r f v = absurd (omega arith)
rb_min-IsStart (suc fuel) h fs a k c leaf r f v = (
  a,
  rb_min_end fuel h a (ap (λ n. n.l) (at_root v)),
  root_pos v,
  (root_pos v, ap (λ n. n.i) (at_root v)),
)
rb_min-IsStart (suc fuel) h fs a k c (node a' k' c' l' r') r f v =
    let w = down_left _ _ _ _ _ _ _ v in
    let (b, e, pos, s) =
      rb_min-IsStart fuel h (is_left a k c r ∷ fs) a' k' c' l' r' (omega arith) w in
    (
      b,
      rb_min_down fuel h a a' (ap (λ n. n.l) (at_root v)) (root_pos w) ∙ e,
      pos,
      IsStart-append h b (keys (node a' k' c' l' r')) (k ∷ keys r) pos s,
    )

module _ (fuel : ℕ) (h : Rbt) (x : ℕ) where
  suc_loop_top : (h.at x).p ≡ 0 → suc_loop (suc fuel) h x ≡ some 0
  unfolding suc_loop
  suc_loop_top e = rw e refl

  suc_loop_stop :
      (b y : ℕ) → (h.at x).p ≡ b → 0 < b → (h.at b).r ≡ y → x ≢ y → suc_loop (suc fuel) h x ≡ some b
  unfolding suc_loop
  suc_loop_stop b y e pos er n =
      rw (e, ==_other {a = b} {b = 0} (λ e. omega arith), er, ==_other n) refl

  suc_loop_up :
      (b : ℕ)
      → (h.at x).p ≡ b
      → 0 < b
      → (h.at b).r ≡ x
      → suc_loop (suc fuel) h x ≡ suc_loop fuel h b
  unfolding suc_loop
  suc_loop_up b e pos er = rw (e, ==_other {a = b} {b = 0} (λ e. omega arith), er, ==_self x) refl

-- The loop finds the first key after a subtree.
suc_loop-IsStart :
    (fuel : ℕ) (h : Rbt) (fs : List Frame) (a k : ℕ) (c : Color) (l r : Tree)
    → length fs < fuel
    → IsPlace h fs (node a k c l r)
    → (b : ℕ) × (suc_loop fuel h a ≡ some b) × IsStart h b (after fs)
suc_loop-IsStart zero h fs a k c l r f v = absurd (omega arith)
suc_loop-IsStart (suc fuel) h [] a k c l r f v =
    (0, suc_loop_top fuel h a (ap (λ n. n.p) (at_root v)), refl)
suc_loop-IsStart (suc fuel) h (is_left b k' c' r' ∷ fs) a k c l r f v =
    let w = up _ _ _ _ v in
    let o = v.once a in
    let here = one_self (refl {a = a}) in
    let out : count a r' ≡ 0 = omega arith in
    (
      b,
      suc_loop_stop fuel h a b (root_of r') (ap (λ n. n.p) (at_root v)) (root_pos w)
          (ap (λ n. n.r) (at_root w)) (λ e. root-apart r' (root_pos v) out (sym e)),
      (root_pos w, ap (λ n. n.i) (at_root w)),
    )
suc_loop-IsStart (suc fuel) h (is_right b k' c' l' ∷ fs) a k c l r f v =
    let w = up _ _ _ _ v in
    let (d, e, s) = suc_loop-IsStart fuel h fs b k' c' l' (node a k c l r) (omega arith) w in
    (
      d,
      suc_loop_up fuel h a b (ap (λ n. n.p) (at_root v)) (root_pos w) (ap (λ n. n.r) (at_root w))
          ∙ e,
      s,
    )

module _ (fuel : ℕ) (h : Rbt) (z : ℕ) (pos : 0 < z) where
  rb_suc_up : (h.at z).r ≡ 0 → rb_suc fuel h z ≡ suc_loop fuel h z
  unfolding rb_suc
  rb_suc_up e = rw (==_other {a = z} {b = 0} (λ e. omega arith), e) refl

  pub rb_suc_down : (y : ℕ) → (h.at z).r ≡ y → 0 < y → rb_suc fuel h z ≡ rb_min fuel h y
  unfolding rb_suc
  rb_suc_down y e ypos =
      rw
        (
          ==_other {a = z} {b = 0} (λ e. omega arith),
          e,
          ==_other {a = y} {b = 0} (λ e. omega arith),
        )
        refl

-- With fuel for the subtree and the frames above it, rb_suc ends at the node with the next key, or
-- at NIL_NODE when there is none.
pub rb_suc-IsStart :
    (fuel : ℕ) (h : Rbt) (fs : List Frame) (z k : ℕ) (c : Color) (l r : Tree)
    → length fs + depth r < fuel
    → IsPlace h fs (node z k c l r)
    → (b : ℕ) × (xs : List ℕ) × (ys : List ℕ) × (rb_suc fuel h z ≡ some b)
      × (keys (plug fs (node z k c l r)) ≡ xs ++ k ∷ ys)
      × IsStart h b ys
rb_suc-IsStart fuel h fs z k c l leaf f v =
    let (b, e, s) = suc_loop-IsStart fuel h fs z k c l leaf (omega arith) v in
    (
      b,
      before fs ++ keys l,
      after fs,
      rb_suc_up fuel h z (root_pos v) (ap (λ n. n.r) (at_root v)) ∙ e,
      keys-around fs z k c l leaf,
      s,
    )
rb_suc-IsStart fuel h fs z k c l (node a' k' c' l' r') f v =
    let w = down_right _ _ _ _ _ _ _ v in
    let (b, e, pos, s) =
      rb_min-IsStart fuel h (is_right z k c l ∷ fs) a' k' c' l' r' (omega arith) w in
    (
      b,
      before fs ++ keys l,
      keys (node a' k' c' l' r') ++ after fs,
      rb_suc_down fuel h z (root_pos v) a' (ap (λ n. n.r) (at_root v)) (root_pos w) ∙ e,
      keys-around fs z k c l (node a' k' c' l' r'),
      IsStart-append h b (keys (node a' k' c' l' r')) (after fs) pos s,
    )
