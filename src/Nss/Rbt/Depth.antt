-- ===== src/Nss/Rbt/Depth.antt =====
-- How deep the red-black tree of nss.c is, so how many rounds a search takes.
use somerubbish.Prelude.{
  ℕ, ◌+◌, ◌*◌, ◌^◌, ◌≤◌, ◌<◌, ◌≡◌, ap, ◌∙◌, ◌∷◌, arith, length, length-append, inl, inr,
}
use native.Mathlib.Nat.{pow-le-pow_right}
use somerubbish.Nss.Rbt.Order.{compare_keys}
use somerubbish.Nss.Rbt.{Color, red, black, Rbt}
use somerubbish.Nss.Rbt.Tree.{Tree, leaf, node, keys}
use somerubbish.Nss.Rbt.Balance.{color_of, IsRb}
use somerubbish.Nss.Rbt.Way.{depth}
use somerubbish.Nss.Rbt.State.{IsRbt}

abbrev extra : Color → ℕ
extra red = 1
extra black = 0

depth-IsRb : (n : ℕ) (t : Tree) → IsRb n t → depth t ≤ 2 * n + extra (color_of t)
depth-IsRb n leaf v = omega arith
depth-IsRb n (node a k red l r) (el, er, vl, vr) =
    let dl = depth-IsRb n l vl in
    let dr = depth-IsRb n r vr in
    let xl : extra (color_of l) ≡ 0 = ap extra el in
    let xr : extra (color_of r) ≡ 0 = ap extra er in omega arith
depth-IsRb n (node a k black l r) (m, e, vl, vr) =
    let dl = depth-IsRb m l vl in
    let dr = depth-IsRb m r vr in
    let xl = extra_le (color_of l) in let xr = extra_le (color_of r) in omega arith
  where
    extra_le : (c : Color) → extra c ≤ 1
    extra_le red = omega arith
    extra_le black = omega arith

-- The least number of keys.
size-IsRb : (n : ℕ) (t : Tree) → IsRb n t → 2 ^ n ≤ length (keys t) + 1
size-IsRb n leaf v = let e : 2 ^ n ≡ 1 = ap (λ n. 2 ^ n) v in omega arith
size-IsRb n (node a k red l r) (el, er, vl, vr) =
    let sl = size-IsRb n l vl in let e = length-append (keys l) (k ∷ keys r) in omega arith
size-IsRb n (node a k black l r) (m, q, vl, vr) =
    let sl = size-IsRb m l vl in
    let sr = size-IsRb m r vr in
    let e = length-append (keys l) (k ∷ keys r) in
    let e' : 2 ^ n ≡ 2 * 2 ^ m = ap (λ n. 2 ^ n) q ∙ omega arith in omega arith

-- With fewer than 2 ^ m keys, and one of them for the end, no way down is longer than 2 * m.
pub depth-IsRbt :
    (h : Rbt) (t : Tree) (m : ℕ) → IsRbt h t → length (keys t) + 1 < 2 ^ (m + 1) → depth t ≤ 2 * m
depth-IsRbt h t m v few =
    let d = depth-IsRb v.height t v.rb in
    let s = size-IsRb v.height t v.rb in
    let top : extra (color_of t) ≡ 0 = ap extra v.top in
    elim (compare_keys m v.height) [
      | inl lt ↦
          let grow : 2 ^ (m + 1) ≤ 2 ^ v.height = pow-le-pow_right (omega arith) (omega arith) in
          absurd (omega arith)
      | inr (inl gt) ↦ omega arith
      | inr (inr e) ↦ omega arith
    ]
