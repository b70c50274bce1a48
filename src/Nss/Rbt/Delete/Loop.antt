-- ===== src/Nss/Rbt/Delete/Loop.antt =====
-- rb_delete_fixup of nss.c, from a gap with one black node less.
use somerubbish.Prelude.{
  ℕ, zero, suc, ◌+◌, ◌≤◌, ◌≡◌, refl, subst, ◌∙◌, List, [], ◌∷◌, length, arith,
}
use somerubbish.Nss.Rbt.{Color, red, black, Rbt}
use somerubbish.Nss.Rbt.Tree.{Tree, leaf, node, Frame, is_left, is_right, root_of, plug, keys}
use somerubbish.Nss.Rbt.Place.{keys-plug}
use somerubbish.Nss.Rbt.Balance.{color_of, IsRb, IsRbAbove}
use somerubbish.Nss.Rbt.Loop.{BlackMended, red≢black}
use somerubbish.Nss.Rbt.Delete.{delete_loop, rb_delete_fixup}
use somerubbish.Nss.Rbt.Delete.Gap.{IsGap}
use somerubbish.Nss.Rbt.Delete.Ends.{Repaired, Up, above_left, above_right, red_end, top_end}
use somerubbish.Nss.Rbt.Delete.MendLeft.{black_left, black_left_below_red, red_left}
use somerubbish.Nss.Rbt.Delete.MendRight.{black_right, black_right_below_red, red_right}

-- The loop one frame up.
abbrev Again : (ks : List ℕ) (fuel : ℕ) (fs : List Frame) (n : ℕ) → Type 0
Again ks fuel fs n =
    (h : Rbt) (p kp : ℕ) (l r : Tree)
    → IsGap h fs (node p kp black l r)
    → IsRb n (node p kp black l r)
    → IsRbAbove (suc n) black fs
    → keys (plug fs (node p kp black l r)) ≡ ks
    → Repaired ks (delete_loop fuel h p)

module _ (ks : List ℕ) (fuel : ℕ) (h : Rbt) (fs : List Frame) (p kp n : ℕ) (t : Tree)
    (again : Again ks (suc (suc (suc fuel))) fs (suc n)) (et : color_of t ≡ black)
    (rt : IsRb n t) where
  same : (m : ℕ) → suc n ≡ suc m → m ≡ n
  same m q = omega arith

  at_left :
      (cp : Color) (b : Tree)
      → IsGap h (is_left p kp cp b ∷ fs) t
      → keys (plug fs (node p kp cp t b)) ≡ ks
      → IsRb (suc n) b
      → Up (suc n) cp fs
      → (color_of b ≡ red → cp ≡ black)
      → Repaired ks (delete_loop (suc (suc (suc (suc fuel)))) h (root_of t))
  at_left cp leaf v e rb up only = absurd (omega arith)
  at_left red (node w kw red wl wr) v e rb up only = absurd (red≢black (only refl))
  at_left black (node w kw red wl wr) v e (el, er, vl, vr) up only =
      red_left ks h fs p kp n t et rt up fuel w kw wl wr v e el er vl vr
  at_left red (node w kw black wl wr) v e (m, q, vl, vr) up only =
      black_left_below_red ks h fs p kp n t et rt up (suc fuel) w kw wl wr v e
        (subst (λ m. IsRb m wl) (same m q) vl) (subst (λ m. IsRb m wr) (same m q) vr)
  at_left black (node w kw black wl wr) v e (m, q, vl, vr) up only =
      let rl = subst (λ m. IsRb m wl) (same m q) vl in
      let rr = subst (λ m. IsRb m wr) (same m q) vr in
      black_left ks h fs p kp n black t et rt up (suc fuel) w kw wl wr v e rl rr (λ g v' en ef.
        again g p kp t (node w kw red wl wr) record { place = v'; linked = tt }
          (n, refl, rt, (en, ef, rl, rr)) up (keys-plug fs _ _ refl ∙ e))

  at_right :
      (cp : Color) (b : Tree)
      → IsGap h (is_right p kp cp b ∷ fs) t
      → keys (plug fs (node p kp cp b t)) ≡ ks
      → IsRb (suc n) b
      → Up (suc n) cp fs
      → (color_of b ≡ red → cp ≡ black)
      → Repaired ks (delete_loop (suc (suc (suc (suc fuel)))) h (root_of t))
  at_right cp leaf v e rb up only = absurd (omega arith)
  at_right red (node w kw red wl wr) v e rb up only = absurd (red≢black (only refl))
  at_right black (node w kw red wl wr) v e (el, er, vl, vr) up only =
      red_right ks h fs p kp n t et rt up fuel w kw wr wl v e er el vr vl
  at_right red (node w kw black wl wr) v e (m, q, vl, vr) up only =
      black_right_below_red ks h fs p kp n t et rt up (suc fuel) w kw wr wl v e
        (subst (λ m. IsRb m wr) (same m q) vr) (subst (λ m. IsRb m wl) (same m q) vl)
  at_right black (node w kw black wl wr) v e (m, q, vl, vr) up only =
      let rl = subst (λ m. IsRb m wl) (same m q) vl in
      let rr = subst (λ m. IsRb m wr) (same m q) vr in
      black_right ks h fs p kp n black t et rt up (suc fuel) w kw wr wl v e rr rl (λ g v' en ef.
        again g p kp (node w kw red wl wr) t record { place = v'; linked = tt }
          (n, refl, (ef, en, rl, rr), rt) up (keys-plug fs _ _ refl ∙ e))

-- The loop from every gap with frames for the fuel.
abbrev Repairs : (more : ℕ) → Type 0
Repairs more =
    (h : Rbt) (fs : List Frame) (t : Tree) (n : ℕ) (ks : List ℕ)
    → length fs ≤ more
    → IsGap h fs t
    → IsRb n t
    → IsRbAbove (suc n) black fs
    → keys (plug fs t) ≡ ks
    → Repaired ks (delete_loop (suc (suc (suc (suc more)))) h (root_of t))

one_frame :
    (more : ℕ)
    → Repairs more
    → (h : Rbt) (f : Frame) (fs : List Frame) (t : Tree) (n : ℕ) (ks : List ℕ) → length fs ≤ more
    → IsGap h (f ∷ fs) t
    → color_of t ≡ black
    → IsRb n t
    → IsRbAbove (suc n) black (f ∷ fs)
    → keys (plug (f ∷ fs) t) ≡ ks
    → Repaired ks (delete_loop (suc (suc (suc (suc (suc more))))) h (root_of t))
one_frame more rec h (is_left p kp cp b) fs t n ks f v et rt above e =
    let (rb, up, only) = above_left (suc n) p kp cp b fs above in
    at_left ks (suc more) h fs p kp n t
      (λ g p kp l r v' rb' up' e'. rec g fs (node p kp black l r) (suc n) ks f v' rb' up' e') et rt
      cp b v e rb up only
one_frame more rec h (is_right p kp cp b) fs t n ks f v et rt above e =
    let (rb, up, only) = above_right (suc n) p kp cp b fs above in
    at_right ks (suc more) h fs p kp n t
      (λ g p kp l r v' rb' up' e'. rec g fs (node p kp black l r) (suc n) ks f v' rb' up' e') et rt
      cp b v e rb up only

delete_loop-Repaired : (more : ℕ) → Repairs more
delete_loop-Repaired more h [] t n ks f v rt above e = top_end ks _ h t n v.place e rt
delete_loop-Repaired more h (f ∷ fs) (node a k red l r) n ks lt v (el, er, vl, vr) above e =
    red_end ks _ h (f ∷ fs) a k n l r v.place e vl vr above
delete_loop-Repaired zero h (f ∷ fs) t n ks lt v rt above e = absurd (omega arith)
delete_loop-Repaired (suc more) h (f ∷ fs) leaf n ks lt v rt above e =
    one_frame more (delete_loop-Repaired more) h f fs leaf n ks (omega arith) v refl rt above e
delete_loop-Repaired (suc more) h (f ∷ fs) (node a k black l r) n ks lt v rt above e =
    one_frame more (delete_loop-Repaired more) h f fs (node a k black l r) n ks (omega arith) v refl
      rt above e

-- From a place that lacks one black node, with fuel for the frames above it, rb_delete_fixup ends
-- with a balanced tree of the same keys and a black root.
pub rb_delete_fixup-BlackMended :
    (fuel : ℕ) (h : Rbt) (fs : List Frame) (t : Tree) (n : ℕ)
    → length fs + 4 ≤ fuel
    → IsGap h fs t
    → IsRb n t
    → IsRbAbove (suc n) black fs
    → BlackMended (keys (plug fs t)) (rb_delete_fixup fuel h (root_of t))
unfolding rb_delete_fixup
rb_delete_fixup-BlackMended (suc (suc (suc (suc more)))) h fs t n lt v rt above =
    delete_loop-Repaired more h fs t n (keys (plug fs t)) (omega arith) v rt above refl
rb_delete_fixup-BlackMended zero h fs t n lt v rt above = absurd (omega arith)
rb_delete_fixup-BlackMended (suc zero) h fs t n lt v rt above = absurd (omega arith)
rb_delete_fixup-BlackMended (suc (suc zero)) h fs t n lt v rt above = absurd (omega arith)
rb_delete_fixup-BlackMended (suc (suc (suc zero))) h fs t n lt v rt above = absurd (omega arith)
