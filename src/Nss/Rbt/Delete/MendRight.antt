-- ===== src/Nss/Rbt/Delete/MendRight.antt =====
-- The loop of rb_delete_fixup of nss.c at a gap with its brother on the left, to the end or to
-- the gap above.
use somerubbish.Prelude.{
  ℕ, suc, ◌≡◌, refl, ap, sym, subst, ◌∙◌, List, ◌∷◌, ◌++◌, append_assoc, arith,
}
use somerubbish.Nss.Rbt.{Color, red, black, Rbt}
use somerubbish.Nss.Rbt.Tree.{Tree, leaf, node, Frame, is_right, root_of, plug, IsPlace, keys}
use somerubbish.Nss.Rbt.Place.{keys-plug}
use somerubbish.Nss.Rbt.Balance.{color_of, IsRb, IsRbAbove}
use somerubbish.Nss.Rbt.Loop.{red≢black}
use somerubbish.Nss.Rbt.Delete.{delete_loop}
use somerubbish.Nss.Rbt.Delete.Gap.{IsGap}
use somerubbish.Nss.Rbt.Delete.CasesRight.{right_one, right_two, right_three, right_last}
use somerubbish.Nss.Rbt.Delete.Ends.{Repaired, Up, weaken, node_with, closed_end, red_end}

-- The loop from the parent, whose subtree has one black node less.
abbrev pub ContinuesRight :
    (ks : List ℕ) (fuel : ℕ) (fs : List Frame) (p kp : ℕ) (cp : Color) (w kw : ℕ) (wn wf t : Tree)
    → Type 0
ContinuesRight ks fuel fs p kp cp w kw wn wf t =
    (h : Rbt)
    → IsPlace h fs (node p kp cp (node w kw red wf wn) t)
    → color_of wn ≡ black
    → color_of wf ≡ black
    → Repaired ks (delete_loop fuel h p)

module _ (ks : List ℕ) (h : Rbt) (fs : List Frame) (p kp n : ℕ) (cp : Color) (t : Tree)
    (et : color_of t ≡ black) (rt : IsRb n t) (up : Up (suc n) cp fs) where
  -- The far child of the brother is red.
  last :
      (fuel : ℕ) (g : Rbt) (w kw b kb : ℕ) (bl br wn : Tree)
      → IsGap g (is_right p kp cp (node w kw black (node b kb red bl br) wn) ∷ fs) t
      → keys (plug fs (node p kp cp (node w kw black (node b kb red bl br) wn) t)) ≡ ks
      → IsRb n wn
      → IsRb n (node b kb red bl br)
      → Repaired ks (delete_loop (suc (suc fuel)) g (root_of t))
  last fuel g w kw b kb bl br wn v e rn (el, er, vl, vr) =
      let far = node b kb black bl br in
      let near : Tree = node p kp black wn t in
      let s : Tree = node w kw cp far near in
      let (m, rb, above) =
        node_with (suc n) w kw cp far near fs up refl refl (n, refl, vl, vr) (n, refl, rn, rt) in
      closed_end ks fs s m (right_last fuel g fs p kp cp w kw wn b kb bl br t v et)
        (keys-plug fs s (node p kp cp (node w kw black far wn) t)
            (sym (append_assoc (keys far) (kw ∷ keys wn) (kp ∷ keys t)))
          ∙ keys-plug fs _ _ refl
          ∙ e)
        rb above

  -- The near child is red, and the far one black.
  three :
      (fuel : ℕ) (w kw a ka : ℕ) (al ar wf : Tree)
      → IsGap h (is_right p kp cp (node w kw black wf (node a ka red al ar)) ∷ fs) t
      → keys (plug fs (node p kp cp (node w kw black wf (node a ka red al ar)) t)) ≡ ks
      → IsRb n (node a ka red al ar)
      → color_of wf ≡ black
      → IsRb n wf
      → Repaired ks (delete_loop (suc (suc (suc fuel))) h (root_of t))
  three fuel w kw a ka al ar wf v e (el, er, vl, vr) ef rf =
      let (g, q, v') = right_three (suc (suc fuel)) h fs p kp cp w kw a ka al ar wf t v et ef in
      subst (Repaired ks) (sym q) (
        last fuel g a ka w kw wf al ar v'
          (keys-plug fs _ _
              (ap (λ q. q ++ kp ∷ keys t) (append_assoc (keys wf) (kw ∷ keys al) (ka ∷ keys ar)))
            ∙ e)
          vr (ef, el, rf, vl))

  -- Both are black.
  two :
      (fuel : ℕ) (w kw : ℕ) (wn wf : Tree)
      → IsGap h (is_right p kp cp (node w kw black wf wn) ∷ fs) t
      → color_of wn ≡ black
      → color_of wf ≡ black
      → ContinuesRight ks fuel fs p kp cp w kw wn wf t
      → Repaired ks (delete_loop (suc fuel) h (root_of t))
  two fuel w kw wn wf v en ef go =
      let (g, q, v') = right_two fuel h fs p kp cp w kw wf wn t v et ef en in
      subst (Repaired ks) (sym q) (go g v' en ef)

  far_black :
      (fuel : ℕ) (w kw : ℕ) (wn wf : Tree)
      → IsGap h (is_right p kp cp (node w kw black wf wn) ∷ fs) t
      → keys (plug fs (node p kp cp (node w kw black wf wn) t)) ≡ ks
      → IsRb n wn
      → IsRb n wf
      → color_of wf ≡ black
      → ContinuesRight ks (suc (suc fuel)) fs p kp cp w kw wn wf t
      → Repaired ks (delete_loop (suc (suc (suc fuel))) h (root_of t))
  far_black fuel w kw leaf wf v e rn rf ef go = two (suc (suc fuel)) w kw leaf wf v refl ef go
  far_black fuel w kw (node a ka black al ar) wf v e rn rf ef go =
      two (suc (suc fuel)) w kw (node a ka black al ar) wf v refl ef go
  far_black fuel w kw (node a ka red al ar) wf v e rn rf ef go =
      three fuel w kw a ka al ar wf v e rn ef rf

  -- A black brother.
  pub black_right :
      (fuel : ℕ) (w kw : ℕ) (wn wf : Tree)
      → IsGap h (is_right p kp cp (node w kw black wf wn) ∷ fs) t
      → keys (plug fs (node p kp cp (node w kw black wf wn) t)) ≡ ks
      → IsRb n wn
      → IsRb n wf
      → ContinuesRight ks (suc (suc fuel)) fs p kp cp w kw wn wf t
      → Repaired ks (delete_loop (suc (suc (suc fuel))) h (root_of t))
  black_right fuel w kw wn leaf v e rn rf go = far_black fuel w kw wn leaf v e rn rf refl go
  black_right fuel w kw wn (node b kb black bl br) v e rn rf go =
      far_black fuel w kw wn (node b kb black bl br) v e rn rf refl go
  black_right fuel w kw wn (node b kb red bl br) v e rn rf go =
      last (suc fuel) h w kw b kb bl br wn v e rn rf

-- A red parent is painted black in the end.
red_parent :
    (ks : List ℕ) (fuel : ℕ) (fs : List Frame) (p kp w kw n : ℕ) (wn wf t : Tree)
    → keys (plug fs (node p kp red (node w kw black wf wn) t)) ≡ ks
    → IsRb n t
    → IsRb n wn
    → IsRb n wf
    → IsRbAbove (suc n) red fs
    → ContinuesRight ks (suc fuel) fs p kp red w kw wn wf t
red_parent ks fuel fs p kp w kw n wn wf t e rt rn rf up h v en ef =
    red_end ks fuel h fs p kp n (node w kw red wf wn) t v (keys-plug fs _ _ refl ∙ e)
      (ef, en, rf, rn) rt (weaken (suc n) red fs up)

-- A black brother below a red parent: the loop ends.
pub black_right_below_red :
    (ks : List ℕ) (h : Rbt) (fs : List Frame) (p kp n : ℕ) (t : Tree)
    → color_of t ≡ black
    → IsRb n t
    → IsRbAbove (suc n) red fs
    → (fuel : ℕ) (w kw : ℕ) (wn wf : Tree)
    → IsGap h (is_right p kp red (node w kw black wf wn) ∷ fs) t
    → keys (plug fs (node p kp red (node w kw black wf wn) t)) ≡ ks
    → IsRb n wn
    → IsRb n wf
    → Repaired ks (delete_loop (suc (suc (suc fuel))) h (root_of t))
black_right_below_red ks h fs p kp n t et rt up fuel w kw wn wf v e rn rf =
    black_right ks h fs p kp n red t et rt up fuel w kw wn wf v e rn rf
      (red_parent ks (suc fuel) fs p kp w kw n wn wf t e rt rn rf up)

-- A red brother, whose children are black nodes.
pub red_right :
    (ks : List ℕ) (h : Rbt) (fs : List Frame) (p kp n : ℕ) (t : Tree)
    → color_of t ≡ black
    → IsRb n t
    → IsRbAbove (suc (suc n)) black fs
    → (fuel : ℕ) (w kw : ℕ) (wn wf : Tree)
    → IsGap h (is_right p kp black (node w kw red wf wn) ∷ fs) t
    → keys (plug fs (node p kp black (node w kw red wf wn) t)) ≡ ks
    → color_of wn ≡ black
    → color_of wf ≡ black
    → IsRb (suc n) wn
    → IsRb (suc n) wf
    → Repaired ks (delete_loop (suc (suc (suc (suc fuel)))) h (root_of t))
red_right ks h fs p kp n t et rt up fuel w kw leaf wf v e en ef rn rf = absurd (omega arith)
red_right ks h fs p kp n t et rt up fuel w kw (node a ka red al ar) wf v e en ef rn rf =
    absurd (red≢black en)
red_right ks h fs p kp n t et rt up fuel w kw (node a ka black al ar) wf v e en ef (m, q, vl, vr)
      rf =
    let wn = node a ka black al ar in
    let (g, e', v') = right_one (suc (suc (suc fuel))) h fs p kp w kw wf wn t v et in
    subst (Repaired ks) (sym e') (
      black_right_below_red ks g (is_right w kw black wf ∷ fs) p kp n t et rt (rf, up) fuel a ka ar
        al v'
        (keys-plug fs (node w kw black wf (node p kp red wn t))
            (node p kp black (node w kw red wf wn) t)
            (sym (append_assoc (keys wf) (kw ∷ keys wn) (kp ∷ keys t)))
          ∙ e)
        (subst (λ m. IsRb m ar) same vr) (subst (λ m. IsRb m al) same vl))
  where
    same : m ≡ n
    same = omega arith
