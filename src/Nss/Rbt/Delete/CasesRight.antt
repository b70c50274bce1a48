-- ===== src/Nss/Rbt/Delete/CasesRight.antt =====
-- The rounds of rb_delete_fixup of nss.c at a gap with its brother on the left.
use somerubbish.Prelude.{ℕ, suc, ◌≡◌, ◌≢◌, refl, ap, sym, subst, ◌∙◌, List, ◌∷◌, arith}
use somerubbish.Nss.Rbt.{Color, red, black, Rbt, set_c, left_rotate, right_rotate}
use somerubbish.Nss.Rbt.Tree.{Tree, node, Frame, is_left, is_right, root_of, one_self, IsPlace}
use somerubbish.Nss.Rbt.Place.{down_left, at_root, root_pos}
use somerubbish.Nss.Rbt.Write.{root-apart}
use somerubbish.Nss.Rbt.Balance.{color_of}
use somerubbish.Nss.Rbt.Round.{root-color}
use somerubbish.Nss.Rbt.Rotate.{Rotated}
use somerubbish.Nss.Rbt.Delete.{right_four, right_brother, delete_loop}
use somerubbish.Nss.Rbt.Delete.Gap.{
  IsGap, linked_parent, same-IsGap, start, ascend, descend_left, descend_right, paint, turn_left,
  turn_right, not_root,
}
use somerubbish.Nss.Rbt.Delete.Rounds.{
  Closed, delete_round_right, right_brother_red, right_brother_two, right_brother_three,
  right_brother_four, right_four_is, delete_loop_root, delete_loop_go,
}

module _ (h : Rbt) (fs : List Frame) (p kp : ℕ) (cp : Color) (w kw : ℕ) (cw : Color)
    (wl wr t : Tree) (v : IsGap h (is_right p kp cp (node w kw cw wl wr) ∷ fs) t)
    (et : color_of t ≡ black) where
  abbrev whole : Rotated h h fs (node p kp cp (node w kw cw wl wr) t)
  whole = ascend (start v.place)

  at_brother : IsPlace h (is_left p kp cp t ∷ fs) (node w kw cw wl wr)
  at_brother = down_left _ _ _ _ _ _ _ whole.place

  color_left : (h.at (root_of wl)).c ≡ color_of wl
  color_left = let (pos, e, vl, vr) = at_brother.below in root-color h w wl vl v.place.nil

  color_right : (h.at (root_of wr)).c ≡ color_of wr
  color_right = let (pos, e, vl, vr) = at_brother.below in root-color h w wr vr v.place.nil

  brother_apart : root_of t ≢ w
  brother_apart =
      let o = v.place.once w in
      let here = one_self (refl {a = w}) in root-apart t (root_pos at_brother) (omega arith)

  right_go :
      (fuel : ℕ) {h' : Rbt} {x' : ℕ}
      → right_brother h (root_of t) p w ≡ (h', x')
      → delete_loop (suc fuel) h (root_of t) ≡ delete_loop fuel h' x'
  right_go fuel e =
      delete_loop_go fuel h (root_of t) (not_root t v.place)
        (root-color h p t v.place.below v.place.nil ∙ et)
        (delete_round_right h (root_of t) p w (linked_parent t v) brother_apart
            (ap (λ n. n.l) (at_root whole.place)) (ap (λ n. n.r) (at_root whole.place))
          ∙ e)

-- A red brother: the rotation gives a black one.
pub right_one :
    (fuel : ℕ) (h : Rbt) (fs : List Frame) (p kp w kw : ℕ) (wl wr t : Tree)
    → IsGap h (is_right p kp black (node w kw red wl wr) ∷ fs) t
    → color_of t ≡ black
    → (h' : Rbt) × (delete_loop (suc fuel) h (root_of t) ≡ delete_loop fuel h' (root_of t))
      × IsGap h' (is_right p kp red wr ∷ is_right w kw black wl ∷ fs) t
right_one fuel h fs p kp w kw wl wr t v et = (
  right_rotate (set_c (set_c h w black) p red) p,
  right_go h fs p kp black w kw red wl wr t v et fuel (
      right_brother_red h (root_of t) p w
        (ap (λ n. n.c) (at_root (at_brother h fs p kp black w kw red wl wr t v et)))),
  same-IsGap v refl (
      descend_right (
        descend_right (
          turn_right (
            paint red (
              ascend
                (paint black (descend_left (whole h fs p kp black w kw red wl wr t v et)))))))),
)

-- A black brother with black children turns red, and the gap moves up.
pub right_two :
    (fuel : ℕ) (h : Rbt) (fs : List Frame) (p kp : ℕ) (cp : Color) (w kw : ℕ) (wl wr t : Tree)
    → IsGap h (is_right p kp cp (node w kw black wl wr) ∷ fs) t
    → color_of t ≡ black
    → color_of wl ≡ black
    → color_of wr ≡ black
    → (h' : Rbt) × (delete_loop (suc fuel) h (root_of t) ≡ delete_loop fuel h' p)
      × IsPlace h' fs (node p kp cp (node w kw red wl wr) t)
right_two fuel h fs p kp cp w kw wl wr t v et el er =
    let e = at_root (at_brother h fs p kp cp w kw black wl wr t v et) in
    (
      set_c h w red,
      right_go h fs p kp cp w kw black wl wr t v et fuel (
          right_brother_two h (root_of t) p w (root_of wl) (root_of wr) (ap (λ n. n.c) e)
            (ap (λ n. n.l) e) (ap (λ n. n.r) e)
            (color_left h fs p kp cp w kw black wl wr t v et ∙ el)
            (color_right h fs p kp cp w kw black wl wr t v et ∙ er)),
      (ascend (paint red (descend_left (whole h fs p kp cp w kw black wl wr t v et)))).place,
    )

-- Its far child is black and the near one red: the rotation gives a red far child.
pub right_three :
    (fuel : ℕ) (h : Rbt) (fs : List Frame) (p kp : ℕ) (cp : Color) (w kw a ka : ℕ)
    (al ar wl t : Tree)
    → IsGap h (is_right p kp cp (node w kw black wl (node a ka red al ar)) ∷ fs) t
    → color_of t ≡ black
    → color_of wl ≡ black
    → (h' : Rbt) × (delete_loop (suc fuel) h (root_of t) ≡ delete_loop fuel h' (root_of t))
      × IsGap h' (is_right p kp cp (node a ka black (node w kw red wl al) ar) ∷ fs) t
right_three fuel h fs p kp cp w kw a ka al ar wl t v et el =
    let wr = node a ka red al ar in
    let e = at_root (at_brother h fs p kp cp w kw black wl wr t v et) in
    let r1 = paint red (descend_left (whole h fs p kp cp w kw black wl wr t v et)) in
    (
      left_rotate (set_c (set_c h w red) a black) w,
      right_go h fs p kp cp w kw black wl wr t v et fuel (
          right_brother_three h (root_of t) p w (root_of wl) a (ap (λ n. n.c) e) (ap (λ n. n.l) e)
            (ap (λ n. n.r) e) (color_left h fs p kp cp w kw black wl wr t v et ∙ el)
            (color_right h fs p kp cp w kw black wl wr t v et) (ap (λ n. n.r) (at_root r1.place))),
      same-IsGap v refl
          (descend_right (ascend (turn_left (ascend (paint black (descend_right r1)))))),
    )

-- Its far child is red: the rotation closes the gap.
pub right_last :
    (fuel : ℕ) (h : Rbt) (fs : List Frame) (p kp : ℕ) (cp : Color) (w kw : ℕ) (wr : Tree) (b kb : ℕ)
    (bl br t : Tree)
    → IsGap h (is_right p kp cp (node w kw black (node b kb red bl br) wr) ∷ fs) t
    → color_of t ≡ black
    → Closed
        (delete_loop (suc (suc fuel)) h (root_of t))
        fs
        (node w kw cp (node b kb black bl br) (node p kp black wr t))
right_last fuel h fs p kp cp w kw wr b kb bl br t v et =
    let wl = node b kb red bl br in
    let e = at_root (at_brother h fs p kp cp w kw black wl wr t v et) in
    let r0 = whole h fs p kp cp w kw black wl wr t v et in
    let r1 = paint cp (descend_left r0) in
    record {
      memory = right_four h p w;
      ends =
          right_go h fs p kp cp w kw black wl wr t v et (suc fuel) (
            right_brother_four h (root_of t) p w b (root_of wr) (ap (λ n. n.c) e) (ap (λ n. n.l) e)
              (ap (λ n. n.r) e) (color_left h fs p kp cp w kw black wl wr t v et))
          ∙ delete_loop_root fuel (right_four h p w) (right_four h p w).root refl;
      holds =
          subst (λ g. IsPlace g fs (node w kw cp (node b kb black bl br) (node p kp black wr t)))
            (sym (
              right_four_is h p w b cp (ap (λ n. n.c) (at_root r0.place))
                (ap (λ n. n.l) (at_root r1.place))))
            (turn_right (paint black (ascend (ascend (paint black (descend_left r1)))))).place;
    }
