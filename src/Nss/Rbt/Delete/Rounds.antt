-- ===== src/Nss/Rbt/Delete/Rounds.antt =====
-- The rounds of rb_delete_fixup of nss.c, case by case.
use somerubbish.Prelude.{
  List, ℕ, suc, ◌≡◌, ◌≢◌, refl, ap, sym, ◌∙◌, Bool, true, false, not, ◌&&◌, Option, some, ◌==◌,
}
use somerubbish.Nss.Rbt.{Color, red, black, is_red, Rbt, set_c, left_rotate, right_rotate}
use somerubbish.Nss.Rbt.Tree.{Tree, Frame, IsPlace}
use somerubbish.Nss.Rbt.Write.{==_other, ==_self}
use somerubbish.Nss.Rbt.Delete.{
  left_four, left_brother, right_four, right_three_turn, right_brother, delete_round, delete_loop,
}

-- The loop ends at the root, and the memory holds the tree.
pub record Closed (o : Option (Rbt × ℕ)) (fs : List Frame) (t : Tree) : Type 0 where
  pub memory : Rbt
  pub ends : o ≡ some (memory, memory.root)
  pub holds : IsPlace memory fs t

and_false : (b : Bool) → (b && false) ≡ false
and_false true = refl
and_false false = refl

module _ (h : Rbt) (x p w : ℕ) where
  pub delete_round_left :
      (h.at x).p ≡ p → (h.at p).l ≡ x → (h.at p).r ≡ w → delete_round h x ≡ left_brother h x p w
  unfolding delete_round
  delete_round_left e el er = rw (e, el, ==_self x, er) refl

  pub delete_round_right :
      (h.at x).p ≡ p
      → x ≢ w
      → (h.at p).l ≡ w
      → (h.at p).r ≡ x
      → delete_round h x ≡ right_brother h x p w
  unfolding delete_round
  delete_round_right e n el er = rw (e, el, ==_other n, er, ==_self x) refl

  pub left_brother_red :
      (h.at w).c ≡ red → left_brother h x p w ≡ (left_rotate (set_c (set_c h w black) p red) p, x)
  unfolding left_brother
  left_brother_red e = rw e refl

  pub right_brother_red :
      (h.at w).c ≡ red → right_brother h x p w ≡ (right_rotate (set_c (set_c h w black) p red) p, x)
  unfolding right_brother
  right_brother_red e = rw e refl

  module _ (a b : ℕ) (e : (h.at w).c ≡ black) (el : (h.at w).l ≡ a) (er : (h.at w).r ≡ b) where
    pub left_brother_two :
        (h.at a).c ≡ black → (h.at b).c ≡ black → left_brother h x p w ≡ (set_c h w red, p)
    unfolding left_brother
    left_brother_two ea eb = rw (e, el, er, ea, eb) refl

    pub right_brother_two :
        (h.at a).c ≡ black → (h.at b).c ≡ black → right_brother h x p w ≡ (set_c h w red, p)
    unfolding right_brother
    right_brother_two ea eb = rw (e, el, er, ea, eb) refl

    pub left_brother_three :
        (h.at a).c ≡ red
        → (h.at b).c ≡ black
        → left_brother h x p w ≡ (right_rotate (set_c (set_c h a black) w red) w, x)
    unfolding left_brother
    left_brother_three ea eb = rw (e, el, er, ea, eb) refl

    three_turn :
        ((set_c h w red).at w).r ≡ b
        → right_three_turn h w ≡ left_rotate (set_c (set_c h w red) b black) w
    unfolding right_three_turn
    three_turn e' = ap (λ q. left_rotate (set_c (set_c h w red) q black) w) e'

    pub right_brother_three :
        (h.at a).c ≡ black
        → (h.at b).c ≡ red
        → ((set_c h w red).at w).r ≡ b
        → right_brother h x p w ≡ (left_rotate (set_c (set_c h w red) b black) w, x)
    unfolding right_brother
    right_brother_three ea eb e' = rw (e, el, er, ea, eb) refl ∙ ap (λ t. (t, x)) (three_turn e')

    pub left_brother_four :
        (h.at b).c ≡ red → left_brother h x p w ≡ (left_four h p w, (left_four h p w).root)
    unfolding left_brother
    left_brother_four eb = rw (e, er, eb, and_false (not (is_red (h.at (h.at w).l).c))) refl

    pub right_brother_four :
        (h.at a).c ≡ red → right_brother h x p w ≡ (right_four h p w, (right_four h p w).root)
    unfolding right_brother
    right_brother_four ea = rw (e, el, ea) refl

pub left_four_is :
    (h : Rbt) (p w b : ℕ) (cp : Color)
    → (h.at p).c ≡ cp
    → ((set_c (set_c h w cp) p black).at w).r ≡ b
    → left_four h p w ≡ left_rotate (set_c (set_c (set_c h w cp) p black) b black) p
unfolding left_four
left_four_is h p w b cp e er =
    let from : Rbt → ℕ → Rbt = λ t a. left_rotate (set_c t a black) p in
    ap (λ c. let t = set_c (set_c h w c) p black in from t (t.at w).r) e
    ∙ ap (from (set_c (set_c h w cp) p black)) er

pub right_four_is :
    (h : Rbt) (p w a : ℕ) (cp : Color)
    → (h.at p).c ≡ cp
    → ((set_c h w cp).at w).l ≡ a
    → right_four h p w ≡ right_rotate (set_c (set_c (set_c h w cp) a black) p black) p
unfolding right_four
right_four_is h p w a cp e el =
    let from : Rbt → ℕ → Rbt = λ t a. right_rotate (set_c (set_c t a black) p black) p in
    ap (λ c. let t = set_c h w c in from t (t.at w).l) e ∙ ap (from (set_c h w cp)) el

pub delete_loop_root :
    (fuel : ℕ) (h : Rbt) (x : ℕ) → x ≡ h.root → delete_loop (suc fuel) h x ≡ some (h, x)
unfolding delete_loop
delete_loop_root fuel h x e = rw (test e) refl
  where
    test : x ≡ h.root → (x == h.root) ≡ true
    test e = ap (λ r. x == r) (sym e) ∙ ==_self x

pub delete_loop_red :
    (fuel : ℕ) (h : Rbt) (x : ℕ) → (h.at x).c ≡ red → delete_loop (suc fuel) h x ≡ some (h, x)
unfolding delete_loop
delete_loop_red fuel h x e = rw (e, and_false (not (x == h.root))) refl

pub delete_loop_go :
    (fuel : ℕ) (h : Rbt) (x : ℕ) {h' : Rbt} {x' : ℕ}
    → x ≢ h.root
    → (h.at x).c ≡ black
    → delete_round h x ≡ (h', x')
    → delete_loop (suc fuel) h x ≡ delete_loop fuel h' x'
unfolding delete_loop
delete_loop_go fuel h x n e er = rw (==_other n, e, er) refl
