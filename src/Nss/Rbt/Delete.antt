-- ===== src/Nss/Rbt/Delete.antt =====
-- rb_delete of nss.c, with rb_delete_fixup. Loops take fuel; `none` is its end.
pub mod Gap
pub mod Rounds
pub mod CasesLeft
pub mod CasesRight
pub mod Ends
pub mod MendLeft
pub mod MendRight
pub mod Loop
pub mod Unlink
pub mod Least
pub mod Rekey
pub mod Remove
pub mod Repair
pub mod Node
pub mod Whole
pub mod Deletes
pub mod RoundTrip
use somerubbish.Prelude.{
  ℕ, zero, suc, Option, none, some, not, ◌&&◌, ◌||◌, ◌==◌, if◌then◌else◌, ◌>>=◌, true, false,
}
use somerubbish.Nss.Rbt.{
  Color, red, black, is_red, Rbt, nil_node, update, set_p, set_c, replace_child, left_rotate,
  right_rotate, get_node_by_key,
}
use somerubbish.Nss.Rbt.Walk.{rb_suc}

abbrev pub set_i : Rbt → (a v : ℕ) → Rbt
set_i t a v = update t a (λ n. record n { i = v })

-- A round of rb_delete_fixup on `x` with the parent `px` and the brother `w`: the new `x`.
unfoldable pub left_four : Rbt → (px w : ℕ) → Rbt
left_four t px w =
    let t1 = set_c t w (t.at px).c in
    let t2 = set_c t1 px black in left_rotate (set_c t2 (t2.at w).r black) px

unfoldable pub left_brother : Rbt → (x px w : ℕ) → Rbt × ℕ
left_brother t x px w =
    let last = left_four t px w in
    if is_red (t.at w).c
    then (left_rotate (set_c (set_c t w black) px red) px, x)
    else if not (is_red (t.at (t.at w).l).c) && not (is_red (t.at (t.at w).r).c)
    then (set_c t w red, px)
    else if not (is_red (t.at (t.at w).r).c)
    then (right_rotate (set_c (set_c t (t.at w).l black) w red) w, x)
    else (last, last.root)

unfoldable pub right_four : Rbt → (px w : ℕ) → Rbt
right_four t px w =
    let t1 = set_c t w (t.at px).c in
    let t2 = set_c t1 (t1.at w).l black in right_rotate (set_c t2 px black) px

unfoldable pub right_three_turn : Rbt → (w : ℕ) → Rbt
right_three_turn t w = let t1 = set_c t w red in left_rotate (set_c t1 (t1.at w).r black) w

unfoldable pub right_brother : Rbt → (x px w : ℕ) → Rbt × ℕ
right_brother t x px w =
    let last = right_four t px w in
    if is_red (t.at w).c
    then (right_rotate (set_c (set_c t w black) px red) px, x)
    else if not (is_red (t.at (t.at w).l).c) && not (is_red (t.at (t.at w).r).c)
    then (set_c t w red, px)
    else if not (is_red (t.at (t.at w).l).c)
    then (right_three_turn t w, x)
    else (last, last.root)

unfoldable pub delete_round : Rbt → (x : ℕ) → Rbt × ℕ
delete_round t x =
    let px = (t.at x).p in
    if x == (t.at px).l
    then left_brother t x px (t.at px).r
    else if x == (t.at px).r
    then right_brother t x px (t.at px).l
    else (t, x)

unfoldable pub delete_loop : (fuel : ℕ) → Rbt → (x : ℕ) → Option (Rbt × ℕ)
delete_loop zero t x = none
delete_loop (suc fuel) t x =
    let (t', x') = delete_round t x in
    let rest = delete_loop fuel t' x' in
    if not (x == t.root) && not (is_red (t.at x).c) then rest else some (t, x)

unfoldable pub rb_delete_fixup : (fuel : ℕ) → Rbt → (z : ℕ) → Option Rbt
rb_delete_fixup fuel t z = delete_loop fuel t z >>= (λ (t', x). some (set_c t' x black))

-- rb_delete from the search on: the node that goes, its child in its place, and the repair.
unfoldable pub node_to_delete : (fuel : ℕ) → Rbt → (z : ℕ) → Option ℕ
node_to_delete fuel t z =
    if ((t.at z).l == nil_node) || ((t.at z).r == nil_node) then some z else rb_suc fuel t z

unfoldable pub unlink : Rbt → (y x : ℕ) → Rbt
unlink t y x = replace_child (set_p t x (t.at y).p) y x

unfoldable pub delete_node : (fuel : ℕ) → Rbt → (z y : ℕ) → Option (Rbt × ℕ)
delete_node fuel t z y =
    let x = if (t.at y).l == nil_node then (t.at y).r else (t.at y).l in
    let t1 = unlink t y x in
    let t2 = if y == z then t1 else set_i t1 z (t1.at y).i in
    if is_red (t2.at y).c then some (t2, y) else rb_delete_fixup fuel t2 x >>= (λ t3. some (t3, y))

unfoldable pub rb_delete : (fuel : ℕ) → Rbt → (key : ℕ) → Option (Rbt × ℕ)
rb_delete fuel t key = get_node_by_key fuel t key >>= (λ (z, di).
    let removed = node_to_delete fuel t z >>= (λ y. delete_node fuel t z y) in
    if (z == nil_node) || not (di == 0) then some (t, nil_node) else removed)
