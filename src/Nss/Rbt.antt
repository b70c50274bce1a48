-- ===== src/Nss/Rbt.antt =====
-- The red-black tree of nss.c. A pointer is an address, and NIL_NODE the address 0, at which there
-- is a node as well. Loops take fuel; `none` is its end.
pub mod Tree
pub mod Write
pub mod Turn
pub mod Rotate
pub mod Place
pub mod Balance
pub mod Round
pub mod Turns
pub mod Fixup
pub mod Shapes
pub mod Loop
pub mod Order
pub mod Way
pub mod Locate
pub mod Attach
pub mod Insert
pub mod State
pub mod Depth
pub mod Found
pub mod Walk
pub mod Delete
use somerubbish.Prelude.{
  ℕ, zero, suc, ◌-◌, ◌^◌, Bool, true, false, not, ◌&&◌, Option, none, some, ◌==◌, if◌then◌else◌,
  ltb, ◌>>=◌,
}

-- RBT_RED and RBT_BLACK.
pub data Color : Type 0 where
  red black : Color

abbrev pub is_red : Color → Bool
is_red red = true
is_red black = false

-- `rbt`.
pub record RbtNode : Type 0 where
  pub i : ℕ
  pub c : Color
  pub l : ℕ
  pub r : ℕ
  pub p : ℕ

-- `root`, and the nodes in memory.
pub record Rbt : Type 0 where
  pub root : ℕ
  pub at : ℕ → RbtNode

abbrev pub nil_node : ℕ
nil_node = 0

-- A write to the node at an address.
abbrev pub update : Rbt → ℕ → (RbtNode → RbtNode) → Rbt
update t a f = record t { at = λ b. if b == a then f (t.at b) else t.at b }

abbrev pub set_l : Rbt → ℕ → ℕ → Rbt
set_l t a v = update t a (λ n. record n { l = v })

abbrev pub set_r : Rbt → ℕ → ℕ → Rbt
set_r t a v = update t a (λ n. record n { r = v })

abbrev pub set_p : Rbt → ℕ → ℕ → Rbt
set_p t a v = update t a (λ n. record n { p = v })

abbrev pub set_c : Rbt → ℕ → Color → Rbt
set_c t a v = update t a (λ n. record n { c = v })

-- The link of a rotation from the parent of `x`, or from `root`.
unfoldable pub replace_child : Rbt → (x y : ℕ) → Rbt
replace_child t x y =
    let px = (t.at x).p in
    if px == nil_node
    then record t { root = y }
    else if (t.at px).l == x
    then set_l t px y
    else if (t.at px).r == x
    then set_r t px y
    else t

-- The new parent of a child, which is not NIL_NODE.
unfoldable pub adopt : Rbt → (child x : ℕ) → Rbt
adopt t child x = if child == nil_node then t else set_p t child x

unfoldable pub left_rotate : Rbt → (x : ℕ) → Rbt
left_rotate t x =
    let y = (t.at x).r in
    let t1 = set_p t y (t.at x).p in
    let t2 = set_r t1 x (t1.at y).l in
    let t3 = adopt t2 (t2.at y).l x in let t4 = replace_child t3 x y in set_p (set_l t4 y x) x y

unfoldable pub right_rotate : Rbt → (x : ℕ) → Rbt
right_rotate t x =
    let y = (t.at x).l in
    let t1 = set_p t y (t.at x).p in
    let t2 = set_l t1 x (t1.at y).r in
    let t3 = adopt t2 (t2.at y).r x in let t4 = replace_child t3 x y in set_p (set_r t4 y x) x y

-- The `u32` value of -1.
abbrev pub minus_one : ℕ
minus_one = 2 ^ 32 - 1

-- The loop of get_node_by_key: the node and `*di`.
unfoldable pub key_loop : (fuel : ℕ) → Rbt → (key node : ℕ) → Option (ℕ × ℕ)
key_loop zero t key node = none
key_loop (suc fuel) t key node =
    let n = t.at node in
    let rest = key_loop fuel t key (if ltb key n.i then n.l else n.r) in
    if ltb key n.i
    then (if n.l == nil_node then some (node, minus_one) else rest)
    else if ltb n.i key
    then (if n.r == nil_node then some (node, 1) else rest)
    else some (node, 0)

unfoldable pub get_node_by_key : (fuel : ℕ) → Rbt → (key : ℕ) → Option (ℕ × ℕ)
get_node_by_key fuel t key =
    if t.root == nil_node then some (nil_node, 0) else key_loop fuel t key t.root

-- One round of rb_insert_fixup on `z`: the new `z`. `pz` is its parent, `ppz` the parent of that,
-- and `y` the other child of `ppz`.
unfoldable pub repaint : Rbt → (pz ppz y : ℕ) → Rbt
repaint t pz ppz y = set_c (set_c (set_c t y black) pz black) ppz red

unfoldable pub left_case : Rbt → (z pz ppz y : ℕ) → Rbt × ℕ
left_case t z pz ppz y =
    if is_red (t.at y).c
    then (repaint t pz ppz y, ppz)
    else if z == (t.at pz).r
    then (left_rotate t pz, pz)
    else (right_rotate (set_c (set_c t pz black) ppz red) ppz, z)

unfoldable pub right_case : Rbt → (z pz ppz y : ℕ) → Rbt × ℕ
right_case t z pz ppz y =
    if is_red (t.at y).c
    then (repaint t pz ppz y, ppz)
    else if z == (t.at pz).l
    then (right_rotate t pz, pz)
    else (left_rotate (set_c (set_c t pz black) ppz red) ppz, z)

unfoldable pub fixup_round : Rbt → (z : ℕ) → Rbt × ℕ
fixup_round t z =
    let pz = (t.at z).p in
    let ppz = (t.at pz).p in
    if pz == (t.at ppz).l
    then left_case t z pz ppz (t.at ppz).r
    else right_case t z pz ppz (t.at ppz).l

unfoldable pub fixup_loop : (fuel : ℕ) → Rbt → (z : ℕ) → Option Rbt
fixup_loop zero t z = none
fixup_loop (suc fuel) t z =
    let (t', z') = fixup_round t z in
    let rest = fixup_loop fuel t' z' in if is_red (t.at (t.at z).p).c then rest else some t

unfoldable pub rb_insert_fixup : (fuel : ℕ) → Rbt → (z : ℕ) → Option Rbt
rb_insert_fixup fuel t z = fixup_loop fuel t z >>= (λ t'. some (set_c t' t'.root black))

-- rb_insert of the node at `z`: from the writes to its fields, and from the search.
unfoldable pub insert_red : (fuel : ℕ) → Rbt → (z : ℕ) → Option Rbt
insert_red fuel t z = rb_insert_fixup fuel (set_c (set_r (set_l t z nil_node) z nil_node) z red) z

unfoldable pub insert_at : (fuel : ℕ) → Rbt → (z node di : ℕ) → Option Rbt
insert_at fuel t z node di =
    let t1 = set_p t z node in
    if node == nil_node
    then insert_red fuel (record t1 { root = z }) z
    else if di == 0
    then some t1
    else if di == minus_one
    then insert_red fuel (set_l t1 node z) z
    else if di == 1
    then insert_red fuel (set_r t1 node z) z
    else insert_red fuel t1 z

unfoldable pub rb_insert : (fuel : ℕ) → Rbt → (z : ℕ) → Option Rbt
rb_insert fuel t z =
    get_node_by_key fuel t (t.at z).i >>= (λ (node, di). insert_at fuel t z node di)

-- new_rbt_node with the address that malloc gives, if it gives one.
unfoldable pub new_rbt_node : Rbt → (key : ℕ) → (a : Option ℕ) → Rbt × Option ℕ
new_rbt_node t key none = (t, none)
new_rbt_node t key (some a) = (
  update t a (λ n. record { i = key; c = red; l = nil_node; r = nil_node; p = nil_node }),
  some a,
)

unfoldable pub init_rbt : Rbt → Rbt
init_rbt t = record (set_c t nil_node black) { root = nil_node }
