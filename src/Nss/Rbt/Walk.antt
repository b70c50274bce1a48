-- ===== src/Nss/Rbt/Walk.antt =====
-- rb_max, rb_min, rb_suc and rb_pre of nss.c. Loops take fuel; `none` is its end.
pub mod Around
pub mod Next
pub mod Previous
use somerubbish.Prelude.{ℕ, zero, suc, Option, none, some, ◌==◌, if◌then◌else◌, true, false}
use somerubbish.Nss.Rbt.{Rbt, nil_node}

unfoldable pub rb_max : (fuel : ℕ) → Rbt → (z : ℕ) → Option ℕ
rb_max zero t z = none
rb_max (suc fuel) t z =
    let rest = rb_max fuel t (t.at z).r in if (t.at z).r == nil_node then some z else rest

unfoldable pub rb_min : (fuel : ℕ) → Rbt → (z : ℕ) → Option ℕ
rb_min zero t z = none
rb_min (suc fuel) t z =
    let rest = rb_min fuel t (t.at z).l in if (t.at z).l == nil_node then some z else rest

-- The loop of rb_suc: the parent that it returns.
unfoldable pub suc_loop : (fuel : ℕ) → Rbt → (x : ℕ) → Option ℕ
suc_loop zero t x = none
suc_loop (suc fuel) t x =
    let px = (t.at x).p in
    let rest = suc_loop fuel t px in
    if px == nil_node then some px else if x == (t.at px).r then rest else some px

unfoldable pub rb_suc : (fuel : ℕ) → Rbt → (z : ℕ) → Option ℕ
rb_suc fuel t z =
    if z == nil_node
    then some z
    else if (t.at z).r == nil_node
    then suc_loop fuel t z
    else rb_min fuel t (t.at z).r

unfoldable pub pre_loop : (fuel : ℕ) → Rbt → (x : ℕ) → Option ℕ
pre_loop zero t x = none
pre_loop (suc fuel) t x =
    let px = (t.at x).p in
    let rest = pre_loop fuel t px in
    if px == nil_node then some px else if x == (t.at px).l then rest else some px

unfoldable pub rb_pre : (fuel : ℕ) → Rbt → (z : ℕ) → Option ℕ
rb_pre fuel t z =
    if z == nil_node
    then some z
    else if (t.at z).l == nil_node
    then pre_loop fuel t z
    else rb_max fuel t (t.at z).l
