-- ===== src/Rsync/Checksum.antt =====
-- The rolling checksum of rsync/rsync_utility.c. Memory is a function from addresses to bytes; the
-- sums are `u64`, a product of two `u32` is a `u32`, and the modulus is 2^16.
pub mod Sums
pub mod Slide
use somerubbish.Prelude.{ℕ, zero, suc, ◌+◌, ◌-◌, ◌*◌, ◌%◌, ◌^◌, ◌<◌}

abbrev pub Memory : Type 0
Memory = ℕ → ℕ

-- `ROLLING_CHKSUM_M`.
abbrev pub rolling_chksum_m : ℕ
rolling_chksum_m = 2 ^ 16

-- What a call returns (`skl`), with what it writes through its two pointers.
pub record Cksm : Type 0 where
  pub skl : ℕ
  pub akl : ℕ
  pub bkl : ℕ

-- The rounds of the loop that are left when it stands at index `i`, with the two sums so far.
unfoldable pub cksm_loop : Memory → (ptr blk_len : ℕ) (rounds i akl bkl : ℕ) → ℕ × ℕ
cksm_loop mem ptr blk_len zero i akl bkl = (akl, bkl)
cksm_loop mem ptr blk_len (suc k) i akl bkl =
    cksm_loop mem ptr blk_len k (i + 1) ((akl + mem (ptr + i)) % 2 ^ 64)
      ((bkl + (blk_len - i) * mem (ptr + i) % 2 ^ 32) % 2 ^ 64)

abbrev pub pack : ℕ → ℕ → Cksm
pack a b = record { skl = (a + b * rolling_chksum_m) % 2 ^ 32; akl = a; bkl = b }

-- `blk_len - i` is exact, since the loop runs at `i < blk_len`.
unfoldable pub cal_rollin_cksm : Memory → (ptr blk_len : ℕ) → Cksm
cal_rollin_cksm mem ptr blk_len =
    let (a, b) = cksm_loop mem ptr blk_len blk_len 0 0 0 in
    pack (a % rolling_chksum_m) (b % rolling_chksum_m)

-- The byte `o` leaves the window and the byte `n` enters it. A difference of `u32` wraps.
unfoldable pub cal_rollin_cksm_plus_1 : (o n akl bkl blk_len : ℕ) → Cksm
cal_rollin_cksm_plus_1 o n akl bkl blk_len =
    let a = (akl + 2 ^ 32 - o + n) % 2 ^ 32 % rolling_chksum_m in
    let b = (bkl + 2 ^ 32 - blk_len * o % 2 ^ 32 + a) % 2 ^ 32 % rolling_chksum_m in pack a b
