-- ===== src/Rsync/Checksum/Slide.antt =====
-- The incremental checksum of rsync/rsync_utility.c against the one computed from the bytes.
use somerubbish.Prelude.{ℕ, ◌+◌, ◌-◌, ◌*◌, ◌%◌, ◌^◌, ◌<◌, ◌≡◌, ap₂, arith}
use somerubbish.Rsync.Checksum.{
  Memory, rolling_chksum_m, pack, cal_rollin_cksm, cal_rollin_cksm_plus_1,
}
use somerubbish.Rsync.Checksum.Sums.{
  sum, weighted_sum, cal_rollin_cksm_lem, sum-slide, weighted_sum-slide,
}

abbrev pub HoldsBytes : Memory → Type 0
HoldsBytes mem = (p : ℕ) → mem p < 256

-- Sliding the window by one byte gives the checksum that the bytes of the new window have.
pub plus_1-eq-cal_rollin_cksm :
    (mem : Memory) (ptr len : ℕ)
    → HoldsBytes mem
    → let old = cal_rollin_cksm mem ptr len in
      cal_rollin_cksm_plus_1 (mem ptr) (mem (ptr + len)) old.akl old.bkl len
      ≡ cal_rollin_cksm mem (ptr + 1) len
unfolding cal_rollin_cksm_plus_1
plus_1-eq-cal_rollin_cksm mem ptr len bytes =
    rw (cal_rollin_cksm_lem mem ptr len, cal_rollin_cksm_lem mem (ptr + 1) len) (ap₂ pack akl bkl)
  where
    a : ℕ
    a =
        (sum mem ptr len % rolling_chksum_m + 2 ^ 32 - mem ptr + mem (ptr + len))
        % 2 ^ 32
        % rolling_chksum_m

    akl : a ≡ sum mem (ptr + 1) len % rolling_chksum_m
    akl = omega (arith, sum-slide mem ptr len, bytes ptr)

    bkl :
        (weighted_sum mem ptr len % rolling_chksum_m + 2 ^ 32 - len * mem ptr % 2 ^ 32 + a)
          % 2 ^ 32
          % rolling_chksum_m
        ≡ weighted_sum mem (ptr + 1) len % rolling_chksum_m
    bkl = omega (arith, akl, weighted_sum-slide mem ptr len)
