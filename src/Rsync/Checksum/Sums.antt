-- ===== src/Rsync/Checksum/Sums.antt =====
-- What the checksum of rsync/rsync_utility.c adds up: the bytes of a window, and the bytes weighted
-- by their distance from its end.
use somerubbish.Prelude.{ℕ, zero, suc, ◌+◌, ◌-◌, ◌*◌, ◌%◌, ◌^◌, ◌≡◌, ap, ap₂, ◌∙◌, arith}
use somerubbish.Rsync.Checksum.{Memory, rolling_chksum_m, cksm_loop, pack, cal_rollin_cksm}

pub sum : Memory → (p n : ℕ) → ℕ
sum mem p zero = 0
sum mem p (suc n) = mem p + sum mem (p + 1) n

pub weighted_sum : Memory → (p n : ℕ) → ℕ
weighted_sum mem p zero = 0
weighted_sum mem p (suc n) = suc n * mem p + weighted_sum mem (p + 1) n

-- Up to the modulus the loop adds the two sums of the rest of the window, whatever wraps.
cksm_loop-mod :
    (mem : Memory) (ptr len k i p a b : ℕ)
    → len ≡ i + k
    → p ≡ ptr + i
    → let (a', b') = cksm_loop mem ptr len k i a b in
      (a' % rolling_chksum_m ≡ (a + sum mem p k) % rolling_chksum_m)
      × (b' % rolling_chksum_m ≡ (b + weighted_sum mem p k) % rolling_chksum_m)
unfolding cksm_loop sum weighted_sum
cksm_loop-mod mem ptr len zero i p a b e f = omega arith
cksm_loop-mod mem ptr len (suc k) i p a b e f = rw f (
    omega (
      arith,
      cksm_loop-mod mem ptr len k (i + 1) (ptr + i + 1) ((a + mem (ptr + i)) % 2 ^ 64)
          ((b + (len - i) * mem (ptr + i) % 2 ^ 32) % 2 ^ 64) (omega arith) (omega arith),
      ap (λ (t : ℕ). t * mem (ptr + i)) left,
    ))
  where
    left : len - i ≡ suc k
    left = omega arith

pub cal_rollin_cksm_lem :
    (mem : Memory) (ptr len : ℕ)
    → cal_rollin_cksm mem ptr len
      ≡ pack (sum mem ptr len % rolling_chksum_m) (weighted_sum mem ptr len % rolling_chksum_m)
unfolding cal_rollin_cksm
cal_rollin_cksm_lem mem ptr len =
    let h = cksm_loop-mod mem ptr len len 0 ptr 0 0 (omega arith) (omega arith) in
    ap₂ pack (h.0 ∙ omega arith) (h.1 ∙ omega arith)

-- Sliding a window by one byte.
pub sum-slide : (mem : Memory) (p n : ℕ) → mem p + sum mem (p + 1) n ≡ sum mem p n + mem (p + n)
unfolding sum
sum-slide mem p zero = omega (arith, ap mem here)
  where
    here : p + 0 ≡ p
    here = omega arith
sum-slide mem p (suc n) = omega (arith, sum-slide mem (p + 1) n, ap mem end)
  where
    end : p + 1 + n ≡ p + suc n
    end = omega arith

pub weighted_sum-slide :
    (mem : Memory) (p n : ℕ)
    → weighted_sum mem (p + 1) n + n * mem p ≡ weighted_sum mem p n + sum mem (p + 1) n
unfolding sum weighted_sum
weighted_sum-slide mem p zero = omega arith
weighted_sum-slide mem p (suc n) = omega (arith, weighted_sum-slide mem (p + 1) n)
