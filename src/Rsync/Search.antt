-- ===== src/Rsync/Search.antt =====
-- The search for duplicate blocks in `main` of rsync/src.c, from buf_init to the list of delta
-- blocks. cal_md5 is a parameter.
pub mod Start
use somerubbish.Prelude.{
  ℕ, zero, suc, ◌+◌, ◌-◌, ◌%◌, ◌^◌, Bool, true, false, List, [], Option, none, some, ltb,
  if◌then◌else◌, get_or, take, drop, ◌>>=◌,
}
use somerubbish.Rsync.Checksum.{Cksm, cal_rollin_cksm, cal_rollin_cksm_plus_1}
use somerubbish.Rsync.Chunk.{ChunkBlock, BlockKey, Table, search_table}
use somerubbish.Rsync.Delta.{DeltaList, update_delta_block_list}
use somerubbish.Rsync.Buffer.{Posix, Buffer, buf_init, read_from_buf}

-- The variables of the loop.
pub record Search : Type 0 where
  pub buffer : Buffer
  pub dup_blk_off : ℕ
  pub delta_region_off : ℕ
  pub dup_found : Bool
  pub akl : ℕ
  pub bkl : ℕ
  pub delta : DeltaList

-- How it ends: at `over3`, or behind the loop.
pub data Ending : Type 0 where
  over3 : Ending
  finding_over : Search → Ending

-- The checksum of the block at `p` of `buf`: a new one, or that of the last block, moved by one.
-- `none` is a read before `buf`.
unfoldable pub block_cksm : Search → (p n dup_blk_len : ℕ) → Option Cksm
block_cksm s p n dup_blk_len =
    let byte : ℕ → ℕ = λ i. get_or s.buffer.buf i 0 in
    let nc = if ltb n dup_blk_len then 0 else byte (p + n - 1) in
    if s.dup_found then some (cal_rollin_cksm byte p n) else (elim p [
      | zero ↦ none
      | suc q ↦ some (cal_rollin_cksm_plus_1 (byte q) nc s.akl s.bkl dup_blk_len)
    ])

-- The end of a round: past the duplicate, or one byte on.
unfoldable pub move_on : Search → (n dup_blk_len : ℕ) → Option ChunkBlock → Option Search
move_on s n dup_blk_len none =
    some (record s { dup_found = false; dup_blk_off = (s.dup_blk_off + 1) % 2 ^ 64 })
move_on s n dup_blk_len (some cblk) =
    let off = (s.dup_blk_off + n) % 2 ^ 64 in
    update_delta_block_list s.delta s.delta_region_off s.dup_blk_off n (some cblk) dup_blk_len
    >>= (λ l.
        some (record s { dup_found = true; delta = l; dup_blk_off = off; delta_region_off = off }))

-- A round for the block of `n` bytes at `p`.
unfoldable pub check_block :
    (md5 : List ℕ → ℕ) → Table → Search → (p n dup_blk_len : ℕ) → Option Search
check_block md5 t s p n dup_blk_len = block_cksm s p n dup_blk_len >>= (λ c.
    let found =
      search_table t
        record { len = n; rolling = c.skl; digest = md5 (take n (drop p s.buffer.buf)) } in
    move_on (record s { akl = c.akl; bkl = c.bkl }) n dup_blk_len found)

-- The loop, on fuel for its rounds.
unfoldable pub search_loop :
    (fuel : ℕ)
    → Posix
    → (md5 : List ℕ → ℕ) → (file : List ℕ) → Table
    → Search
    → (file_sz dup_blk_len : ℕ) → Option Ending
search_loop zero p md5 file t s file_sz dup_blk_len = none
search_loop (suc fuel) p md5 file t s file_sz dup_blk_len =
    let rounds = suc (suc (suc fuel)) in
    let again : Search → Option Ending =
      λ s'. search_loop fuel p md5 file t s' file_sz dup_blk_len in
    let round = read_from_buf rounds p file s.buffer s.dup_blk_off dup_blk_len >>= (λ (b, r).
      elim r [
        | none ↦ some over3
        | some (i, n) ↦ check_block md5 t (record s { buffer = b }) i n dup_blk_len >>= again
      ]) in
    if ltb s.dup_blk_off file_sz then round else some (finding_over s)

-- From the initial values on.
unfoldable pub find_dup_blocks :
    (fuel : ℕ)
    → Posix
    → (md5 : List ℕ → ℕ) → (file : List ℕ) → Table
    → Buffer
    → DeltaList
    → (file_sz block_sz : ℕ) → Option Ending
find_dup_blocks fuel p md5 file t b l file_sz block_sz =
    search_loop fuel p md5 file t
      record {
        buffer = buf_init b file_sz;
        dup_blk_off = 0;
        delta_region_off = 0;
        dup_found = true;
        akl = 0;
        bkl = 0;
        delta = l;
      }
      file_sz block_sz
