-- ===== src/Rsync/Delta.antt =====
-- The list of delta blocks of rsync/src.c. An allocation is taken to succeed.
pub mod Region
use somerubbish.Prelude.{
  ℕ, zero, suc, ◌+◌, ◌-◌, ◌%◌, ◌^◌, Bool, List, [], ◌∷◌, ◌++◌, Option, none, some, ltb, leb,
  if◌then◌else◌,
}
use somerubbish.Rsync.Chunk.{ChunkBlock}

-- `DUP_BLOCK` and `N_DUP_BLOCK`.
pub data DupFlag : Type 0 where
  dup_block : DupFlag
  n_dup_block : DupFlag

-- `delta_block_entry`; `dst_block_no` is unset in a block that is no duplicate.
pub record DeltaBlock : Type 0 where
  pub offset : ℕ
  pub len : ℕ
  pub dup_flag : DupFlag
  pub dst_block_no : Option ℕ

-- The list between `dblk_link_list_head` and `dblk_link_list_tail`, with `delta_block_nr`.
pub record DeltaList : Type 0 where
  pub blocks : List DeltaBlock
  pub delta_block_nr : ℕ

pub dblke_add_to_tail : DeltaList → DeltaBlock → DeltaList
dblke_add_to_tail l b = record l { blocks = l.blocks ++ (b ∷ []) }

-- The length of the block for what is left of a region; `len` is a `u32`.
abbrev pub region_len : (bytes_left block_sz : ℕ) → ℕ
region_len bytes_left block_sz = if leb block_sz bytes_left then bytes_left % 2 ^ 32 else block_sz

-- One round of the loop: the block that it adds, and the count.
pub add_region_block : DeltaList → (off dup_blk_off block_sz : ℕ) → DeltaList
add_region_block l off dup_blk_off block_sz =
    let l' = dblke_add_to_tail l (record {
      offset = off;
      len = region_len (dup_blk_off - off) block_sz;
      dup_flag = n_dup_block;
      dst_block_no = none;
    }) in
    record l' { delta_block_nr = (l.delta_block_nr + 1) % 2 ^ 64 }

-- `while(off < dup_blk_off)`. A round that advances takes at least one byte, so the bytes left and
-- one more round are fuel enough; `none` is a loop that does not advance.
pub region_loop : (fuel : ℕ) → DeltaList → (off dup_blk_off block_sz : ℕ) → Option DeltaList
region_loop zero l off dup_blk_off block_sz = none
region_loop (suc fuel) l off dup_blk_off block_sz =
    let rest =
      region_loop fuel (add_region_block l off dup_blk_off block_sz)
        ((off + region_len (dup_blk_off - off) block_sz) % 2 ^ 64) dup_blk_off block_sz in
    if ltb off dup_blk_off then rest else some l

-- The duplicate, if there is one, behind the region.
pub add_dup_block : DeltaList → (dup_blk_off n : ℕ) → Option ChunkBlock → DeltaList
add_dup_block l dup_blk_off n none = l
add_dup_block l dup_blk_off n (some cblk) = dblke_add_to_tail l (record {
  offset = dup_blk_off;
  len = n;
  dup_flag = dup_block;
  dst_block_no = some (cblk.block_no);
})

pub update_delta_block_list :
    DeltaList
    → (delta_region_off dup_blk_off n : ℕ) → Option ChunkBlock
    → (block_sz : ℕ) → Option DeltaList
update_delta_block_list l delta_region_off dup_blk_off n cblk block_sz =
    elim (region_loop (dup_blk_off - delta_region_off + 1) l delta_region_off dup_blk_off
      block_sz) [ none ↦ none | some l' ↦ some (add_dup_block l' dup_blk_off n cblk) ]
