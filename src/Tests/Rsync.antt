-- ===== src/Tests/Rsync.antt =====
-- Runs of the file synchroniser of rsync/.
use somerubbish.Prelude.{ℕ, ◌+◌, ◌*◌, ◌%◌, ◌<◌, ◌≡◌, refl, List, [], ◌∷◌, some, arith, length}
use somerubbish.Rsync.Checksum.{Memory, cksm_loop, cal_rollin_cksm, cal_rollin_cksm_plus_1}
use somerubbish.Rsync.Checksum.Slide.{HoldsBytes, plus_1-eq-cal_rollin_cksm}
use somerubbish.Rsync.Chunk.{
  ChunkBlock, has_key, insert_chunk, empty_table, receive_chunk, receive_chunks, search_chain,
  search_table,
}
use somerubbish.Rsync.Chunk.Dictionary.{find_first, receive_chunks-eq-find_first}
use somerubbish.Rsync.Delta.{DeltaList, update_delta_block_list}
use somerubbish.Rsync.Delta.Region.{
  added_blocks, count_n_dup, region_block, update_delta_block_list_lem,
  update_delta_block_list-count,
}

abbrev memory : Memory
memory p = p * 37 % 256

memory-HoldsBytes : HoldsBytes memory
memory-HoldsBytes p = omega arith

-- The bytes 111, 148, 185 and 222.
cksm_of_four : (cal_rollin_cksm memory 3 4).skl ≡ 666 + 1480 * 65536
unfolding cal_rollin_cksm cksm_loop
cksm_of_four = refl

plus_1_example :
    cal_rollin_cksm_plus_1
      (memory 3)
      (memory 7)
      (cal_rollin_cksm memory 3 4).akl
      (cal_rollin_cksm memory 3 4).bkl
      4
    ≡ cal_rollin_cksm memory 4 4
plus_1_example = plus_1-eq-cal_rollin_cksm memory 3 4 memory-HoldsBytes

abbrev chunk : (block_no rolling md5 : ℕ) → ChunkBlock
chunk block_no rolling md5 = record {
  block_no = block_no;
  block_len = 32;
  rolling_chksm = rolling;
  md5 = md5;
}

-- Two blocks share a chain, and the third is identical to the first.
abbrev chunks : List ChunkBlock
chunks = chunk 0 300 7 ∷ chunk 1 44 8 ∷ chunk 2 300 7 ∷ chunk 3 300 9 ∷ []

chunk_found :
    search_table
      (receive_chunks empty_table chunks)
      (record { len = 32; rolling = 300; digest = 9 })
    ≡ some (chunk 3 300 9)
unfolding search_table search_chain receive_chunks receive_chunk insert_chunk has_key empty_table
chunk_found = refl

abbrev one_block : DeltaList
one_block = record { blocks = region_block 0 40 ∷ []; delta_block_nr = 1 }

-- Ten bytes before a duplicate make a block of 32 bytes.
update_delta_block_list_example :
    update_delta_block_list one_block 40 50 32 (some (chunk 5 1 1)) 32
    ≡ some (record {
      blocks = region_block 0 40 ∷ added_blocks 40 50 32 (some (chunk 5 1 1)) 32;
      delta_block_nr = 2;
    })
update_delta_block_list_example =
    update_delta_block_list_lem one_block 40 50 32 (some (chunk 5 1 1)) 32 (omega arith)
      (omega arith) (omega arith)

update_delta_block_list-count_example :
    (l' : DeltaList) × (update_delta_block_list one_block 40 50 32 (some (chunk 5 1 1)) 32
      ≡ some l')
    × (l'.delta_block_nr ≡ count_n_dup l'.blocks)
    × (l'.delta_block_nr < length l'.blocks)
unfolding count_n_dup
update_delta_block_list-count_example =
    update_delta_block_list-count one_block 40 50 32 (chunk 5 1 1) 32 (omega arith) (omega arith)
      (omega arith) (omega arith) refl

receive_chunks_example :
    search_table
      (receive_chunks empty_table chunks)
      (record { len = 32; rolling = 300; digest = 7 })
    ≡ some (chunk 0 300 7)
unfolding find_first has_key
receive_chunks_example =
    receive_chunks-eq-find_first chunks (record { len = 32; rolling = 300; digest = 7 })
