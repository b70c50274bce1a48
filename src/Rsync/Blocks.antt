-- ===== src/Rsync/Blocks.antt =====
-- The blocks of the old file that the receiver of rsync/dst.c sends, each with its checksums. Read
-- is that of Rsync/Transfer, cal_md5 a parameter.
pub mod Copied
use somerubbish.Prelude.{
  ℕ, zero, suc, ◌+◌, ◌-◌, ◌*◌, ◌/◌, ◌%◌, ◌^◌, List, [], ◌∷◌, Option, none, some, leb, ◌==◌,
  if◌then◌else◌, length, get_or, drop, ◌>>=◌,
}
use somerubbish.Rsync.Checksum.{cal_rollin_cksm}
use somerubbish.Rsync.Chunk.{ChunkBlock, Table, empty_table, receive_chunks}
use somerubbish.Rsync.Transfer.{Outside, read}

-- `BLOCK_SZ`.
abbrev pub block_sz : ℕ
block_sz = 32

abbrev pub block_nr : (file_sz : ℕ) → ℕ
block_nr file_sz = if file_sz % block_sz == 0 then file_sz / block_sz else file_sz / block_sz + 1

-- `c_len` at the offset `c_off`, a `u32`.
abbrev pub chunk_len : (file_sz c_off : ℕ) → ℕ
chunk_len file_sz c_off =
    let remaining_bytes = (file_sz + 2 ^ 64 - c_off) % 2 ^ 64 in
    if leb block_sz remaining_bytes then block_sz else remaining_bytes % 2 ^ 32

-- Behind the bytes that are read `buf` is zero.
unfoldable pub chunk_block :
    Outside → (md5 : List ℕ → ℕ) → (file : List ℕ) → (i : ℕ) → Option ChunkBlock
chunk_block o md5 file i =
    let c_off = i * block_sz % 2 ^ 32 in
    let c_len = chunk_len (length file) c_off in
    read o c_len (drop c_off file) >>= (λ (bytes, left). some record {
      block_no = i;
      block_len = c_len;
      rolling_chksm = (cal_rollin_cksm (λ k. get_or bytes k 0) 0 block_sz).skl;
      md5 = md5 bytes;
    })

-- The loop, from the round `i` on.
unfoldable pub chunk_loop :
    (rounds : ℕ)
    → Outside
    → (md5 : List ℕ → ℕ) → (file : List ℕ) → (i : ℕ) → Option (List ChunkBlock)
chunk_loop zero o md5 file i = some []
chunk_loop (suc rounds) o md5 file i =
    chunk_block o md5 file i
    >>= (λ c. chunk_loop rounds o md5 file ((i + 1) % 2 ^ 32) >>= (λ cs. some (c ∷ cs)))

unfoldable pub chunk_blocks :
    Outside → (md5 : List ℕ → ℕ) → (file : List ℕ) → Option (List ChunkBlock)
chunk_blocks o md5 file = chunk_loop (block_nr (length file)) o md5 file 0
