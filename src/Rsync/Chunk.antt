-- ===== src/Rsync/Chunk.antt =====
-- The hash table of chunk blocks of rsync/src.c: the sender keeps the receiver's blocks in 256
-- chains, each in the order of the rolling checksums. An MD5 digest is a number of 128 bits.
pub mod Dictionary
use somerubbish.Prelude.{
  ℕ, ◌+◌, ◌%◌, Bool, ◌&&◌, List, [], ◌∷◌, Option, none, some, ltb, ◌==◌, if◌then◌else◌, get_or, set,
  replicate,
}

-- `chunk_block_entry`; the list node `cbe_hash` is the place in a chain.
pub record ChunkBlock : Type 0 where
  pub block_no : ℕ
  pub block_len : ℕ
  pub rolling_chksm : ℕ
  pub md5 : ℕ

-- What the sender looks for: the length of a block, its rolling checksum and its digest.
pub record BlockKey : Type 0 where
  pub len : ℕ
  pub rolling : ℕ
  pub digest : ℕ

abbrev pub chunk_blk_hash : ℕ
chunk_blk_hash = 256

-- `ROLLING_CHECKSUM_HASH`.
abbrev pub rolling_checksum_hash : ℕ → ℕ
rolling_checksum_hash r = r % chunk_blk_hash

unfoldable pub has_key : ChunkBlock → BlockKey → Bool
has_key c k = (c.block_len == k.len) && ((c.rolling_chksm == k.rolling) && (c.md5 == k.digest))

abbrev pub key_of : ChunkBlock → BlockKey
key_of c = record { len = c.block_len; rolling = c.rolling_chksm; digest = c.md5 }

-- The walk along a chain that places a received block: an identical block ends it, a greater
-- checksum is inserted before, and the end of the chain takes the block.
unfoldable pub insert_chunk : List ChunkBlock → ChunkBlock → List ChunkBlock
insert_chunk [] c = c ∷ []
insert_chunk (x ∷ xs) c =
    if has_key x (key_of c)
    then x ∷ xs
    else if ltb c.rolling_chksm x.rolling_chksm
    then c ∷ x ∷ xs
    else x ∷ insert_chunk xs c

-- `chunk_blk_entry_hash`.
abbrev pub Table : Type 0
Table = List (List ChunkBlock)

unfoldable pub empty_table : Table
empty_table = replicate chunk_blk_hash []

unfoldable pub receive_chunk : Table → ChunkBlock → Table
receive_chunk t c =
    let h = rolling_checksum_hash c.rolling_chksm in set t h (insert_chunk (get_or t h []) c)

-- The loop that receives the chunk blocks.
unfoldable pub receive_chunks : Table → List ChunkBlock → Table
receive_chunks t [] = t
receive_chunks t (c ∷ cs) = receive_chunks (receive_chunk t c) cs

-- The walk that looks for a duplicate of a block; a greater checksum ends it.
unfoldable pub search_chain : List ChunkBlock → BlockKey → Option ChunkBlock
search_chain [] k = none
search_chain (x ∷ xs) k =
    if has_key x k
    then some x
    else if ltb k.rolling x.rolling_chksm
    then none
    else search_chain xs k

unfoldable pub search_table : Table → BlockKey → Option ChunkBlock
search_table t k = search_chain (get_or t (rolling_checksum_hash k.rolling) []) k
