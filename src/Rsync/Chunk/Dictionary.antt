-- ===== src/Rsync/Chunk/Dictionary.antt =====
-- The chunk hash table of rsync/src.c beside a scan of the received blocks.
use somerubbish.Prelude.{
  ℕ, ◌≡◌, refl, ◌∙◌, true, List, [], ◌∷◌, Option, none, some, arith, if◌then◌else◌, length, get_or,
  length-set, get_or-set_self, get_or-set_ne, ℕ_discrete, sym, ap, replicate, get_or-replicate,
}
use somerubbish.Rsync.Chunk.{
  ChunkBlock, BlockKey, chunk_blk_hash, rolling_checksum_hash, has_key, key_of, insert_chunk, Table,
  empty_table, receive_chunk, receive_chunks, search_chain, search_table,
}

abbrev or_else : Option ChunkBlock → Option ChunkBlock → Option ChunkBlock
or_else none o = o
or_else (some c) o = some c

abbrev pub if_has_key : ChunkBlock → BlockKey → Option ChunkBlock
if_has_key c k = if has_key c k then some c else none

-- The first of the blocks, in the order of their arrival, that has the key.
unfoldable pub find_first : List ChunkBlock → BlockKey → Option ChunkBlock
find_first [] k = none
find_first (c ∷ cs) k = if has_key c k then some c else find_first cs k

or_else-none : (o : Option ChunkBlock) → or_else o none ≡ o
or_else-none none = refl
or_else-none (some c) = refl

has_key-rolling : (c : ChunkBlock) (k : BlockKey) → has_key c k ≡ true → c.rolling_chksm ≡ k.rolling
unfolding has_key
has_key-rolling c k h = ground arith

-- Identical blocks have the same keys.
has_key-same :
    (x c : ChunkBlock) (k : BlockKey) → has_key x (key_of c) ≡ true → has_key x k ≡ has_key c k
unfolding has_key
has_key-same x c k h = rw (same.0, same.1, same.2)
  where
    same : (x.block_len ≡ c.block_len) × (x.rolling_chksm ≡ c.rolling_chksm) × (x.md5 ≡ c.md5)
    same = ground arith

-- A block that is inserted is found, unless the chain has its key before.
search_chain-insert_chunk :
    (xs : List ChunkBlock) (c : ChunkBlock) (k : BlockKey)
    → search_chain (insert_chunk xs c) k ≡ or_else (search_chain xs k) (if_has_key c k)
unfolding search_chain insert_chunk
search_chain-insert_chunk [] c k = ground arith
search_chain-insert_chunk (x ∷ xs) c k = ground (
  arith,
  search_chain-insert_chunk xs c k,
  or_else-none (search_chain xs k),
  has_key-same x c k,
  has_key-rolling c k,
  has_key-rolling x k,
)

search_table-receive_chunk :
    (t : Table) (c : ChunkBlock) (k : BlockKey)
    → length t ≡ chunk_blk_hash
    → search_table (receive_chunk t c) k ≡ or_else (search_table t k) (if_has_key c k)
unfolding search_table receive_chunk
search_table-receive_chunk t c k size = elim (ℕ_discrete hc hk) [
  | yes e ↦
      rw (← e, get_or-set_self t hc new [] (omega arith))
        (search_chain-insert_chunk (get_or t hc []) c k)
  | no ne ↦
      rw (get_or-set_ne t hc hk new [] ne)
        (ground (arith, has_key-rolling c k, or_else-none (search_table t k)))
]
  where
    hc : ℕ
    hc = rolling_checksum_hash c.rolling_chksm

    hk : ℕ
    hk = rolling_checksum_hash k.rolling

    new : List ChunkBlock
    new = insert_chunk (get_or t hc []) c

length-receive_chunk : (t : Table) (c : ChunkBlock) → length (receive_chunk t c) ≡ length t
unfolding receive_chunk
length-receive_chunk t c = length-set t _ _

search_table-receive_chunks :
    (t : Table) (cs : List ChunkBlock) (k : BlockKey)
    → length t ≡ chunk_blk_hash
    → search_table (receive_chunks t cs) k ≡ or_else (search_table t k) (find_first cs k)
unfolding receive_chunks find_first
search_table-receive_chunks t [] k size = sym (or_else-none (search_table t k))
search_table-receive_chunks t (c ∷ cs) k size = ground (
  arith,
  search_table-receive_chunks (receive_chunk t c) cs k,
  length-receive_chunk t c,
  search_table-receive_chunk t c k,
)

-- A table of empty chains holds nothing.
search_chain-replicate :
    (n i : ℕ) (k : BlockKey) → search_chain (get_or (replicate n []) i []) k ≡ none
unfolding search_chain
search_chain-replicate n i k = rw (get_or-replicate {A = List ChunkBlock} n i [])

length-empty_table : length empty_table ≡ chunk_blk_hash
unfolding empty_table
length-empty_table = refl

search_table-empty_table : (k : BlockKey) → search_table empty_table k ≡ none
unfolding search_table empty_table
search_table-empty_table k =
    search_chain-replicate chunk_blk_hash (rolling_checksum_hash k.rolling) k

-- Whatever blocks the receiver sends, the table finds the first of them that has the key that the
-- sender looks for, and nothing if none has it.
pub receive_chunks-eq-find_first :
    (cs : List ChunkBlock) (k : BlockKey)
    → search_table (receive_chunks empty_table cs) k ≡ find_first cs k
receive_chunks-eq-find_first cs k =
    search_table-receive_chunks empty_table cs k length-empty_table
    ∙ ap (λ o. or_else o (find_first cs k)) (search_table-empty_table k)
