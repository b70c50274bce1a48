-- ===== src/Tests/Transfer.antt =====
-- Runs of the transfer of rsync/: five bytes to a receiver without a block, a byte at a time.
use somerubbish.Prelude.{
  ℕ, zero, suc, ◌≡◌, refl, min, List, [], ◌∷◌, Option, none, some, replicate, ◌+◌, ◌*◌, arith,
}
use somerubbish.Rsync.Checksum.{cksm_loop, cal_rollin_cksm}
use somerubbish.Rsync.Chunk.{
  ChunkBlock, has_key, insert_chunk, empty_table, receive_chunk, receive_chunks, search_chain,
  search_table,
}
use somerubbish.Rsync.Delta.{DupFlag, dup_block, n_dup_block, DeltaBlock}
use somerubbish.Rsync.Blocks.{chunk_block, chunk_loop, chunk_blocks}
use somerubbish.Rsync.Blocks.Copied.{Copied, place_block-found}
use somerubbish.Rsync.Transfer.{
  Outside, IsOutside, sync_without_blocks, receive_delta_file, read, read_loop, place_block,
}
use somerubbish.Rsync.Transfer.Rebuild.{sync_without_blocks-rebuilds}

abbrev flag_byte : DupFlag → ℕ
flag_byte dup_block = 0
flag_byte n_dup_block = 1

abbrev flag_of : ℕ → DupFlag
flag_of zero = dup_block
flag_of (suc n) = n_dup_block

abbrev no_bytes : Option ℕ → ℕ
no_bytes none = 0
no_bytes (some n) = suc n

abbrev no_of : ℕ → Option ℕ
no_of zero = none
no_of (suc n) = some n

abbrev get : List ℕ → ℕ → ℕ
get [] n = 0
get (x ∷ xs) zero = x
get (x ∷ xs) (suc n) = get xs n

abbrev byte_by_byte : Outside
byte_by_byte = record {
  give = λ want there. min 1 (min want there);
  bufsiz = 16;
  delta_block_entry_sz = 4;
  entry_bytes = λ b. b.offset ∷ b.len ∷ flag_byte b.dup_flag ∷ no_bytes b.dst_block_no ∷ [];
  entry_of = λ bs. record {
    offset = get bs 0;
    len = get bs 1;
    dup_flag = flag_of (get bs 2);
    dst_block_no = no_of (get bs 3);
  };
  delta_file_header_sz = 1;
  header_bytes = λ n. n ∷ [];
  header_of = λ bs. get bs 0;
}

flag_of-flag_byte : (f : DupFlag) → flag_of (flag_byte f) ≡ f
flag_of-flag_byte dup_block = refl
flag_of-flag_byte n_dup_block = refl

byte_by_byte-IsOutside : IsOutside byte_by_byte
byte_by_byte-IsOutside = record {
  gives = λ want there a b. omega arith;
  at_most = λ want there. (omega arith, omega arith);
  entry_length = λ b. refl;
  entry_copy = λ b lt lt'. (refl, refl, flag_of-flag_byte b.dup_flag);
  header_length = λ n. refl;
  header_copy = λ n lt. refl;
}

abbrev hello : List ℕ
hello = 104 ∷ 101 ∷ 108 ∷ 108 ∷ 111 ∷ []

sync_without_blocks-rebuilds_example :
    (out : List ℕ) × (sync_without_blocks byte_by_byte hello (replicate 16 0) 2 ≡ some out)
    × (receive_delta_file byte_by_byte [] 2 [] out ≡ some hello)
sync_without_blocks-rebuilds_example =
    sync_without_blocks-rebuilds byte_by_byte hello (replicate 16 0) [] [] 2 byte_by_byte-IsOutside
      (omega arith) (omega arith) (omega arith) (omega arith) refl (omega arith)

-- A file of one byte, whose digest is the byte.
abbrev first_byte : List ℕ → ℕ
first_byte bytes = get bytes 0

abbrev chunk_of_seven : ChunkBlock
chunk_of_seven = record { block_no = 0; block_len = 1; rolling_chksm = 7 + 32 * 7 * 65536; md5 = 7 }

sent_seven : chunk_blocks byte_by_byte first_byte (7 ∷ []) ≡ some (chunk_of_seven ∷ [])
unfolding chunk_blocks chunk_loop chunk_block read read_loop cal_rollin_cksm cksm_loop
sent_seven = refl

abbrev duplicate_of_seven : DeltaBlock
duplicate_of_seven = record { offset = 1; len = 1; dup_flag = dup_block; dst_block_no = some 0 }

found_seven :
    search_table
      (receive_chunks empty_table (chunk_of_seven ∷ []))
      record { len = 1; rolling = chunk_of_seven.rolling_chksm; digest = 7 }
    ≡ some chunk_of_seven
unfolding search_table search_chain receive_chunks receive_chunk insert_chunk has_key empty_table
found_seven = refl

place_block-found_example :
    Copied first_byte
      (7 ∷ [])
      (5 ∷ [])
      (9 ∷ [])
      duplicate_of_seven
      chunk_of_seven
      7
      (place_block byte_by_byte (7 ∷ []) 32 (5 ∷ []) duplicate_of_seven (9 ∷ []))
place_block-found_example =
    place_block-found byte_by_byte first_byte (7 ∷ []) (5 ∷ []) (9 ∷ []) (chunk_of_seven ∷ [])
      duplicate_of_seven chunk_of_seven.rolling_chksm 7 chunk_of_seven byte_by_byte-IsOutside
      (omega arith) sent_seven found_seven refl refl (omega arith)
