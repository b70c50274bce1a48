-- ===== src/Rsync/Blocks/Copied.antt =====
-- The blocks of rsync/dst.c, and what the receiver copies for a duplicate.
use somerubbish.Prelude.{
  ℕ, zero, suc, ◌+◌, ◌*◌, ◌%◌, ◌^◌, ◌≤◌, ◌<◌, ◌≡◌, refl, ap, sym, subst, ◌∙◌, true, false,
  Bool-cases, inl, inr, List, [], ◌∷◌, Option, some, ltb, if◌then◌else◌, length, length-take,
  length-drop, get_or, take, drop, ◌>>=◌, arith,
}
use somerubbish.Rsync.Checksum.{cal_rollin_cksm}
use somerubbish.Rsync.Chunk.{
  ChunkBlock, BlockKey, search_table, has_key, empty_table, receive_chunks,
}
use somerubbish.Rsync.Chunk.Dictionary.{find_first, receive_chunks-eq-find_first}
use somerubbish.Rsync.Delta.{dup_block, DeltaBlock}
use somerubbish.Rsync.Transfer.{Outside, IsOutside, read, write_file, place_block}
use somerubbish.Rsync.Transfer.Copies.{read-takes}
use somerubbish.Rsync.Blocks.{block_sz, block_nr, chunk_len, chunk_block, chunk_loop, chunk_blocks}

-- A block with the digest of the bytes of the file where it stands.
abbrev pub IsMade : (md5 : List ℕ → ℕ) → (file : List ℕ) → ChunkBlock → Type 0
IsMade md5 file c =
    (c.block_no * block_sz + c.block_len ≤ length file)
    × (c.md5 ≡ md5 (take c.block_len (drop (c.block_no * block_sz) file)))

abbrev pub AllMade : (md5 : List ℕ → ℕ) → (file : List ℕ) → List ChunkBlock → Type 0
AllMade md5 file [] = Unit
AllMade md5 file (c ∷ cs) = IsMade md5 file c × AllMade md5 file cs

module _ (o : Outside) (law : IsOutside o) (md5 : List ℕ → ℕ) (file : List ℕ)
    (small : length file < 2 ^ 32) where
  chunk_block-IsMade :
      (i : ℕ)
      → i * block_sz < length file
      → (c : ChunkBlock) × (chunk_block o md5 file i ≡ some c) × IsMade md5 file c
  unfolding chunk_block
  chunk_block-IsMade i lt =
      let off : i * block_sz % 2 ^ 32 ≡ i * block_sz = omega arith in
      let room : i * block_sz + chunk_len (length file) (i * block_sz) ≤ length file =
        ground arith in
      let d = length-drop (i * block_sz) file in
      let len = chunk_len (length file) (i * block_sz) in
      let made : List ℕ → ChunkBlock = λ bytes. record {
        block_no = i;
        block_len = len;
        rolling_chksm = (cal_rollin_cksm (λ k. get_or bytes k 0) 0 block_sz).skl;
        md5 = md5 bytes;
      } in
      let done : Option (List ℕ × List ℕ) → Option ChunkBlock =
        λ r. r >>= (λ (bytes, left). some (made bytes)) in
      let at : ℕ → Option ChunkBlock = λ off.
        read o (chunk_len (length file) off) (drop off file) >>= (λ (bytes, left). some record {
          block_no = i;
          block_len = chunk_len (length file) off;
          rolling_chksm = (cal_rollin_cksm (λ k. get_or bytes k 0) 0 block_sz).skl;
          md5 = md5 bytes;
        }) in
      (
        made (take len (drop (i * block_sz) file)),
        ap at off ∙ ap done (read-takes o law len (drop (i * block_sz) file) (omega arith)),
        (room, refl),
      )

  chunk_loop-AllMade :
      (rounds i : ℕ)
      → i + rounds ≤ block_nr (length file)
      → (cs : List ChunkBlock) × (chunk_loop rounds o md5 file i ≡ some cs) × AllMade md5 file cs
  unfolding chunk_loop
  chunk_loop-AllMade zero i le = ([], refl, tt)
  chunk_loop-AllMade (suc rounds) i le =
      let inside : i * block_sz < length file = ground arith in
      let (c, e, made) = chunk_block-IsMade i inside in
      let next : (i + 1) % 2 ^ 32 ≡ i + 1 = omega arith in
      let (cs, e', all) = chunk_loop-AllMade rounds (i + 1) (omega arith) in
      let with : Option ChunkBlock → ℕ → Option (List ChunkBlock) =
        λ b k. b >>= (λ c. chunk_loop rounds o md5 file k >>= (λ cs. some (c ∷ cs))) in
      (
        c ∷ cs,
        ap (λ b. with b ((i + 1) % 2 ^ 32)) e
            ∙ ap (with (some c)) next
            ∙ ap (λ r. r >>= (λ cs. some (c ∷ cs))) e',
        (made, all),
      )

  pub chunk_blocks-AllMade :
      (cs : List ChunkBlock) × (chunk_blocks o md5 file ≡ some cs) × AllMade md5 file cs
  unfolding chunk_blocks
  chunk_blocks-AllMade = chunk_loop-AllMade (block_nr (length file)) 0 (omega arith)

has_key-fields :
    (c : ChunkBlock) (k : BlockKey)
    → has_key c k ≡ true
    → (c.block_len ≡ k.len) × (c.md5 ≡ k.digest)
unfolding has_key
has_key-fields c k h = ground arith

-- A block that is found in such a list.
find_first-IsMade :
    (md5 : List ℕ → ℕ) (file : List ℕ) (cs : List ChunkBlock) (k : BlockKey) (c : ChunkBlock)
    → AllMade md5 file cs
    → find_first cs k ≡ some c
    → IsMade md5 file c × (c.block_len ≡ k.len) × (c.md5 ≡ k.digest)
unfolding find_first
find_first-IsMade md5 file [] k c v e = absurd cc
find_first-IsMade md5 file (x ∷ cs) k c (made, v) e = elim (Bool-cases (has_key x k)) [
  | inl h ↦
      let (el, em) = has_key-fields x k h in
      let same : x ≡ c = some_eq (sym (pick h) ∙ e) in
      subst (λ c. IsMade md5 file c × (c.block_len ≡ k.len) × (c.md5 ≡ k.digest)) same
        (made, el, em)
  | inr h ↦ find_first-IsMade md5 file cs k c v (sym (skip h) ∙ e)
]
  where
    pick : has_key x k ≡ true → (if has_key x k then some x else find_first cs k) ≡ some x
    pick h = rw h refl

    skip : has_key x k ≡ false → (if has_key x k then some x else find_first cs k) ≡ find_first cs k
    skip h = rw h refl

    some_eq : {a b : ChunkBlock} → some a ≡ some b → a ≡ b
    some_eq q = cc

-- What the receiver copies for a duplicate: bytes of the old file from the start of a block on, of
-- the duplicate's length and with the digest that was looked up; and these go to its offset in the
-- new file.
abbrev pub Copied :
    (md5 : List ℕ → ℕ) (dst new socket : List ℕ) (b : DeltaBlock) (c : ChunkBlock) (digest : ℕ)
    → Option (List ℕ × List ℕ)
    → Type 0
Copied md5 dst new socket b c digest o =
    (bytes : List ℕ) × (o ≡ some (write_file new b.offset bytes, socket))
    × (bytes ≡ take b.len (drop (c.block_no * block_sz) dst))
    × (length bytes ≡ b.len)
    × (md5 bytes ≡ digest)

-- With the digests of an old file of less than 4 GB in the table, a duplicate of the block that the
-- search of the table gives for a length and a digest is copied whole by the receiver from the old
-- file: the bytes of this block, which are inside the file and have that length and that digest.
pub place_block-found :
    (o : Outside) (md5 : List ℕ → ℕ) (dst new socket : List ℕ) (cs : List ChunkBlock)
    (b : DeltaBlock) (r digest : ℕ) (c : ChunkBlock)
    → IsOutside o
    → length dst < 2 ^ 32
    → chunk_blocks o md5 dst ≡ some cs
    → search_table
        (receive_chunks empty_table cs)
        record { len = b.len; rolling = r; digest = digest }
      ≡ some c
    → b.dup_flag ≡ dup_block
    → b.dst_block_no ≡ some c.block_no
    → b.len ≤ o.bufsiz
    → Copied md5 dst new socket b c digest (place_block o dst block_sz new b socket)
unfolding place_block
place_block-found o md5 dst new socket cs b r digest c law small sent found flag no_is fits =
    let (cs', e, all) = chunk_blocks-AllMade o law md5 dst small in
    let same : cs' ≡ cs = some_eq (sym e ∙ sent) in
    let key : BlockKey = record { len = b.len; rolling = r; digest = digest } in
    let ((room, made), len, match) =
      find_first-IsMade md5 dst cs key c (subst (AllMade md5 dst) same all)
        (sym (receive_chunks-eq-find_first cs key) ∙ found) in
    let d = length-drop (c.block_no * block_sz) dst in
    let taken = length-take b.len (drop (c.block_no * block_sz) dst) in
    let off : c.block_no * block_sz % 2 ^ 64 ≡ c.block_no * block_sz = omega arith in
    let short : ltb o.bufsiz b.len ≡ false = ground arith in
    (
      take b.len (drop (c.block_no * block_sz) dst),
      rw
          (
            flag,
            no_is,
            short,
            off,
            read-takes o law b.len (drop (c.block_no * block_sz) dst) (omega arith),
          )
          refl,
      refl,
      omega arith,
      ap (λ n. md5 (take n (drop (c.block_no * block_sz) dst))) (sym len) ∙ sym made ∙ match,
    )
  where
    some_eq : {xs ys : List ChunkBlock} → some xs ≡ some ys → xs ≡ ys
    some_eq q = cc
