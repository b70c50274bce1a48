-- ===== src/Rsync/Transfer/Rebuild.antt =====
-- The file that the receiver of rsync/dst.c makes when it had no block.
use somerubbish.Prelude.{
  ℕ, ◌+◌, ◌-◌, ◌%◌, ◌^◌, ◌≤◌, ◌<◌, ◌≡◌, refl, ap, sym, ◌∙◌, max, List, [], ◌∷◌, ◌++◌, Option, none,
  some, ltb, true, false, length, length-append, length-take, take, drop, append_assoc, append-nil,
  arith, ◌>>=◌,
}
use somerubbish.Rsync.Delta.{n_dup_block, DeltaBlock, DeltaList, update_delta_block_list}
use somerubbish.Rsync.Delta.Region.{
  region_block, added_blocks, dup_blocks, update_delta_block_list_lem,
}
use somerubbish.Rsync.Transfer.{
  Outside, IsOutside, read, copy_to, send_block, send_loop, send_delta_block, send_delta_file,
  sync_without_blocks, place_block, receive_block, receive_loop, receive_delta_file,
}
use somerubbish.Rsync.Transfer.Copies.{take-append, drop-append, drop-all, read-append}

-- A copy over the whole of an array.
copy_to_all : (xs ys : List ℕ) → length xs ≤ length ys → copy_to xs 0 ys ≡ ys
copy_to_all xs ys le =
    ap (λ q. ([] ++ ys) ++ q) (drop-all (0 + length ys) xs (omega arith)) ∙ append-nil ys

-- The struct, and the bytes behind it.
copy-take :
    (buf head bytes : List ℕ) (n : ℕ)
    → length head ≡ n
    → n + length bytes ≤ length buf
    → take (n + length bytes) (copy_to (copy_to buf n bytes) 0 head) ≡ head ++ bytes
copy-take buf head bytes n e room =
    let rest = drop (n + length bytes) buf in
    let front : length (take n buf) ≡ n = let t = length-take n buf in omega arith in
    let behind : drop (0 + length head) (copy_to buf n bytes) ≡ bytes ++ rest =
      ap (λ q. drop (0 + length head) q) (append_assoc (take n buf) bytes rest)
      ∙ drop-append (0 + length head) (take n buf) (bytes ++ rest) (omega arith) in
    let len = length-append head bytes in
    ap (λ q. take (n + length bytes) (head ++ q)) behind
    ∙ ap (λ q. take (n + length bytes) q) (sym (append_assoc head bytes rest))
    ∙ take-append (n + length bytes) (head ++ bytes) rest (omega arith)

module _ (o : Outside) (law : IsOutside o) (file : List ℕ) (small : o.bufsiz < 2 ^ 32)
    (room : o.delta_block_entry_sz + length file ≤ o.bufsiz) where
  abbrev whole : DeltaBlock
  whole = region_block 0 (length file)

  abbrev sent : List ℕ
  sent = o.entry_bytes whole ++ file

  read_file : read o (length file) file ≡ some (file, [])
  read_file =
      ap (λ q. read o (length file) q) (sym (append-nil file))
      ∙ read-append o law (length file) file [] refl

  send_whole :
      (buf : List ℕ)
      → length buf ≡ o.bufsiz
      → send_loop o file buf o.delta_block_entry_sz (whole ∷ []) ≡ some (sent ++ [])
  unfolding send_loop send_block
  send_whole buf e =
      let fits : ltb o.bufsiz (o.delta_block_entry_sz + length file) ≡ false = ground arith in
      let size : (o.delta_block_entry_sz + length file) % 2 ^ 32
          ≡ o.delta_block_entry_sz + length file =
        omega arith in
      rw
        (
          fits,
          read_file,
          size,
          fits,
          copy-take buf (o.entry_bytes whole) file o.delta_block_entry_sz (law.entry_length whole)
              (omega arith),
        )
        refl

  place_whole :
      (dst : List ℕ) (block_sz : ℕ) (new : List ℕ) (b : DeltaBlock)
      → length new ≤ length file
      → (b.offset ≡ 0) × (b.len ≡ length file) × (b.dup_flag ≡ n_dup_block)
      → place_block o dst block_sz new b file ≡ some (file, [])
  unfolding place_block
  place_whole dst block_sz new b short (eo, el, ef) =
      let fits : ltb o.bufsiz (length file) ≡ false = ground arith in
      let rest : (0 - length new) ≡ 0 = omega arith in
      rw (ef, el, eo, fits, read_file, rest, append-nil new)
        (ap (λ q. some (q, [])) (copy_to_all new file short))

  receive_whole :
      (dst : List ℕ) (block_sz : ℕ) (new : List ℕ)
      → length new ≤ length file
      → receive_loop o dst block_sz 1 new (sent ++ []) ≡ some file
  unfolding receive_loop receive_block
  receive_whole dst block_sz new short =
      let head_read : Option (List ℕ × List ℕ) → Option (List ℕ) = λ r.
        r
        >>= (λ (head, body). place_block o dst block_sz new (o.entry_of head) body)
        >>= (λ (new', socket'). receive_loop o dst block_sz 0 new' socket') in
      let placed : Option (List ℕ × List ℕ) → Option (List ℕ) =
        λ r. r >>= (λ (new', socket'). receive_loop o dst block_sz 0 new' socket') in
      ap (λ q. head_read (read o o.delta_block_entry_sz q)) (append-nil sent)
      ∙ ap head_read (
          read-append o law o.delta_block_entry_sz (o.entry_bytes whole) file
            (law.entry_length whole))
      ∙ ap placed (
          place_whole dst block_sz new (o.entry_of (o.entry_bytes whole)) short
            (law.entry_copy whole (omega arith) (omega arith)))

-- For a file of at least a block that fits into a buffer behind a struct, where the receiver had no
-- block and the new file is not longer, what the sender writes to the socket makes the new file the
-- file of the sender, whatever the calls of read give.
pub sync_without_blocks-rebuilds :
    (o : Outside) (file buf dst new : List ℕ) (block_sz : ℕ)
    → IsOutside o
    → o.bufsiz < 2 ^ 32
    → o.delta_block_entry_sz + length file ≤ o.bufsiz
    → 0 < length file
    → block_sz ≤ length file
    → length buf ≡ o.bufsiz
    → length new ≤ length file
    → (out : List ℕ) × (sync_without_blocks o file buf block_sz ≡ some out)
      × (receive_delta_file o dst block_sz new out ≡ some file)
unfolding sync_without_blocks send_delta_file send_delta_block receive_delta_file added_blocks
    dup_blocks
sync_without_blocks-rebuilds o file buf dst new block_sz law small room some_byte enough e short =
    let l : DeltaList = record { blocks = whole o law file small room ∷ []; delta_block_nr = 1 } in
    let none_yet : DeltaList = record { blocks = []; delta_block_nr = 0 } in
    let first : ltb 0 (length file) ≡ true = ground arith in
    let longest : max (length file - 0) block_sz ≡ length file = omega arith in
    let made : update_delta_block_list none_yet 0 (length file) 0 none block_sz ≡ some l =
      update_delta_block_list_lem none_yet 0 (length file) 0 none block_sz (omega arith)
        (omega arith) (omega arith)
      ∙ rw (first, longest) refl in
    let head = o.header_bytes 1 in
    let body = sent o law file small room ++ [] in
    let header : o.header_of head ≡ 1 = law.header_copy 1 (omega arith) in
    (
      head ++ body,
      ap (λ r. r >>= (λ l. send_delta_file o file buf l)) made
          ∙ ap (λ r. r >>= (λ out. some (head ++ out))) (send_whole o law file small room buf e),
      ap
            (λ r. r >>= (λ (head, body).
              receive_loop o dst block_sz (o.header_of head % 2 ^ 32) new body))
            (read-append o law o.delta_file_header_sz head body (law.header_length 1))
          ∙ ap (λ n. receive_loop o dst block_sz (n % 2 ^ 32) new body) header
          ∙ receive_whole o law file small room dst block_sz new short,
    )
