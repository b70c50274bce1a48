-- ===== src/Rsync/Transfer.antt =====
-- What the sender writes to its socket (send_delta_block and the end of main of rsync/src.c) and how
-- the receiver makes a file of it (the end of main of rsync/dst.c), with Read of
-- rsync/rsync_utility.c. A socket is the list of the bytes that are under way. How many bytes a call
-- of read gives and the layout of the structs are parameters; a read or a write is taken not to
-- fail.
pub mod Copies
pub mod Rebuild
use somerubbish.Prelude.{
  ℕ, zero, suc, ◌+◌, ◌-◌, ◌*◌, ◌%◌, ◌^◌, ◌≤◌, ◌<◌, ◌≡◌, List, [], ◌∷◌, ◌++◌, Option, none, some,
  ltb, ◌==◌, if◌then◌else◌, length, take, drop, replicate, ◌>>=◌,
}
use somerubbish.Rsync.Delta.{
  DupFlag, dup_block, n_dup_block, DeltaBlock, DeltaList, update_delta_block_list,
}

-- The bytes that a call of read gives, of those that it wants and those that are there; the structs
-- as bytes; BUFSIZ.
pub record Outside : Type 0 where
  pub give : (want there : ℕ) → ℕ
  pub bufsiz : ℕ
  pub delta_block_entry_sz : ℕ
  pub entry_bytes : DeltaBlock → List ℕ
  pub entry_of : List ℕ → DeltaBlock
  pub delta_file_header_sz : ℕ
  pub header_bytes : ℕ → List ℕ
  pub header_of : List ℕ → ℕ

-- A read gives a byte at least when it can, and a struct that is copied has the same fields.
pub record IsOutside (o : Outside) : Type 0 where
  pub gives : (want there : ℕ) → 0 < want → 0 < there → 0 < o.give want there
  pub at_most : (want there : ℕ) → (o.give want there ≤ want) × (o.give want there ≤ there)
  pub entry_length : (b : DeltaBlock) → length (o.entry_bytes b) ≡ o.delta_block_entry_sz
  pub entry_copy :
      (b : DeltaBlock)
      → b.offset < 2 ^ 64
      → b.len < 2 ^ 32
      → ((o.entry_of (o.entry_bytes b)).offset ≡ b.offset)
        × ((o.entry_of (o.entry_bytes b)).len ≡ b.len)
        × ((o.entry_of (o.entry_bytes b)).dup_flag ≡ b.dup_flag)
  pub header_length : (n : ℕ) → length (o.header_bytes n) ≡ o.delta_file_header_sz
  pub header_copy : (n : ℕ) → n < 2 ^ 64 → o.header_of (o.header_bytes n) ≡ n

-- The loop of Read with `n` bytes in `got`: the bytes, and those that are left. It goes on at the
-- end of a file; `none` is the end of fuel.
unfoldable pub read_loop :
    (fuel : ℕ) → Outside → (count n : ℕ) → (got from : List ℕ) → Option (List ℕ × List ℕ)
read_loop zero o count n got from = none
read_loop (suc fuel) o count n got from =
    let i = o.give (count - n) (length from) in
    let rest = read_loop fuel o count (n + i) (got ++ take i from) (drop i from) in
    if n == count then some (got, from) else rest

-- Read, with fuel for a byte in each round.
unfoldable pub read : Outside → (count : ℕ) → (from : List ℕ) → Option (List ℕ × List ℕ)
read o count from = read_loop (suc count) o count 0 [] from

-- A copy into an array.
abbrev pub copy_to : (buf : List ℕ) → (at : ℕ) → (bytes : List ℕ) → List ℕ
copy_to buf at bytes = take at buf ++ bytes ++ drop (at + length bytes) buf

-- `size_to_send`, a `u32`, for one block more.
abbrev pub add_size : DupFlag → (size_to_send d_len : ℕ) → ℕ
add_size n_dup_block size_to_send d_len = (size_to_send + d_len) % 2 ^ 32
add_size dup_block size_to_send d_len = size_to_send

-- One block of send_delta_block, with `buf` and `size_to_send` after it and the bytes that are
-- written. A copy or a write past `buf` is `none`.
unfoldable pub send_block :
    Outside
    → (file : List ℕ) → (buf : List ℕ) → (size_to_send : ℕ) → DeltaBlock
    → Option (List ℕ × ℕ × List ℕ)
send_block o file buf size_to_send dblk =
    let size = add_size dblk.dup_flag size_to_send dblk.len in
    if ltb o.bufsiz (o.delta_block_entry_sz + dblk.len)
    then none
    else read o dblk.len (drop dblk.offset file) >>= (λ (bytes, left).
      let b = copy_to (copy_to buf o.delta_block_entry_sz bytes) 0 (o.entry_bytes dblk) in
      if ltb o.bufsiz size then none else some (b, size, take size b))

-- The loop of send_delta_block.
unfoldable pub send_loop :
    Outside
    → (file : List ℕ) → (buf : List ℕ) → (size_to_send : ℕ) → List DeltaBlock
    → Option (List ℕ)
send_loop o file buf size_to_send [] = some []
send_loop o file buf size_to_send (dblk ∷ dblks) =
    send_block o file buf size_to_send dblk
    >>= (λ (b, size, written). send_loop o file b size dblks >>= (λ out. some (written ++ out)))

unfoldable pub send_delta_block : Outside → (file buf : List ℕ) → DeltaList → Option (List ℕ)
send_delta_block o file buf l = send_loop o file buf o.delta_block_entry_sz l.blocks

-- The end of main: the header and the blocks.
unfoldable pub send_delta_file : Outside → (file buf : List ℕ) → DeltaList → Option (List ℕ)
send_delta_file o file buf l =
    send_delta_block o file buf l >>= (λ out. some (o.header_bytes l.delta_block_nr ++ out))

-- main for a receiver without a block.
unfoldable pub sync_without_blocks :
    Outside → (file buf : List ℕ) → (block_sz : ℕ) → Option (List ℕ)
sync_without_blocks o file buf block_sz =
    update_delta_block_list record { blocks = []; delta_block_nr = 0 } 0 (length file) 0 none
      block_sz
    >>= (λ l. send_delta_file o file buf l)

-- lseek and Write on the new file; a gap is filled with zeros.
abbrev pub write_file : (file : List ℕ) → (off : ℕ) → (bytes : List ℕ) → List ℕ
write_file file off bytes = copy_to (file ++ replicate (off - length file) 0) off bytes

-- What the receiver does with a block: the new file, and what is left in the socket. The bytes of a
-- duplicate are in the old file `dst`.
unfoldable pub place_block :
    Outside
    → (dst : List ℕ) → (block_sz : ℕ) → (new : List ℕ) → DeltaBlock
    → (socket : List ℕ) → Option (List ℕ × List ℕ)
place_block o dst block_sz new dblk socket =
    if ltb o.bufsiz dblk.len then none else (elim dblk.dup_flag [
      | n_dup_block ↦
          read o dblk.len socket
          >>= (λ (bytes, left). some (write_file new dblk.offset bytes, left))
      | dup_block ↦ elim dblk.dst_block_no [
        | none ↦ none
        | some dst_no ↦
            read o dblk.len (drop (dst_no * block_sz % 2 ^ 64) dst)
            >>= (λ (bytes, left). some (write_file new dblk.offset bytes, socket))
      ]
    ])

unfoldable pub receive_block :
    Outside → (dst : List ℕ) → (block_sz : ℕ) → (new socket : List ℕ) → Option (List ℕ × List ℕ)
receive_block o dst block_sz new socket =
    read o o.delta_block_entry_sz socket
    >>= (λ (head, body). place_block o dst block_sz new (o.entry_of head) body)

unfoldable pub receive_loop :
    Outside → (dst : List ℕ) → (block_sz dblk_nr : ℕ) → (new socket : List ℕ) → Option (List ℕ)
receive_loop o dst block_sz zero new socket = some new
receive_loop o dst block_sz (suc dblk_nr) new socket =
    receive_block o dst block_sz new socket
    >>= (λ (new', socket'). receive_loop o dst block_sz dblk_nr new' socket')

-- The receiver from the header on, with what the new file has when it is opened; `dblk_nr` is a
-- `u32`.
unfoldable pub receive_delta_file :
    Outside → (dst : List ℕ) → (block_sz : ℕ) → (new socket : List ℕ) → Option (List ℕ)
receive_delta_file o dst block_sz new socket =
    read o o.delta_file_header_sz socket
    >>= (λ (head, body). receive_loop o dst block_sz (o.header_of head % 2 ^ 32) new body)
