-- ===== src/Rsync/Search/Start.antt =====
-- The search of rsync/src.c from the first byte: read_from_buf asks for the byte before it.
use somerubbish.Prelude.{
  ℕ, zero, suc, ◌+◌, ◌-◌, ◌%◌, ◌^◌, ◌≤◌, ◌<◌, ◌≡◌, refl, ◌∙◌, ◌⊎◌, Bool, true, false, ◌&&◌, ◌==◌,
  List, ◌++◌, none, some, ltb, leb, if◌then◌else◌, length, arith, inl, inr, dec_lt, lt→ltb,
  replicate,
}
use somerubbish.Rsync.Chunk.{Table}
use somerubbish.Rsync.Delta.{DeltaList}
use somerubbish.Rsync.Buffer.{
  Posix, HasBytes, IsPosix, every_read_bytes, Buffer, buf_init, fill_buf, read_from_buf,
}
use somerubbish.Rsync.Search.{over3, search_loop, find_dup_blocks}

-- No file offset.
abbrev before_first : ℕ
before_first = 2 ^ 64 - 1

-- An empty buffer, or one that is filled from there.
abbrev IsUseless : Buffer → Type 0
IsUseless b =
    ((b.buf_file_off ≡ 0) × (b.buf_bytes ≡ 0))
    ⊎ ((b.buf_file_off ≡ before_first) × (b.buf_bytes ≡ 1024))

module _ (p : Posix) (law : IsPosix p) (file : List ℕ) (small : length file < 2 ^ 63)
    (some_byte : 0 < length file) (len : ℕ) (pos : 0 < len) (short : len < 2 ^ 32) where
  module _ (fuel : ℕ) (b : Buffer) (size : b.buf_file_sz ≡ length file) where
    retry :
        {b' : Buffer} {refused : ℕ}
        → IsUseless b
        → fill_buf p file b before_first every_read_bytes ≡ (b', refused)
        → read_from_buf (suc fuel) p file b 0 len
          ≡ (if refused == 0 then read_from_buf fuel p file b' 0 len else some (b', none))
    unfolding read_from_buf
    retry (inl (eo, eb)) e =
        let e1 : leb ((0 + len) % 2 ^ 64) ((b.buf_file_off + b.buf_bytes) % 2 ^ 64) ≡ false =
          ground arith in
        let e2 : ltb 0 ((b.buf_file_off + b.buf_bytes) % 2 ^ 64) ≡ false = ground arith in
        let e3 : leb b.buf_file_off 0 ≡ true = ground arith in rw (e1, e2, e3, e) refl
    retry (inr (eo, eb)) e =
        let e1 : leb b.buf_file_off 0 ≡ false = ground arith in
        rw (e1, and_false (leb ((0 + len) % 2 ^ 64) ((b.buf_file_off + b.buf_bytes) % 2 ^ 64)), e)
          refl
      where
        and_false : (x : Bool) → (x && false) ≡ false
        and_false true = refl
        and_false false = refl

    abbrev filled_at : (bytes : List ℕ) → Buffer
    filled_at bytes = record b {
      buf = bytes ++ replicate (p.bufsiz - length bytes) 0;
      pos = b.pos + length bytes;
    }

    fill_buf_full :
        (v : HasBytes file b.pos every_read_bytes (p.read file b.pos every_read_bytes))
        → length v.bytes ≡ 1024
        → fill_buf p file b before_first every_read_bytes ≡ (
          record (filled_at v.bytes) { buf_file_off = before_first; buf_bytes = length v.bytes },
          0,
        )
    unfolding fill_buf
    fill_buf_full v e =
        let full : (length v.bytes == 1024) ≡ true = ground arith in
        rw (law.refuses b.pos before_first (omega arith), v.got, full) refl

    fill_buf_short :
        (v : HasBytes file b.pos every_read_bytes (p.read file b.pos every_read_bytes))
        → length v.bytes < 1024
        → length v.bytes ≤ length file
        → fill_buf p file b before_first every_read_bytes ≡ (filled_at v.bytes, 1)
    unfolding fill_buf
    fill_buf_short v lt le =
        let part : (length v.bytes == 1024) ≡ false = ground arith in
        let end : ((length v.bytes + before_first) % 2 ^ 64 == b.buf_file_sz) ≡ false =
          ground arith in
        rw
          (
            law.refuses b.pos before_first (omega arith),
            v.got,
            part,
            end,
            and_false (ltb (length v.bytes) 1024),
          )
          refl
      where
        and_false : (x : Bool) → (x && false) ≡ false
        and_false true = refl
        and_false false = refl

  read_from_buf_null :
      (fuel : ℕ) (b : Buffer)
      → b.buf_file_sz ≡ length file
      → IsUseless b
      → length file - b.pos < fuel
      → (b' : Buffer) × (read_from_buf fuel p file b 0 len ≡ some (b', none))
  read_from_buf_null zero b size u enough = absurd (omega arith)
  read_from_buf_null (suc fuel) b size u enough =
      let v = law.reads file b.pos every_read_bytes in
      let m = v.many in
      elim (dec_lt (length v.bytes) 1024) [
        | yes lt ↦ (
          filled_at fuel b size v.bytes,
          retry fuel b size u (fill_buf_short fuel b size v lt (omega arith)),
        )
        | no ge ↦
            let full : length v.bytes ≡ 1024 = omega arith in
            let b1 = record (filled_at fuel b size v.bytes) {
              buf_file_off = before_first;
              buf_bytes = length v.bytes;
            } in
            let (b', e) = read_from_buf_null fuel b1 size (inr (refl, full)) (omega arith) in
            (b', retry fuel b size u (fill_buf_full fuel b size v full) ∙ e)
      ]

-- In a file with bytes, and fewer than 2 ^ 63, for blocks of at least a byte, and with fuel for the
-- bytes of the file, the search ends at `over3` in its first round: read_from_buf seeks to 2 ^ 64 - 1
-- and returns NULL.
pub find_dup_blocks-over3 :
    (fuel : ℕ) (p : Posix) (md5 : List ℕ → ℕ) (file : List ℕ) (t : Table) (b : Buffer)
    (l : DeltaList) (block_sz : ℕ)
    → IsPosix p
    → 0 < length file
    → length file < 2 ^ 63
    → 0 < block_sz
    → block_sz < 2 ^ 32
    → length file < fuel
    → find_dup_blocks fuel p md5 file t b l (length file) block_sz ≡ some over3
unfolding find_dup_blocks search_loop buf_init
find_dup_blocks-over3 zero p md5 file t b l block_sz law some_byte small pos short enough =
    absurd (omega arith)
find_dup_blocks-over3 (suc fuel) p md5 file t b l block_sz law some_byte small pos short enough =
    let (b', e) =
      read_from_buf_null p law file small some_byte block_sz pos short (suc (suc (suc fuel)))
        (record b { buf_file_sz = length file; buf_file_off = 0; buf_bytes = 0 }) refl
        (inl (refl, refl)) (omega arith) in
    let test : ltb 0 (length file) ≡ true = lt→ltb 0 (length file) some_byte in rw (test, e) refl
