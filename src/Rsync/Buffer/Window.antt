-- ===== src/Rsync/Buffer/Window.antt =====
-- What the buffer of rsync/src.c holds of the file, and what read_from_buf gives of it.
use somerubbish.Prelude.{
  ℕ, zero, suc, ◌+◌, ◌-◌, ◌%◌, ◌^◌, ◌≤◌, ◌<◌, ◌≡◌, refl, ap, ap₂, sym, subst, ◌∙◌, min, Bool, true,
  false, ◌&&◌, ◌||◌, List, [], ◌∷◌, ◌++◌, Option, some, ltb, leb, ◌==◌, length, length-append,
  get_or, replicate, arith, ◌⊎◌, inl, inr,
}
use somerubbish.Rsync.Buffer.{
  Posix, HasBytes, IsPosix, every_read_bytes, Buffer, fill_buf, read_from_buf,
}

-- The bytes in the buffer are those of the file from `buf_file_off` on.
pub record IsWindow (file : List ℕ) (b : Buffer) : Type 0 where
  pub size : b.buf_file_sz ≡ length file
  pub inside : b.buf_file_off + b.buf_bytes ≤ length file
  pub filled : b.buf_bytes ≤ length b.buf
  pub same : (j : ℕ) → j < b.buf_bytes → get_or b.buf j 0 ≡ get_or file (b.buf_file_off + j) 0

-- The answer is a pointer to the bytes at the offset, as many as asked for or as the file has, and
-- the byte before them stands before them in the buffer.
pub record Reads (file : List ℕ) (offset bytes : ℕ) (o : Option (Buffer × Option (ℕ × ℕ)))
    : Type 0 where
  pub after : Buffer
  pub index : ℕ
  pub ends : o ≡ some (after, some (suc index, min bytes (length file - offset)))
  pub window : IsWindow file after
  pub before : after.buf_file_off < offset
  pub held : suc index + min bytes (length file - offset) ≤ length after.buf
  pub bytes_there :
      (j : ℕ)
      → j ≤ min bytes (length file - offset)
      → get_or after.buf (index + j) 0 ≡ get_or file (offset - 1 + j) 0

module _ (p : Posix) (file : List ℕ) (offset bytes : ℕ) (small : length file < 2 ^ 63)
    (few : bytes < 1024) (inside : offset < length file) where
  module _ (fuel : ℕ) (b : Buffer) (w : IsWindow file b) (lt : b.buf_file_off < offset) where
    hit :
        offset + bytes ≤ b.buf_file_off + b.buf_bytes
        → read_from_buf (suc fuel) p file b offset bytes
          ≡ some (b, some (offset - b.buf_file_off, bytes))
    unfolding read_from_buf
    hit le =
        let s = w.inside in
        let e1 : leb ((offset + bytes) % 2 ^ 64) ((b.buf_file_off + b.buf_bytes) % 2 ^ 64) ≡ true =
          ground arith in
        let e2 : leb b.buf_file_off offset ≡ true = ground arith in rw (e1, e2) refl

    hit_end :
        b.buf_file_off + b.buf_bytes ≡ length file
        → length file < offset + bytes
        → read_from_buf (suc fuel) p file b offset bytes
          ≡ some (b, some (offset - b.buf_file_off, length file - offset))
    unfolding read_from_buf
    hit_end e le =
        let s = w.size in
        let last = b.buf_file_off + b.buf_bytes in
        let e1 : leb ((offset + bytes) % 2 ^ 64) (last % 2 ^ 64) ≡ false = ground arith in
        let e2 : leb b.buf_file_off offset ≡ true = ground arith in
        let e3 : ltb offset (last % 2 ^ 64) ≡ true = ground arith in
        let e4 : leb (last % 2 ^ 64) ((offset + bytes) % 2 ^ 64) ≡ true = ground arith in
        let e5 : (last % 2 ^ 64 == b.buf_file_sz) ≡ true = ground arith in
        let e6 : (last % 2 ^ 64 - offset) % 2 ^ 32 ≡ length file - offset = omega arith in
        rw (e1, e2, e3, e4, e5, e6) refl

    here-Reads :
        (index : ℕ)
        → offset - b.buf_file_off ≡ suc index
        → offset + min bytes (length file - offset) ≤ b.buf_file_off + b.buf_bytes
        → read_from_buf (suc fuel) p file b offset bytes
          ≡ some (b, some (suc index, min bytes (length file - offset)))
        → Reads file offset bytes (read_from_buf (suc fuel) p file b offset bytes)
    here-Reads index e le ends = record {
      after = b;
      index = index;
      ends = ends;
      window = w;
      before = lt;
      held = let f = w.filled in omega arith;
      bytes_there =
          λ j few. w.same (index + j) (omega arith) ∙ ap (λ a. get_or file a 0) (omega arith);
    }

    settled :
        (offset + bytes ≤ b.buf_file_off + b.buf_bytes)
          ⊎ ((b.buf_file_off + b.buf_bytes ≡ length file) × (length file < offset + bytes))
        → Reads file offset bytes (read_from_buf (suc fuel) p file b offset bytes)
    settled (inl le) =
        let s = w.inside in
        here-Reads (offset - b.buf_file_off - 1) (omega arith) (omega arith)
          (hit le ∙ ap₂ (λ i n. some (b, some (i, n))) (omega arith) (omega arith))
    settled (inr (e, le)) =
        here-Reads (offset - b.buf_file_off - 1) (omega arith) (omega arith)
          (hit_end e le ∙ ap₂ (λ i n. some (b, some (i, n))) (omega arith) (omega arith))

    miss :
        {b' : Buffer}
        → b.buf_file_off + b.buf_bytes < offset + bytes
        → b.buf_file_off + b.buf_bytes < length file
        → fill_buf p file b (offset - 1) every_read_bytes ≡ (b', 0)
        → read_from_buf (suc fuel) p file b offset bytes ≡ read_from_buf fuel p file b' offset bytes
    unfolding read_from_buf
    miss short below e =
        let s = w.size in
        let last = b.buf_file_off + b.buf_bytes in
        let e1 : leb ((offset + bytes) % 2 ^ 64) (last % 2 ^ 64) ≡ false = ground arith in
        let e2 : leb b.buf_file_off offset ≡ true = ground arith in
        let e5 : (last % 2 ^ 64 == b.buf_file_sz) ≡ false = ground arith in
        let e6 : (offset + 2 ^ 64 - 1) % 2 ^ 64 ≡ offset - 1 = omega arith in
        rw
          (
            e1,
            e2,
            e5,
            both_false (ltb offset (last % 2 ^ 64))
                (leb (last % 2 ^ 64) ((offset + bytes) % 2 ^ 64)),
            e6,
            e,
          )
          refl
      where
        both_false : (x y : Bool) → (x && (y && false)) ≡ false
        both_false true true = refl
        both_false true false = refl
        both_false false y = refl

-- Filled from one byte before the offset.
module _ (p : Posix) (law : IsPosix p) (file : List ℕ) (small : length file < 2 ^ 63) (b : Buffer)
    (size : b.buf_file_sz ≡ length file) (off : ℕ) (inside : off < length file) where
  abbrev filled_with : (bytes : List ℕ) → Buffer
  filled_with bytes = record {
    buf = bytes ++ replicate (p.bufsiz - length bytes) 0;
    buf_file_sz = b.buf_file_sz;
    buf_file_off = off;
    buf_bytes = length bytes;
    pos = off + length bytes;
  }

  fill_buf-filled_with :
      (v : HasBytes file off every_read_bytes (p.read file off every_read_bytes))
      → fill_buf p file b off every_read_bytes ≡ (filled_with v.bytes, 0)
  unfolding fill_buf
  fill_buf-filled_with v =
      let m = v.many in
      rw (law.seeks b.pos off (omega arith), v.got, accepted (length v.bytes) m) refl
    where
      accepted :
          (n : ℕ)
          → n ≡ min 1024 (length file - off)
          → ((n == 1024) || (ltb n 1024 && ((n + off) % 2 ^ 64 == b.buf_file_sz))) ≡ true
      accepted n e = ground arith

  filled-IsWindow :
      (v : HasBytes file off every_read_bytes (p.read file off every_read_bytes))
      → IsWindow file (filled_with v.bytes)
  filled-IsWindow v = record {
    size = size;
    inside = let m = v.many in omega arith;
    filled = let e = length-append v.bytes (replicate (p.bufsiz - length v.bytes) 0) in omega arith;
    same =
        λ j lt. get_or-append v.bytes (replicate (p.bufsiz - length v.bytes) 0) j lt ∙ v.same j lt;
  }
    where
      get_or-append :
          (xs ys : List ℕ) (j : ℕ) → j < length xs → get_or (xs ++ ys) j 0 ≡ get_or xs j 0
      get_or-append [] ys j lt = elim lt [ ]
      get_or-append (x ∷ xs) ys zero lt = refl
      get_or-append (x ∷ xs) ys (suc j) lt = get_or-append xs ys j (omega arith)

-- In a file of less than 2 ^ 63 bytes, with its bytes in the buffer from before the offset on, a
-- request of fewer than 1024 bytes at an offset in the file is answered within two rounds: with the
-- bytes there, as many as the file has, and with the byte before them before them in the buffer,
-- which holds bytes of the file from before the offset on as it did.
pub read_from_buf-Reads :
    (fuel : ℕ) (p : Posix) (file : List ℕ) (b : Buffer) (offset bytes : ℕ)
    → IsPosix p
    → length file < 2 ^ 63
    → bytes < 1024
    → offset < length file
    → IsWindow file b
    → b.buf_file_off < offset
    → Reads file offset bytes (read_from_buf (suc (suc fuel)) p file b offset bytes)
read_from_buf-Reads fuel p file b offset bytes law small few inside w lt =
    let last = b.buf_file_off + b.buf_bytes in
    let size = w.size in
    let within = w.inside in
    let three : ((offset + bytes ≤ last) ⊎ ((last ≡ length file) × (length file < offset + bytes)))
        ⊎ ((last < offset + bytes) × (last < length file)) =
      omega arith in
    elim three [
      | inl here ↦ settled p file offset bytes small few inside (suc fuel) b w lt here
      | inr (short, below) ↦
          let v = law.reads file (offset - 1) every_read_bytes in
          let m = v.many in
          let b' = filled_with p law file small b size (offset - 1) (omega arith) v.bytes in
          subst (Reads file offset bytes)
            (sym (
              miss p file offset bytes small few inside (suc fuel) b w lt short below
                (fill_buf-filled_with p law file small b size (offset - 1) (omega arith) v)))
            (settled p file offset bytes small few inside fuel b'
              (filled-IsWindow p law file small b size (offset - 1) (omega arith) v) (omega arith)
              (omega arith))
    ]
