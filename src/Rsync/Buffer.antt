-- ===== src/Rsync/Buffer.antt =====
-- The buffer of rsync/src.c over the file that it sends. lseek, read and BUFSIZ are the record Posix.
pub mod Window
use somerubbish.Prelude.{
  ℕ, zero, suc, ◌+◌, ◌-◌, ◌%◌, ◌^◌, ◌≤◌, ◌<◌, ◌≡◌, min, Bool, ◌&&◌, ◌||◌, List, [], ◌++◌, Option,
  none, some, ltb, leb, ◌==◌, if◌then◌else◌, length, get_or, replicate,
}

-- `lseek(fd,off,SEEK_SET)` gives the position after the call, and `read` the bytes at a position,
-- or `none` when it fails.
pub record Posix : Type 0 where
  pub lseek : (pos off : ℕ) → ℕ
  pub read : (file : List ℕ) (pos len : ℕ) → Option (List ℕ)
  pub bufsiz : ℕ

-- The bytes of a file from a position on.
pub record HasBytes (file : List ℕ) (pos len : ℕ) (o : Option (List ℕ)) : Type 0 where
  pub bytes : List ℕ
  pub got : o ≡ some bytes
  pub many : length bytes ≡ min len (length file - pos)
  pub same : (j : ℕ) → j < length bytes → get_or bytes j 0 ≡ get_or file (pos + j) 0

-- An offset that is a nonnegative `off_t` is taken, another leaves the position; a read of a
-- regular file gives what is there; a buffer has room for a read.
pub record IsPosix (p : Posix) : Type 0 where
  pub seeks : (pos off : ℕ) → off < 2 ^ 63 → p.lseek pos off ≡ off
  pub refuses : (pos off : ℕ) → 2 ^ 63 ≤ off → p.lseek pos off ≡ pos
  pub reads : (file : List ℕ) (pos len : ℕ) → HasBytes file pos len (p.read file pos len)
  pub room : 1024 ≤ p.bufsiz

-- `EVERY_READ_BYTES`.
abbrev pub every_read_bytes : ℕ
every_read_bytes = 1024

-- `buf`, the variables beside it, and the position of `buf_file_fd`.
pub record Buffer : Type 0 where
  pub buf : List ℕ
  pub buf_file_sz : ℕ
  pub buf_file_off : ℕ
  pub buf_bytes : ℕ
  pub pos : ℕ

unfoldable pub buf_init : Buffer → (file_sz : ℕ) → Buffer
buf_init b file_sz = record b { buf_file_sz = file_sz; buf_file_off = 0; buf_bytes = 0 }

-- The `u32` that is left of what `read` returns, with the bytes; -1 is a failure.
abbrev pub read_count : Option (List ℕ) → ℕ
read_count none = 2 ^ 32 - 1
read_count (some bytes) = length bytes

abbrev pub read_bytes : Option (List ℕ) → List ℕ
read_bytes none = []
read_bytes (some bytes) = bytes

unfoldable pub fill_buf : Posix → (file : List ℕ) → Buffer → (off len : ℕ) → Buffer × ℕ
fill_buf p file b off len =
    let at = p.lseek b.pos off in
    let got = p.read file at len in
    let n = read_count got in
    let filled = record b {
      buf = read_bytes got ++ replicate (p.bufsiz - length (read_bytes got)) 0;
      pos = at + length (read_bytes got);
    } in
    if (n == len) || (ltb n len && ((n + off) % 2 ^ 64 == b.buf_file_sz))
    then (record filled { buf_file_off = off; buf_bytes = n }, 0)
    else (filled, 1)

-- Where in `buf` the bytes are, and `*n`; NULL is `none`. Each round of the retries is one of
-- fuel; `none` is its end.
unfoldable pub read_from_buf :
    (fuel : ℕ)
    → Posix
    → (file : List ℕ) → Buffer
    → (offset bytes : ℕ) → Option (Buffer × Option (ℕ × ℕ))
read_from_buf zero p file b offset bytes = none
read_from_buf (suc fuel) p file b offset bytes =
    let buf_first_byte = b.buf_file_off in
    let buf_last_byte = (b.buf_file_off + b.buf_bytes) % 2 ^ 64 in
    let req_last_byte = (offset + bytes) % 2 ^ 64 in
    let (b', refused) = fill_buf p file b ((offset + 2 ^ 64 - 1) % 2 ^ 64) every_read_bytes in
    let again = read_from_buf fuel p file b' offset bytes in
    if leb req_last_byte buf_last_byte && leb buf_first_byte offset
    then some (b, some (offset - buf_first_byte, bytes))
    else if leb buf_first_byte offset
        && (ltb offset buf_last_byte
            && (leb buf_last_byte req_last_byte && (buf_last_byte == b.buf_file_sz)))
    then some (b, some (offset - buf_first_byte, (buf_last_byte - offset) % 2 ^ 32))
    else if refused == 0
    then again
    else some (b', none)
