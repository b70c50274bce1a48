-- ===== src/Tests/Sender.antt =====
-- Runs of the buffer and of the search of rsync/src.c over a file of five bytes.
use somerubbish.Prelude.{
  ℕ, zero, suc, ◌+◌, ◌^◌, ◌<◌, ◌≡◌, refl, List, [], ◌∷◌, some, ltb, if◌then◌else◌, length,
  length-take, length-drop, get_or, take, drop, true, false, arith, ◌∙◌, ap, sym,
}
use somerubbish.Rsync.Chunk.{empty_table}
use somerubbish.Rsync.Delta.{DeltaList}
use somerubbish.Rsync.Buffer.{Posix, IsPosix, Buffer, read_from_buf}
use somerubbish.Rsync.Buffer.Window.{IsWindow, Reads, read_from_buf-Reads}
use somerubbish.Rsync.Search.{over3, find_dup_blocks}
use somerubbish.Rsync.Search.Start.{find_dup_blocks-over3}

abbrev posix : Posix
posix = record {
  lseek = λ pos off. if ltb off (2 ^ 63) then off else pos;
  read = λ file pos len. some (take len (drop pos file));
  bufsiz = 8192;
}

get_or-take-drop :
    (len pos : ℕ) (file : List ℕ) (j : ℕ)
    → j < length (take len (drop pos file))
    → get_or (take len (drop pos file)) j 0 ≡ get_or file (pos + j) 0
get_or-take-drop zero pos file j lt = absurd (omega arith)
get_or-take-drop (suc len) (suc pos) [] j lt = absurd (omega arith)
get_or-take-drop (suc len) (suc pos) (x ∷ file) j lt =
    let shift : suc pos + j ≡ suc (pos + j) = omega arith in
    get_or-take-drop (suc len) pos file j lt ∙ sym (ap (λ a. get_or (x ∷ file) a 0) shift)
get_or-take-drop (suc len) zero [] j lt = absurd (omega arith)
get_or-take-drop (suc len) zero (x ∷ file) zero lt = refl
get_or-take-drop (suc len) zero (x ∷ file) (suc j) lt =
    let here : 0 + j ≡ j = omega arith in
    let next : 0 + suc j ≡ suc j = omega arith in
    get_or-take-drop len zero file j (omega arith)
    ∙ ap (λ a. get_or file a 0) here
    ∙ sym (ap (λ a. get_or (x ∷ file) a 0) next)

posix-IsPosix : IsPosix posix
posix-IsPosix = record {
  seeks = λ pos off lt. let e : ltb off (2 ^ 63) ≡ true = ground arith in rw e refl;
  refuses = λ pos off le. let e : ltb off (2 ^ 63) ≡ false = ground arith in rw e refl;
  reads = λ file pos len. record {
    bytes = take len (drop pos file);
    got = refl;
    many = let e = length-take len (drop pos file) in let e' = length-drop pos file in omega arith;
    same = get_or-take-drop len pos file;
  };
  room = omega arith;
}

abbrev five_bytes : List ℕ
five_bytes = 104 ∷ 101 ∷ 108 ∷ 108 ∷ 111 ∷ []

abbrev empty_buffer : Buffer
empty_buffer = record { buf = []; buf_file_sz = 5; buf_file_off = 0; buf_bytes = 0; pos = 0 }

empty_buffer-IsWindow : IsWindow five_bytes empty_buffer
empty_buffer-IsWindow = record {
  size = refl;
  inside = omega arith;
  filled = omega arith;
  same = λ j lt. absurd (omega arith);
}

read_from_buf-Reads_example :
    Reads five_bytes 3 4 (read_from_buf 2 posix five_bytes empty_buffer 3 4)
read_from_buf-Reads_example =
    read_from_buf-Reads 0 posix five_bytes empty_buffer 3 4 posix-IsPosix (omega arith)
      (omega arith) (omega arith) empty_buffer-IsWindow (omega arith)

abbrev digest : List ℕ → ℕ
digest bytes = length bytes

abbrev no_blocks : DeltaList
no_blocks = record { blocks = []; delta_block_nr = 0 }

find_dup_blocks-over3_example :
    find_dup_blocks 6 posix digest five_bytes empty_table empty_buffer no_blocks 5 32 ≡ some over3
find_dup_blocks-over3_example =
    find_dup_blocks-over3 6 posix digest five_bytes empty_table empty_buffer no_blocks 32
      posix-IsPosix (omega arith) (omega arith) (omega arith) (omega arith) (omega arith)
