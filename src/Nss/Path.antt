-- ===== src/Nss/Path.antt =====
-- get_ns_node of nss.c: the walk along a path. `none` is a read outside an array of children, a NULL
-- that is followed, or a name that does not fit into the caller's buffer with its closing zero.
pub mod Word
pub mod Total
use somerubbish.Prelude.{
  ℕ, zero, suc, ◌+◌, ◌-◌, Bool, true, false, not, ◌&&◌, ◌||◌, List, [], ◌∷◌, map, Option, none,
  some, ltb, ◌==◌, if◌then◌else◌, length, get_elem?, get_or, take, drop, ◌>>=◌,
}
use somerubbish.Libc.{Name, is_zero}
use somerubbish.Nss.Node.{NsNode, Namespace, Outside, deref}
use somerubbish.Nss.Search.{binary_seach_file}

-- The variables of the loop. `fn_head` and `fn_tail` are places in the path, `none` is NULL.
pub record Lookup : Type 0 where
  pub lkup_node : ℕ
  pub inword : Bool
  pub fn_head : Option ℕ
  pub fn_tail : Option ℕ
  pub ret : ℕ
  pub i : ℕ
  pub file_name_buf : Name

-- A round goes on to the next place, or to the label `op_over`.
pub data Round : Type 0 where
  next : Lookup → Round
  op_over : Lookup → Round

abbrev pub slash : ℕ
slash = b'/'

-- `UPPER_DIR_NAME`.
abbrev pub upper_dir_name : Name
upper_dir_name = b'.' ∷ b'.' ∷ []

-- The size of the buffer that mkfile, rmfile, cd and ls pass: `FILE_PATH_LEN` of glob.h.
abbrev pub fbufsiz : ℕ
fbufsiz = 260

-- Past its last byte a path holds the closing zero.
abbrev pub byte_at : Name → ℕ → ℕ
byte_at path p = get_or path p 0

-- The tests at the head of the loop's body, for entering and for leaving a word.
unfoldable pub enter_word : Name → ℕ → Lookup → Lookup
enter_word path p s =
    if not s.inword && (ltb p (length path) && not (byte_at path p == slash))
    then record s { fn_head = some p; inword = true }
    else s

unfoldable pub leave_word : Name → ℕ → Lookup → Lookup
leave_word path p s =
    if s.inword && (byte_at path p == slash || p == length path)
    then record s { fn_tail = some p; inword = false }
    else s

-- The test `fn_head != NULL && fn_tail != NULL && fn_head < fn_tail`.
unfoldable pub word_of : Option ℕ → Option ℕ → Option (ℕ × ℕ)
word_of (some h) (some t) = if ltb h t then some (h, t) else none
word_of (some h) none = none
word_of none t = none

module _ (out : Outside) (ns : Namespace) where
  -- What follows the label `cont`.
  unfoldable pub cont : Lookup → Option Lookup
  cont s =
      if s.ret == 3
      then some s
      else (deref ns s.lkup_node >>= λ n. some (record s {
        lkup_node =
            if out.is_dir_file n.file_type && out.is_shared_flag_set n.file_type
            then ns.shared_dir
            else s.lkup_node;
        fn_head = none;
        fn_tail = none;
      }))

  -- The search for a name among the children of a directory.
  unfoldable pub find_child : NsNode → Lookup → Option Lookup
  find_child n s =
      if n.how_many_children == 0
      then some (record s { i = 0; ret = 3 })
      else (binary_seach_file out.strcmp n.how_many_children s.file_name_buf
            (map (λ a. (ns.node a).name) n.child) 0 (n.how_many_children - 1)
          >>= λ r. get_elem? n.child r >>= λ c.
              if is_zero (out.strcmp s.file_name_buf (ns.node c).name)
              then some (record s { i = r; lkup_node = c })
              else some (record s { i = r; ret = 3 }))

  -- What is done with the word in the buffer.
  unfoldable pub enter_file : NsNode → Lookup → Option Round
  enter_file n s =
      if not (out.is_dir_file n.file_type)
      then some (op_over (record s { ret = 1 }))
      else if is_zero (out.strcmp s.file_name_buf upper_dir_name)
      then (cont (record s {
        lkup_node = if out.is_shared_dir n.file_type then ns.home_dir else n.parent;
        ret = 2;
      })
          >>= λ s2. some (next s2))
      else (find_child n s >>= λ s1. cont s1 >>= λ s2. some (next s2))

  -- The body of the loop for the word between two places of the path.
  unfoldable pub lookup_word : Name → Lookup → (h t : ℕ) → Option Round
  lookup_word path s h t =
      if s.ret == 3
      then some (op_over (record s { ret = 4 }))
      else if not (ltb (t - h) fbufsiz)
      then none
      else (deref ns s.lkup_node >>= λ n.
          enter_file n
            (record s { ret = 0; i = t - h; file_name_buf = take (t - h) (drop h path) }))

  unfoldable pub round : Name → ℕ → Lookup → Option Round
  round path p s0 =
      let s = leave_word path p (enter_word path p s0) in
      elim (word_of s.fn_head s.fn_tail) [
        | none ↦ some (next s)
        | some (h, t) ↦ lookup_word path s h t
      ]

  -- `for(p = file_path;p <= tail;p++)`, with the rounds that are left.
  unfoldable pub path_loop : Name → (rounds p : ℕ) → Lookup → Option Lookup
  path_loop path zero p s = some s
  path_loop path (suc k) p s =
      round path p s >>= elim [ next s' ↦ path_loop path k (p + 1) s' | op_over s' ↦ some s' ]

  -- The walk starts at the root, or inside the first word at the working directory.
  unfoldable pub start : Name → Lookup
  start path =
      let at_root = byte_at path 0 == slash in
      record {
        lkup_node = if at_root then ns.cfs_root_dir else ns.current_working_dir;
        inword = not at_root;
        fn_head = if at_root then none else some 0;
        fn_tail = none;
        ret = 0;
        i = length path;
        file_name_buf = [];
      }

  -- What a call returns is `ret`, and `lkup_node`, `i` and `file_name_buf` through its pointers. The
  -- name of the first node is printed.
  unfoldable pub get_ns_node : Name → Option Lookup
  get_ns_node path =
      deref ns (start path).lkup_node >>= λ _. path_loop path (suc (length path)) 0 (start path)
