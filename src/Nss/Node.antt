-- ===== src/Nss/Node.antt =====
-- The nodes of the namespace (nss.h), and what nss.c takes from outside the repository's sources:
-- strcmp, and the tests of a file type, which are macros that no file of the repository defines.
use somerubbish.Prelude.{ℕ, Bool, List, Option, none, some, ◌==◌, if◌then◌else◌}
use somerubbish.Prelude.Int.{ℤ}
use somerubbish.Libc.{Name}

-- `ns_node`. A pointer is an address; `how_many_children` is kept beside the array, as in the code.
pub record NsNode : Type 0 where
  pub name : Name
  pub file_type : ℕ
  pub uid : ℕ
  pub gid : ℕ
  pub acl : ℕ
  pub parent : ℕ
  pub child : List ℕ
  pub how_many_children : ℕ

-- The store and the static pointers of namespace_server.c, of which a pointer that is not set is
-- `null`: `shared_dir`, to which no line of the repository assigns, and `home_dir` before a login.
pub record Namespace : Type 0 where
  pub node : ℕ → NsNode
  pub cfs_root_dir : ℕ
  pub current_working_dir : ℕ
  pub home_dir : ℕ
  pub shared_dir : ℕ
  pub current_uid : ℕ
  pub current_gid : ℕ

pub record Outside : Type 0 where
  pub strcmp : Name → Name → ℤ
  pub is_dir_file : ℕ → Bool
  pub is_reg_file : ℕ → Bool
  pub is_shared_dir : ℕ → Bool
  pub is_shared_flag_set : ℕ → Bool
  pub is_legal_file_type : ℕ → Bool
  pub directory_file : ℕ

-- The address of no node.
abbrev pub null : ℕ
null = 0

-- What `->` reads behind a pointer; nothing behind NULL.
abbrev pub deref : Namespace → ℕ → Option NsNode
deref ns a = if a == null then none else some (ns.node a)

-- The store with another node at an address.
abbrev pub write_node : (ℕ → NsNode) → ℕ → NsNode → ℕ → NsNode
write_node f a n b = if a == b then n else f b
