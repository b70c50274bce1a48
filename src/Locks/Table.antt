-- ===== src/Locks/Table.antt =====
-- The table of mutexes of md_distribute_mutex/new_md_mutex_server.c: 101 chains of counted mutexes,
-- each named by a file. A chain is a list, and the entry that a pointer of the code names is the
-- first one with its file name from a place of the chain on. A count is a number of threads and is
-- not taken to overflow.
pub mod Find
use somerubbish.Prelude.{
  ℕ, suc, ◌+◌, ◌-◌, ◌*◌, ◌%◌, ◌^◌, Bool, true, false, List, [], ◌∷◌, Option, none, some, ◌==◌,
  if◌then◌else◌, get_or, set, replicate,
}
use somerubbish.Libc.{Name}

-- `zz_mutex`, with what its pthread mutex is: locked or not.
pub record ZzMutex : Type 0 where
  pub file_name : Name
  pub count : ℕ
  pub locked : Bool

abbrev pub nhash : ℕ
nhash = 101

-- `mutex_hash`.
abbrev pub Table : Type 0
Table = List (List ZzMutex)

unfoldable pub mutex_hash_init : Table
mutex_hash_init = replicate nhash []

-- hash_func of hash.c, over `unsigned int`.
unfoldable pub hash_from : (hash : ℕ) → Name → ℕ
hash_from hash [] = hash
hash_from hash (p ∷ str) = hash_from ((hash * 131 + p) % 2 ^ 32) str

unfoldable pub hash_func : Name → ℕ
hash_func str = hash_from 0 str % nhash

-- The comparison of file names, `strcmp(...) == 0`.
module _ (same : Name → Name → Bool) where
  unfoldable pub find : Name → List ZzMutex → Option ZzMutex
  find n [] = none
  find n (x ∷ xs) = if same n x.file_name then some x else find n xs

  -- A change of the entry with a name; `none` unlinks and frees it.
  unfoldable pub adjust : Name → (ZzMutex → Option ZzMutex) → List ZzMutex → List ZzMutex
  adjust n f [] = []
  adjust n f (x ∷ xs) =
      if same n x.file_name then elim (f x) [ none ↦ xs | some y ↦ y ∷ xs ] else x ∷ adjust n f xs

  abbrev pub chain_of : Table → Name → List ZzMutex
  chain_of t n = get_or t (hash_func n) []

  abbrev pub find_in : Table → Name → Option ZzMutex
  find_in t n = find n (chain_of t n)

  abbrev pub adjust_in : Table → Name → (ZzMutex → Option ZzMutex) → Table
  adjust_in t n f = set t (hash_func n) (adjust n f (chain_of t n))
