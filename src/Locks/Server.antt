-- ===== src/Locks/Server.antt =====
-- get_zz_mutex and put_zz_mutex of md_distribute_mutex/new_md_mutex_server.c, each as one change of
-- the table. get_zz_mutex reads the head of the chain before it locks glob_mutex; `ahead` is how many
-- entries other threads have put in front of that head when it has the lock. No entry from that head
-- on is taken to be freed meanwhile. A failing call on glob_mutex is printed only and changes
-- nothing else. `none` is pthread_mutex_init behind the NULL of a malloc that failed.
pub mod Counts
pub mod Race
use somerubbish.Prelude.{
  ℕ, ◌+◌, ◌-◌, Bool, true, false, List, [], ◌∷◌, ◌++◌, Option, none, some, ◌==◌, if◌then◌else◌, set,
  take, drop,
}
use somerubbish.Libc.{Name}
use somerubbish.Locks.Table.{ZzMutex, Table, hash_func, find, adjust, chain_of}

-- `op_t`, and the values of `op_type` that are none of it.
pub data OpType : Type 0 where
  md_lock md_try_lock md_unlock unrecognized : OpType

abbrev pub is_locking : OpType → Bool
is_locking md_lock = true
is_locking md_try_lock = true
is_locking md_unlock = false
is_locking unrecognized = false

-- What malloc and pthread_mutex_init answer to alloc_zz_mutex.
pub data AllocResult : Type 0 where
  allocated no_mutex no_memory : AllocResult

-- The change of an entry that is asked for again.
unfoldable pub count_up : ZzMutex → Option ZzMutex
count_up x = some (record x { count = x.count + 1 })

-- `--count == 0` unlinks the entry.
unfoldable pub count_down : ZzMutex → Option ZzMutex
count_down x = if x.count == 1 then none else some (record x { count = x.count - 1 })

-- `count = 1` and a mutex that nobody holds.
abbrev pub new_mutex : Name → ZzMutex
new_mutex n = record { file_name = n; count = 1; locked = false }

module _ (same : Name → Name → Bool) where
  -- A change of the first entry with a name from a place of its chain on.
  unfoldable pub adjust_from : Table → Name → (ahead : ℕ) → (ZzMutex → Option ZzMutex) → Table
  adjust_from t n ahead f =
      let chain = chain_of same t n in
      set t (hash_func n) (take ahead chain ++ adjust same n f (drop ahead chain))

  -- alloc_zz_mutex, with the new entry put in front of its chain.
  unfoldable pub alloc_zz_mutex : Table → Name → AllocResult → Option (Bool × Table)
  alloc_zz_mutex t n allocated = some (true, set t (hash_func n) (new_mutex n ∷ chain_of same t n))
  alloc_zz_mutex t n no_mutex = some (false, t)
  alloc_zz_mutex t n no_memory = none

  -- Whether an entry is returned, and the table after the call.
  unfoldable pub get_zz_mutex :
      Table → Name → OpType → AllocResult → (ahead : ℕ) → Option (Bool × Table)
  get_zz_mutex t n op mem ahead = elim (find same n (drop ahead (chain_of same t n))) [
    | none ↦ if is_locking op then alloc_zz_mutex t n mem else some (false, t)
    | some x ↦ some (true, if is_locking op then adjust_from t n ahead count_up else t)
  ]

  -- The entry is the first one with its name from a place of the chain on.
  unfoldable pub put_zz_mutex : Table → Name → (ahead : ℕ) → Table
  put_zz_mutex t n ahead = adjust_from t n ahead count_down
