-- ===== src/Threadpool/Queue.antt =====
-- The task queue of threadpool/threadpool.c, a linked list of task runners with a head and a tail.
-- A pointer is an address in a store of the allocated runners, and `none` a read of what is not
-- allocated, or of NULL. A callback and its argument are numbers.
pub mod Chain
pub mod Calls
pub mod Order
use somerubbish.Prelude.{
  ℕ, zero, suc, Bool, true, false, Option, none, some, ◌==◌, if◌then◌else◌, ◌>>=◌,
}

-- `task_runner`.
pub record TaskRunner : Type 0 where
  pub task_func : ℕ
  pub arg : ℕ
  pub next : Option ℕ

abbrev pub Store : Type 0
Store = ℕ → Option TaskRunner

-- malloc and a write, or free with `none`.
unfoldable pub write : Store → ℕ → Option TaskRunner → Store
write h a v b = if b == a then v else h b

-- `thread_pool`, with the runners that are allocated.
pub record ThreadPool : Type 0 where
  pub tsk_head : Option ℕ
  pub tsk_tail : Option ℕ
  pub shutdown : Bool
  pub store : Store

-- The queue after thread_pool_init.
abbrev pub thread_pool_init : ThreadPool
thread_pool_init = record { tsk_head = none; tsk_tail = none; shutdown = false; store = λ a. none }

-- The result, and the pool; malloc gives an address or fails.
unfoldable pub thread_pool_add_tsk :
    ThreadPool → (malloc : Option ℕ) → (tsk_func arg : ℕ) → Option (ℕ × ThreadPool)
thread_pool_add_tsk tp none tsk_func arg = some (1, tp)
thread_pool_add_tsk tp (some tskr) tsk_func arg =
    let h = write tp.store tskr (some (record { task_func = tsk_func; arg = arg; next = none })) in
    elim tp.tsk_head [
      | none ↦ some (0, record tp { store = h; tsk_head = some tskr; tsk_tail = some tskr })
      | some head ↦ do
        tail ← tp.tsk_tail
        last ← h tail
        some (
          0,
          record tp {
            store = write h tail (some (record last { next = some tskr }));
            tsk_tail = some tskr;
          },
        )
    ]

-- What a thread does with the mutex in its hands: it waits for the condition, exits, or goes with a
-- runner.
pub data Turn : Type 0 where
  sleeps exits : Turn
  takes : (tskr : ℕ) → Turn

-- thread_run from pthread_mutex_lock to pthread_mutex_unlock.
unfoldable pub take_tsk : ThreadPool → Option (Turn × ThreadPool)
take_tsk tp = if tp.shutdown then some (exits, tp) else elim tp.tsk_head [
  | none ↦ some (sleeps, tp)
  | some tskr ↦ do
    t ← tp.store tskr
    some (
      takes tskr,
      record tp {
        tsk_head = t.next;
        tsk_tail = elim t.next [ none ↦ none | some n ↦ tp.tsk_tail ];
      },
    )
]

-- thread_run from there on: the call that it makes, and the runner freed.
unfoldable pub run_tsk : ThreadPool → (tskr : ℕ) → Option ((ℕ × ℕ) × ThreadPool)
run_tsk tp tskr = do
  t ← tp.store tskr
  some ((t.task_func, t.arg), record tp { store = write tp.store tskr none })

-- The loop of thread_pool_destroy, on fuel.
unfoldable pub free_tsks : ℕ → ThreadPool → Option ThreadPool
free_tsks zero tp = none
free_tsks (suc fuel) tp = elim tp.tsk_head [
  | none ↦ some tp
  | some tskr ↦ do
    t ← tp.store tskr
    free_tsks fuel (record tp { tsk_head = t.next; store = write tp.store tskr none })
]
