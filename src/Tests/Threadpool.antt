-- ===== src/Tests/Threadpool.antt =====
-- Runs of the task queue of threadpool/threadpool.c.
use somerubbish.Prelude.{
  ℕ, ◌≡◌, ◌≢◌, refl, false, List, [], ◌∷◌, Option, none, some, arith, map, ◌==◌, if◌then◌else◌,
}
use somerubbish.Threadpool.Queue.{
  TaskRunner, Store, write, ThreadPool, thread_pool_init, thread_pool_add_tsk, takes, take_tsk,
  run_tsk, free_tsks,
}
use somerubbish.Threadpool.Queue.Chain.{Runner, AllHeld, copies}
use somerubbish.Threadpool.Queue.Calls.{
  IsQueue, thread_pool_add_tsk-IsQueue, take_tsk-IsQueue, run_tsk-IsQueue, free_tsks-empties,
}
use somerubbish.Threadpool.Queue.Order.{Reach, init, adds, goes, task_of, Reach-fifo}

abbrev first : Runner
first = record { addr = 10; task_func = 1; arg = 7 }

abbrev second : Runner
second = record { addr = 20; task_func = 1; arg = 8 }

abbrev third : Runner
third = record { addr = 30; task_func = 2; arg = 9 }

abbrev runner : ℕ → ℕ → Option ℕ → TaskRunner
runner f x n = record { task_func = f; arg = x; next = n }

abbrev store_one : Store
store_one = write (λ a. none) 10 (some (runner 1 7 none))

abbrev one_task : ThreadPool
one_task = record { tsk_head = some 10; tsk_tail = some 10; shutdown = false; store = store_one }

abbrev two_tasks : ThreadPool
two_tasks = record {
  tsk_head = some 10;
  tsk_tail = some 20;
  shutdown = false;
  store = write (write store_one 20 (some (runner 1 8 none))) 10 (some (runner 1 7 (some 20)));
}

abbrev one_left : ThreadPool
one_left = record two_tasks { tsk_head = some 20 }

add_first : thread_pool_add_tsk thread_pool_init (some 10) 1 7 ≡ some (0, one_task)
unfolding thread_pool_add_tsk
add_first = refl

add_second : thread_pool_add_tsk one_task (some 20) 1 8 ≡ some (0, two_tasks)
unfolding thread_pool_add_tsk write
add_second = refl

take_first : take_tsk two_tasks ≡ some (takes 10, one_left)
unfolding take_tsk write
take_first = refl

two_tasks-IsQueue : IsQueue two_tasks (first ∷ second ∷ []) []
unfolding write
two_tasks-IsQueue = record {
  chain = (refl, some 20, refl, (refl, none, refl, refl));
  tail = refl;
  held = tt;
  once = λ a. ground arith;
}

one_left-IsQueue : IsQueue one_left (second ∷ []) (first ∷ [])
unfolding write
one_left-IsQueue = record {
  chain = (refl, none, refl, refl);
  tail = refl;
  held = ((some 20, refl), tt);
  once = λ a. ground arith;
}

one_left-Reach : Reach ((1, 7) ∷ (1, 8) ∷ []) ((1, 7) ∷ []) one_left (first ∷ [])
unfolding write
one_left-Reach =
    goes ((1, 7) ∷ (1, 8) ∷ []) [] two_tasks one_left [] first (some 20)
      (adds ((1, 7) ∷ []) [] one_task two_tasks [] second
        (adds [] [] thread_pool_init one_task [] first init refl add_first) refl add_second)
      take_first refl

Reach-fifo_example :
    (queue : List Runner) × IsQueue one_left queue (first ∷ [])
    × ((1, 7) ∷ (1, 8) ∷ [] ≡ (1, 7) ∷ map task_of queue)
Reach-fifo_example =
    Reach-fifo ((1, 7) ∷ (1, 8) ∷ []) ((1, 7) ∷ []) one_left (first ∷ []) one_left-Reach

thread_pool_add_tsk-IsQueue_example :
    (tp' : ThreadPool) × (thread_pool_add_tsk two_tasks (some 30) 2 9 ≡ some (0, tp'))
    × IsQueue tp' (first ∷ second ∷ third ∷ []) []
    × (tp'.shutdown ≡ false)
unfolding write
thread_pool_add_tsk-IsQueue_example =
    thread_pool_add_tsk-IsQueue two_tasks (first ∷ second ∷ []) [] third two_tasks-IsQueue refl

take_tsk-IsQueue_example :
    (tp' : ThreadPool) × (take_tsk two_tasks ≡ some (takes 10, tp'))
    × IsQueue tp' (second ∷ []) (first ∷ [])
    × (tp'.shutdown ≡ false)
take_tsk-IsQueue_example = take_tsk-IsQueue two_tasks first (second ∷ []) [] two_tasks-IsQueue refl

run_tsk-IsQueue_example :
    (tp' : ThreadPool) × (run_tsk one_left 10 ≡ some ((1, 7), tp'))
    × IsQueue tp' (second ∷ []) []
    × (tp'.shutdown ≡ false)
    × (tp'.store 10 ≡ none)
    × ((a : ℕ) → a ≢ 10 → tp'.store a ≡ one_left.store a)
run_tsk-IsQueue_example = run_tsk-IsQueue one_left (second ∷ []) [] [] first one_left-IsQueue

free_tsks-empties_example :
    (tp' : ThreadPool) × (free_tsks 3 one_left ≡ some tp')
    × (tp'.tsk_head ≡ none)
    × AllHeld tp'.store (first ∷ [])
    × ((a : ℕ) → tp'.store a ≡ (if copies a (second ∷ []) == 0 then one_left.store a else none))
free_tsks-empties_example =
    free_tsks-empties 3 one_left (second ∷ []) (first ∷ []) one_left-IsQueue.chain
      one_left-IsQueue.held one_left-IsQueue.once (omega arith)
