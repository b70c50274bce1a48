-- ===== src/Threadpool/Queue/Calls.antt =====
-- Each operation of threadpool.c on a queue that is linked right, with the runners that the threads
-- have taken and not yet freed.
use somerubbish.Prelude.{
  ℕ, zero, suc, ◌<◌, ◌≡◌, refl, sym, false, List, [], ◌∷◌, ◌++◌, Option, none, some, arith, ◌==◌,
  if◌then◌else◌, length, ◌≢◌,
}
use somerubbish.Threadpool.Queue.{
  TaskRunner, write, ThreadPool, thread_pool_add_tsk, takes, take_tsk, run_tsk, free_tsks,
}
use somerubbish.Threadpool.Queue.Chain.{
  Runner, Chain, AllHeld, copies, last_addr, copies-append, Chain-write, AllHeld-write,
  copies-Chain, copies-AllHeld, Once, copies-last, Chain-append, last_addr-append, Once-fresh,
  last_addr-some, AllHeld-mid, Once-mid, Once-others,
}

-- The queue holds `queue`, its tail is the last of them, the runners `taken` are allocated, and no
-- runner is twice among all these.
pub record IsQueue (tp : ThreadPool) (queue taken : List Runner) : Type 0 where
  pub chain : Chain tp.store tp.tsk_head queue
  pub tail : tp.tsk_tail ≡ last_addr queue
  pub held : AllHeld tp.store taken
  pub once : Once (queue ++ taken)

-- What thread_pool_add_tsk writes to a new runner.
abbrev new_runner : Runner → TaskRunner
new_runner e = record { task_func = e.task_func; arg = e.arg; next = none }

Once-free :
    (tp : ThreadPool) (queue taken : List Runner) (e : Runner)
    → IsQueue tp queue taken
    → tp.store e.addr ≡ none
    → Once (e ∷ (queue ++ taken))
Once-free tp queue taken e v free =
    Once-fresh e (queue ++ taken)
      (omega (
        arith,
        copies-append e.addr queue taken,
        copies-Chain tp.store e.addr tp.tsk_head queue free v.chain,
        copies-AllHeld tp.store e.addr taken free v.held,
      ))
      v.once

-- malloc gives a free address: the call returns 0 and the new runner stands behind all others.
pub thread_pool_add_tsk-IsQueue :
    (tp : ThreadPool) (queue taken : List Runner) (e : Runner)
    → IsQueue tp queue taken
    → tp.store e.addr ≡ none
    → (tp' : ThreadPool) × (thread_pool_add_tsk tp (some e.addr) e.task_func e.arg ≡ some (0, tp'))
      × IsQueue tp' (queue ++ e ∷ []) taken
      × (tp'.shutdown ≡ tp.shutdown)
unfolding thread_pool_add_tsk write
thread_pool_add_tsk-IsQueue tp [] taken e v free =
    let z = copies-AllHeld tp.store e.addr taken free v.held in
    (
      record {
        tsk_head = some e.addr;
        tsk_tail = some e.addr;
        shutdown = tp.shutdown;
        store = write tp.store e.addr (some (new_runner e));
      },
      rw v.chain refl,
      record {
        chain = (refl, none, ground arith, refl);
        tail = refl;
        held = AllHeld-write tp.store e.addr _ taken z v.held;
        once = Once-fresh e taken z v.once;
      },
      refl,
    )
thread_pool_add_tsk-IsQueue tp (x ∷ queue) taken e v free =
    let (b, l) = last_addr-some x queue in
    let fresh = Once-free tp (x ∷ queue) taken e v free in
    let h = write tp.store e.addr (some (new_runner e)) in
    let (last, r, c) =
      Chain-append h tp.tsk_head (x ∷ queue) e b l
        (Chain-write tp.store e.addr _ tp.tsk_head (x ∷ queue)
          (copies-Chain tp.store e.addr tp.tsk_head (x ∷ queue) free v.chain) v.chain)
        (ground arith) (λ a. omega (arith, fresh a, copies-append a (x ∷ queue) taken)) in
    (
      record {
        tsk_head = tp.tsk_head;
        tsk_tail = some e.addr;
        shutdown = tp.shutdown;
        store = write h b (some (record last { next = some e.addr }));
      },
      rw (v.chain.0, v.tail, l, r) refl,
      record {
        chain = c;
        tail = sym (last_addr-append (x ∷ queue) e);
        held =
            AllHeld-write h b _ taken
              (omega
                (arith, v.once b, copies-append b (x ∷ queue) taken, copies-last b (x ∷ queue) l))
              (AllHeld-write tp.store e.addr _ taken
                (copies-AllHeld tp.store e.addr taken free v.held) v.held);
        once = λ a. omega (
          arith,
          fresh a,
          copies-append a (x ∷ queue ++ e ∷ []) taken,
          copies-append a (x ∷ queue) (e ∷ []),
          copies-append a (x ∷ queue) taken,
        );
      },
      refl,
    )

-- A thread that gets the mutex goes with the head of the queue, which is then allocated, the
-- others being left in their order.
pub take_tsk-IsQueue :
    (tp : ThreadPool) (e : Runner) (queue taken : List Runner)
    → IsQueue tp (e ∷ queue) taken
    → tp.shutdown ≡ false
    → (tp' : ThreadPool) × (take_tsk tp ≡ some (takes e.addr, tp'))
      × IsQueue tp' queue (e ∷ taken)
      × (tp'.shutdown ≡ false)
unfolding take_tsk
take_tsk-IsQueue tp e queue taken v s =
    let (q, n, held, rest) = v.chain in
    (
      record tp { tsk_head = n; tsk_tail = elim n [ none ↦ none | some m ↦ tp.tsk_tail ] },
      simp (s, q, held) refl,
      record {
        chain = rest;
        tail = new_tail queue n v.tail rest;
        held = ((n, held), v.held);
        once = λ a.
            omega (arith, v.once a, copies-append a queue (e ∷ taken), copies-append a queue taken);
      },
      s,
    )
  where
    new_tail :
        (queue : List Runner) (n : Option ℕ)
        → tp.tsk_tail ≡ last_addr (e ∷ queue)
        → Chain tp.store n queue
        → elim n as (λ _. Option ℕ) [ none ↦ none | some m ↦ tp.tsk_tail ] ≡ last_addr queue
    new_tail [] n l c = rw c refl
    new_tail (y ∷ queue) n l (c, _, _, _) = rw c l

-- A thread that has taken a runner calls the task that was added with it, frees this runner and
-- no other, and the queue and the other taken runners stay as they are.
pub run_tsk-IsQueue :
    (tp : ThreadPool) (queue before after : List Runner) (e : Runner)
    → IsQueue tp queue (before ++ e ∷ after)
    → (tp' : ThreadPool) × (run_tsk tp e.addr ≡ some ((e.task_func, e.arg), tp'))
      × IsQueue tp' queue (before ++ after)
      × (tp'.shutdown ≡ tp.shutdown)
      × (tp'.store e.addr ≡ none)
      × ((a : ℕ) → a ≢ e.addr → tp'.store a ≡ tp.store a)
unfolding run_tsk write
run_tsk-IsQueue tp queue before after e v =
    let ((n, held), rest) = AllHeld-mid tp.store before after e v.held in
    let once = Once-mid queue before after e v.once in
    let z = Once-others e (queue ++ (before ++ after)) once in
    (
      record tp { store = write tp.store e.addr none },
      rw held refl,
      record {
        chain =
            Chain-write tp.store e.addr none tp.tsk_head queue
              (omega (arith, z, copies-append e.addr queue (before ++ after))) v.chain;
        tail = v.tail;
        held =
            AllHeld-write tp.store e.addr none (before ++ after)
              (omega (arith, z, copies-append e.addr queue (before ++ after))) rest;
        once = λ a. omega (arith, once a);
      },
      refl,
      ground arith,
      λ a ne. ground (arith, ne),
    )

-- With more fuel than there are runners in the queue, the loop of thread_pool_destroy frees them all
-- and nothing that a thread has taken.
pub free_tsks-empties :
    (fuel : ℕ) (tp : ThreadPool) (queue taken : List Runner)
    → Chain tp.store tp.tsk_head queue
    → AllHeld tp.store taken
    → Once (queue ++ taken)
    → length queue < fuel
    → (tp' : ThreadPool) × (free_tsks fuel tp ≡ some tp')
      × (tp'.tsk_head ≡ none)
      × AllHeld tp'.store taken
      × ((a : ℕ) → tp'.store a ≡ (if copies a queue == 0 then tp.store a else none))
unfolding free_tsks write
free_tsks-empties zero tp queue taken c held once lt = absurd (omega arith)
free_tsks-empties (suc fuel) tp [] taken c held once lt = (tp, rw c refl, c, held, λ a. refl)
free_tsks-empties (suc fuel) tp (e ∷ queue) taken (q, n, cell, rest) held once lt =
    let z = Once-others e (queue ++ taken) once in
    let (tp', eq, head, kept, look) =
      free_tsks-empties fuel (record tp { tsk_head = n; store = write tp.store e.addr none }) queue
        taken
        (Chain-write tp.store e.addr none n queue
          (omega (arith, z, copies-append e.addr queue taken)) rest)
        (AllHeld-write tp.store e.addr none taken
          (omega (arith, z, copies-append e.addr queue taken)) held)
        (λ a. omega (arith, once a)) (omega arith) in
    (tp', rw (q, cell) eq, head, kept, λ a. ground (arith, look a))
