-- ===== src/Threadpool/Queue/Order.antt =====
-- All threads of threadpool/threadpool.c and the callers of thread_pool_add_tsk, in any order of
-- their turns with the mutex, with the tasks added and started so far.
use somerubbish.Prelude.{
  ℕ, ◌≡◌, refl, ap, sym, ◌∙◌, true, List, [], ◌∷◌, ◌++◌, Option, none, some, arith, map,
  append_assoc, subst, map-append, Bool-cases, inl, inr,
}
use somerubbish.Threadpool.Queue.{
  ThreadPool, thread_pool_init, thread_pool_add_tsk, takes, take_tsk, run_tsk,
}
use somerubbish.Threadpool.Queue.Chain.{Runner, Holds}
use somerubbish.Threadpool.Queue.Calls.{
  IsQueue, thread_pool_add_tsk-IsQueue, take_tsk-IsQueue, run_tsk-IsQueue,
}

-- What a caller asks for: a function and its argument.
abbrev pub task_of : Runner → ℕ × ℕ
task_of e = (e.task_func, e.arg)

-- The tasks added so far, those started so far, the pool, and the runners that the threads have
-- taken and not yet freed.
pub data Reach : (added started : List (ℕ × ℕ)) → ThreadPool → (taken : List Runner) → Type 0 where
  init : Reach [] [] thread_pool_init []
  adds :
      (added started : List (ℕ × ℕ)) (tp tp' : ThreadPool) (taken : List Runner) (e : Runner)
      → Reach added started tp taken
      → tp.store e.addr ≡ none
      → thread_pool_add_tsk tp (some e.addr) e.task_func e.arg ≡ some (0, tp')
      → Reach (added ++ task_of e ∷ []) started tp' taken
  goes :
      (added started : List (ℕ × ℕ)) (tp tp' : ThreadPool) (taken : List Runner) (e : Runner)
      (n : Option ℕ)
      → Reach added started tp taken
      → take_tsk tp ≡ some (takes e.addr, tp')
      → Holds tp.store e n
      → Reach added (started ++ task_of e ∷ []) tp' (e ∷ taken)
  ends :
      (added started : List (ℕ × ℕ)) (tp tp' : ThreadPool) (before after : List Runner) (e : Runner)
      → Reach added started tp (before ++ e ∷ after)
      → run_tsk tp e.addr ≡ some (task_of e, tp')
      → Reach added started tp' (before ++ after)
  shuts :
      (added started : List (ℕ × ℕ)) (tp : ThreadPool) (taken : List Runner)
      → Reach added started tp taken
      → Reach added started (record tp { shutdown = true }) taken

-- A result that is given twice.
same_pool :
    {A : Type 0} (o : Option (A × ThreadPool)) (a b : A) (tp tp' : ThreadPool)
    → o ≡ some (a, tp)
    → o ≡ some (b, tp')
    → (a ≡ b) × (tp ≡ tp')
same_pool {A = A} o a b tp tp' e e' =
    let q = sym e ∙ e' in
    (
      ap (λ o. elim o as (λ _. A) [ none ↦ a | some p ↦ p.0 ]) q,
      ap (λ o. elim o as (λ _. ThreadPool) [ none ↦ tp | some p ↦ p.1 ]) q,
    )

-- The call that takes a runner takes the head of the queue.
takes-head :
    (tp tp' : ThreadPool) (queue taken : List Runner) (e : Runner) (n : Option ℕ)
    → IsQueue tp queue taken
    → take_tsk tp ≡ some (takes e.addr, tp')
    → Holds tp.store e n
    → (rest : List Runner) × (queue ≡ e ∷ rest) × IsQueue tp' rest (e ∷ taken)
unfolding take_tsk
takes-head tp tp' [] taken e n v eq held = absurd (ground (arith, v.chain, eq))
takes-head tp tp' (x ∷ rest) taken e n v eq held = elim (Bool-cases tp.shutdown) [
  | inl s ↦ absurd (ground (arith, s, eq))
  | inr s ↦
      let (tp2, eq2, v2, _) = take_tsk-IsQueue tp x rest taken v s in
      let (turn, same) = same_pool (take_tsk tp) _ _ tp2 tp' eq2 eq in
      let q = is_e v.chain.2 turn in
      (
        rest,
        ap (λ x. x ∷ rest) q,
        subst (λ tp. IsQueue tp rest (e ∷ taken)) same
            (subst (λ x. IsQueue tp2 rest (x ∷ taken)) q v2),
      )
]
  where
    is_e : Holds tp.store x v.chain.1 → takes x.addr ≡ takes e.addr → x ≡ e
    is_e h t = ground (arith, h, t, held, ap tp.store)

-- In every state reached, the queue is linked right, and the tasks added are those started and
-- behind them those in the queue, in this order.
pub Reach-fifo :
    (added started : List (ℕ × ℕ)) (tp : ThreadPool) (taken : List Runner)
    → Reach added started tp taken
    → (queue : List Runner) × IsQueue tp queue taken × (added ≡ started ++ map task_of queue)
Reach-fifo _ _ _ _ init =
    ([], record { chain = refl; tail = refl; held = tt; once = λ a. omega arith }, refl)
Reach-fifo _ _ _ _ (adds added started tp tp' taken e r free eq) =
    let (queue, v, o) = Reach-fifo added started tp taken r in
    let (tp2, eq2, v2, _) = thread_pool_add_tsk-IsQueue tp queue taken e v free in
    (
      queue ++ e ∷ [],
      subst (λ tp. IsQueue tp (queue ++ e ∷ []) taken) (same_pool _ 0 0 tp2 tp' eq2 eq).1 v2,
      rw (o, map-append task_of queue (e ∷ [])) (append_assoc started (map task_of queue) _),
    )
Reach-fifo _ _ _ _ (goes added started tp tp' taken e n r eq held) =
    let (queue, v, o) = Reach-fifo added started tp taken r in
    let (rest, q, v2) = takes-head tp tp' queue taken e n v eq held in
    (
      rest,
      v2,
      o
          ∙ ap (λ q. started ++ map task_of q) q
          ∙ sym (append_assoc started (task_of e ∷ []) (map task_of rest)),
    )
Reach-fifo _ _ _ _ (ends added started tp tp' before after e r eq) =
    let (queue, v, o) = Reach-fifo added started tp (before ++ e ∷ after) r in
    let (tp2, eq2, v2, _, _, _) = run_tsk-IsQueue tp queue before after e v in
    (
      queue,
      subst (λ tp. IsQueue tp queue (before ++ after))
          (same_pool _ (task_of e) (task_of e) tp2 tp' eq2 eq).1 v2,
      o,
    )
Reach-fifo _ _ _ _ (shuts added started tp taken r) =
    let (queue, v, o) = Reach-fifo added started tp taken r in
    (queue, record { chain = v.chain; tail = v.tail; held = v.held; once = v.once }, o)
