-- ===== src/Graph/Queue.antt =====
-- The circular queue of graph/adjacent_list.c, of which graph/matrix_graph.c and
-- graph/multi_way_tree.c have the same copy. A `void *` is an `Option A`: `none` is NULL.
pub mod Calls
pub mod Fifo
pub mod Refine
use somerubbish.Graph.Queue.Calls.{Call}
use somerubbish.Prelude.{[], ◌∷◌, ℕ, ◌+◌, ◌%◌, List, Option, none, ◌==◌, if◌then◌else◌, get_or, set}

-- `Q_LEN`.
abbrev pub q_len : ℕ
q_len = 1024

-- `CIRCULAR_NEXT`.
abbrev pub circular_next : ℕ → ℕ
circular_next i = (i + 1) % q_len

-- `bfs_q`, `q_h` and `q_t`.
pub record Queue (A : Type 0) : Type 0 where
  pub bfs_q : List (Option A)
  pub q_h : ℕ
  pub q_t : ℕ

module _ {A : Type 0} where
  unfoldable pub init_q : Queue A → Queue A
  init_q q = record q { q_h = 0; q_t = 0 }

  -- The status, 1 when the queue is full, beside the new queue.
  unfoldable pub en_q : Queue A → Option A → ℕ × Queue A
  en_q q ptr =
      if q.q_h == (q.q_t + 1) % q_len
      then (1, q)
      else (0, record q { bfs_q = set q.bfs_q q.q_t ptr; q_t = circular_next q.q_t })

  -- The pointer, NULL when the queue is empty, beside the new queue.
  unfoldable pub de_q : Queue A → Option A × Queue A
  de_q q =
      if q.q_h == q.q_t
      then (none, q)
      else (get_or q.bfs_q q.q_h none, record q { q_h = circular_next q.q_h })

  -- A sequence of calls, with what each returns.
  unfoldable pub run : Queue A → List (Call A) → List (ℕ × Option A)
  run q [] = []
  run q (Call.put x ∷ calls) = let (s, q') = en_q q x in (s, none) ∷ run q' calls
  run q (Call.get ∷ calls) = let (x, q') = de_q q in (0, x) ∷ run q' calls
