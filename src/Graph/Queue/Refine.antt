-- ===== src/Graph/Queue/Refine.antt =====
-- The circular queue of the graph programs beside a first-in first-out list.
use somerubbish.Prelude.{
  ℕ, zero, suc, ◌+◌, ◌-◌, ◌%◌, ◌<◌, ◌≡◌, ◌≢◌, refl, ap, ap₂, List, [], ◌∷◌, ◌++◌, Option, none,
  arith,
}
use somerubbish.Prelude.{length, get_or, set, length-set, get_or-set_self, get_or-set_ne}
use somerubbish.Graph.Queue.Calls.{Call}
use somerubbish.Graph.Queue.Fifo
use somerubbish.Graph.Queue.{q_len, Queue, init_q, en_q, de_q, run}

module _ {A : Type 0} where
  pub record IsValid (q : Queue A) : Type 0 where
    pub size : length q.bfs_q ≡ q_len
    pub head_in : q.q_h < q_len
    pub tail_in : q.q_t < q_len

  -- The number of pointers in the queue.
  abbrev pub count : Queue A → ℕ
  count q = (q.q_t + q_len - q.q_h) % q_len

  -- The `n` cells that begin at `h`, going round at the end of the array.
  abbrev pub cells : List (Option A) → ℕ → ℕ → List (Option A)
  cells buf h zero = []
  cells buf h (suc n) = get_or buf (h % q_len) none ∷ cells buf (h + 1) n

  abbrev pub contents : Queue A → List (Option A)
  contents q = cells q.bfs_q q.q_h (count q)

  length-cells : (buf : List (Option A)) (h n : ℕ) → length (cells buf h n) ≡ n
  length-cells buf h zero = refl
  length-cells buf h (suc n) = omega (arith, length-cells buf (h + 1) n)

  pub length-contents : (q : Queue A) → length (contents q) ≡ count q
  length-contents q = length-cells q.bfs_q q.q_h (count q)

  cells-mod :
      (buf : List (Option A)) (h k n : ℕ) → h % q_len ≡ k % q_len → cells buf h n ≡ cells buf k n
  cells-mod buf h k zero e = refl
  cells-mod buf h k (suc n) e =
      ap₂ {C = List (Option A)} (λ (i : ℕ) r. get_or buf i none ∷ r) e
        (cells-mod buf (h + 1) (k + 1) n (omega arith))

  -- A write behind fewer than `Q_LEN` cells adds its pointer at their end.
  cells-set :
      (buf : List (Option A)) (x : Option A) (h n t : ℕ)
      → length buf ≡ q_len
      → n < q_len
      → t ≡ (h + n) % q_len
      → cells (set buf t x) h (suc n) ≡ cells buf h n ++ (x ∷ [])
  cells-set buf x h zero t s b e = ground (arith, get_or-set_self buf t x none)
  cells-set buf x h (suc n) t s b e =
      ap₂ {C = List (Option A)} ◌∷◌ (get_or-set_ne buf t (h % q_len) x none (omega arith))
        (cells-set buf x (h + 1) n t s (omega arith) (omega arith))

  cells_of_pos :
      (buf : List (Option A)) (h n : ℕ)
      → n ≢ 0
      → cells buf h n ≡ get_or buf (h % q_len) none ∷ cells buf (h + 1) (n - 1)
  cells_of_pos buf h zero ne = absurd (ne refl)
  cells_of_pos buf h (suc n) ne =
      let e : n ≡ suc n - 1 = omega arith in
      ap (λ k. get_or buf (h % q_len) none ∷ cells buf (h + 1) k) e

  -- `init_q` leaves an empty queue.
  pub init_q-IsValid : (q : Queue A) → IsValid q → IsValid (init_q q) × (contents (init_q q) ≡ [])
  unfolding init_q
  init_q-IsValid q v = (omega arith, refl)

  pub en_q-IsValid : (q : Queue A) (x : Option A) → IsValid q → IsValid (en_q q x).1
  unfolding en_q
  en_q-IsValid q x v = ground (arith, length-set q.bfs_q q.q_t x)

  pub de_q-IsValid : (q : Queue A) → IsValid q → IsValid (de_q q).1
  unfolding de_q
  de_q-IsValid q v = ground arith

  pub en_q_refines :
      (q : Queue A) (x : Option A)
      → IsValid q
      → let (s, q') = en_q q x in (s, contents q') ≡ Fifo.push (contents q) x
  unfolding en_q Fifo.push
  en_q_refines q x v = ground (
    arith,
    length-contents q,
    cells-set q.bfs_q x q.q_h (count q) q.q_t v.size,
    grow (count q) (count q'),
  )
    where
      q' : Queue A
      q' = (en_q q x).1

      grow : (n m : ℕ) → m ≡ suc n → cells q'.bfs_q q.q_h m ≡ cells q'.bfs_q q.q_h (suc n)
      grow n m e = ap (cells q'.bfs_q q.q_h) e

  pub de_q_refines :
      (q : Queue A) → IsValid q → let (x, q') = de_q q in (x, contents q') ≡ Fifo.pop (contents q)
  unfolding de_q Fifo.pop
  de_q_refines q v = ground (
    arith,
    cells_of_pos q.bfs_q q.q_h (count q),
    cells-mod q.bfs_q (q.q_h + 1) ((q.q_h + 1) % q_len) (count q - 1),
    shrink (count q - 1) (count (de_q q).1),
  )
    where
      h' : ℕ
      h' = (q.q_h + 1) % q_len

      shrink : (n m : ℕ) → m ≡ n → cells q.bfs_q h' m ≡ cells q.bfs_q h' n
      shrink n m e = ap (cells q.bfs_q h') e

  -- No sequence of calls tells a valid circular queue from the list of its contents.
  pub run_refines :
      (calls : List (Call A)) (q : Queue A) → IsValid q → run q calls ≡ Fifo.run (contents q) calls
  unfolding run Fifo.run
  run_refines [] q v = refl
  run_refines (Call.put x ∷ calls) q v =
      rw (run_refines calls (en_q q x).1 (en_q-IsValid q x v), ← en_q_refines q x v)
  run_refines (Call.get ∷ calls) q v =
      rw (run_refines calls (de_q q).1 (de_q-IsValid q v), ← de_q_refines q v)
