-- ===== src/Graph/Queue/Fifo.antt =====
-- What the circular queue of the graph programs promises: a first-in first-out list of at most
-- `Q_LEN - 1` pointers, and sequences of calls on it.
use somerubbish.Prelude.{ℕ, List, [], ◌∷◌, ◌++◌, Option, none, ◌==◌, if◌then◌else◌, length}
use somerubbish.Graph.Queue.Calls.{Call}

module _ {A : Type 0} where
  unfoldable pub push : List (Option A) → Option A → ℕ × List (Option A)
  push l x = if length l == 1023 then (1, l) else (0, l ++ (x ∷ []))

  unfoldable pub pop : List (Option A) → Option A × List (Option A)
  pop [] = (none, [])
  pop (x ∷ l) = (x, l)

  unfoldable pub run : List (Option A) → List (Call A) → List (ℕ × Option A)
  run l [] = []
  run l (Call.put x ∷ calls) = let (s, l') = push l x in (s, none) ∷ run l' calls
  run l (Call.get ∷ calls) = let (x, l') = pop l in (0, x) ∷ run l' calls
