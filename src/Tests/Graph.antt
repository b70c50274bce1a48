-- ===== src/Tests/Graph.antt =====
-- Runs of the circular queue of graph/adjacent_list.c and of graph/MaxDistanceInTree.c.
use somerubbish.Prelude.{
  ℕ, ◌≡◌, refl, List, [], ◌∷◌, none, some, arith, replicate, length-replicate, Option,
}
use somerubbish.Prelude.Int.{pos}
use somerubbish.Graph.Distance.{Node, null, node, imax, get_max_distance}
use somerubbish.Graph.Distance.Longest.{IsLongest, get_max_distance-IsLongest}
use somerubbish.Graph.Queue.{Queue, en_q, de_q, run}
use somerubbish.Graph.Queue.Calls.{Call}
use somerubbish.Graph.Queue.Fifo
use somerubbish.Graph.Queue.Refine.{IsValid, run_refines}

-- An empty queue whose next cell is the last of the array.
abbrev near_end : Queue ℕ
near_end = record { bfs_q = replicate 1024 none; q_h = 1023; q_t = 1023 }

near_end-IsValid : IsValid near_end
near_end-IsValid = record {
  size = length-replicate {A = Option ℕ} 1024 none;
  head_in = omega arith;
  tail_in = omega arith;
}

abbrev calls : List (Call ℕ)
calls = Call.put (some 5) ∷ Call.put (some 6) ∷ Call.get ∷ Call.get ∷ Call.get ∷ []

run-near_end :
    run near_end calls ≡ (0, none) ∷ (0, none) ∷ (0, some 5) ∷ (0, some 6) ∷ (0, none) ∷ []
unfolding run en_q de_q
run-near_end = refl

run_refines_example : run near_end calls ≡ Fifo.run [] calls
run_refines_example = run_refines calls near_end near_end-IsValid

-- The third tree of graph/MaxDistanceInTree.c: the longest way does not lead through the root.
abbrev leaf : Node
leaf = node null null

abbrev third_left : Node
third_left = node (node leaf null) null

abbrev third_right : Node
third_right = node (node null leaf) leaf

get_max_distance_third : get_max_distance (node null (node third_left third_right)) ≡ (pos 6, pos 4)
unfolding get_max_distance imax
get_max_distance_third = refl

get_max_distance-IsLongest_example :
    (d : ℕ) × (e : ℕ) × (get_max_distance (node null (node third_left third_right))
      ≡ (pos d, pos e))
    × IsLongest (node null (node third_left third_right)) d e
get_max_distance-IsLongest_example = get_max_distance-IsLongest null (node third_left third_right)
