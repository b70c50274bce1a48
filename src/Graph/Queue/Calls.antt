-- ===== src/Graph/Queue/Calls.antt =====
-- The calls that a graph program makes on its queue, one after the other.
use somerubbish.Prelude.{Option}

pub data Call (A : Type 0) : Type 0 where
  put : Option A → Call A
  get : Call A
