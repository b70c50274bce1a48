-- ===== src/Graph.antt =====
-- The graph programs of graph/.
pub mod Queue
pub mod Distance
