-- ===== src/Religion.antt =====
-- Disjoint sets: algorithm/ubiquitous_religion.c.
pub mod Sets
