-- ===== src/Rod.antt =====
-- Cutting a rod: dynamic_programming/cut_rod.c, dp_cut_rod.c.
pub mod Cut
