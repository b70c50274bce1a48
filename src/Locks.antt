-- ===== src/Locks.antt =====
-- The lock server: md_distribute_mutex/new_md_mutex_server.c.
pub mod Table
pub mod Server
