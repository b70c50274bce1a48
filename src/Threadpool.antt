-- ===== src/Threadpool.antt =====
-- The thread pool: threadpool/threadpool.c, threadpool.h.
pub mod Queue
