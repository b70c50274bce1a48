-- ===== src/Nss.antt =====
-- The namespace server: nss.c, nss.h and namespace_server.c.
pub mod Node
pub mod Search
pub mod Path
pub mod Files
pub mod Rbt
