-- ===== src/Store.antt =====
-- internal/store: the tables that several parts share.
pub mod Scylla
pub mod Sessions
