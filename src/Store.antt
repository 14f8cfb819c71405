-- ===== src/Store.antt =====
-- Package internal/store: the in-memory half of a transaction.
pub mod Apply
pub mod Transact
pub mod Attempts
pub mod Edit
