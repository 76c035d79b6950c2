-- ===== src/Store.antt =====
-- src/noema/store.py: the event stores behind the protocol `EventStore`.
pub mod Canonical
pub mod Interface
pub mod Memory
pub mod Copy
pub mod Sqlite
