-- ===== src/Store/Sqlite.antt =====
-- src/noema/store.py, `SQLiteEventStore`: the tables, and the statements that the store runs on them.
-- Each public method holds the store's lock and one transaction, so it is one step. A JSON column is
-- the value that it encodes (a dict up to the order of its keys, which the code does not read).
-- The time columns of `outbox` and `inbox` are instants: the code writes UTC times in ISO form,
-- which text comparison orders as the instants. `int(str(id))` is the identity on row ids.
pub mod Tables
pub mod Events
pub mod Outbox
pub mod Inbox
pub mod Service
