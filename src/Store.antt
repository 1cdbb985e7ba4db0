-- ===== src/Store.antt =====
-- The databases: tables, sessions with a transaction, the outbox, and the workers that send it.
pub mod Table
pub mod Columns
pub mod Session
pub mod Outbox
pub mod Pending
pub mod Rows
pub mod Provenance
pub mod Announced
pub mod Worker
pub mod Batch
pub mod Publishing
pub mod Draining
pub mod Running
pub mod Backlog
pub mod Emptying
