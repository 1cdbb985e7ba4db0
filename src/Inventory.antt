-- ===== src/Inventory.antt =====
-- The inventory service, services/inventory/.
pub mod Domain
pub mod Repository
pub mod Service
pub mod Outbox
pub mod Worker
pub mod Handler
pub mod Provenance
pub mod Received
pub mod Main
pub mod Outcome
pub mod Stages
pub mod Reservation
pub mod Restoration
pub mod Compensation
pub mod Rows
pub mod Held
pub mod Invariant
pub mod Reserving
pub mod Restoring
pub mod Balance
pub mod Range
