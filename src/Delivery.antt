-- ===== src/Delivery.antt =====
-- The delivery service, services/delivery/.
pub mod Domain
pub mod Repository
pub mod Service
pub mod Outbox
pub mod Worker
pub mod Handler
pub mod Provenance
pub mod Main
pub mod Starting
pub mod Statuses
