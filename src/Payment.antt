-- ===== src/Payment.antt =====
-- The payment service, services/payment/.
pub mod Domain
pub mod Repository
pub mod Service
pub mod Outbox
pub mod Worker
pub mod Handler
pub mod Provenance
pub mod Received
pub mod Consistency
pub mod Main
pub mod Charging
pub mod Refund
pub mod Refunded
