-- ===== src/Order.antt =====
-- The order service, services/order/.
pub mod Domain
pub mod Repository
pub mod Service
pub mod Outbox
pub mod Worker
pub mod Incoming
pub mod Transitions
pub mod Creation
pub mod Consistency
pub mod Locking
pub mod Interleaving
pub mod Handler
pub mod Provenance
pub mod Received
pub mod Ended
pub mod Main
pub mod Diagram
pub mod Reordering
pub mod Http
