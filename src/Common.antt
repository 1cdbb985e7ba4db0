-- ===== src/Common.antt =====
-- The packages under common/ that the four services share.
pub mod Errors
pub mod Result
pub mod Events
pub mod Wire
pub mod Decode
pub mod RoundTrip
pub mod Idempotency
pub mod Once
pub mod Messaging
pub mod Retry
pub mod Attempts
