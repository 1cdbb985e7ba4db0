-- ===== src/Saga.antt =====
-- The four services together: how their processes start, which topics connect them, and the course of
-- an order through them.
pub mod Startup
pub mod System
pub mod Causality
pub mod Causes
pub mod Completion
pub mod Announcements
pub mod Failures
pub mod Reasons
pub mod Run
pub mod HappyPath
pub mod Serving
pub mod Marks
pub mod Progress
pub mod Fulfilment
pub mod Topics
pub mod Workers
