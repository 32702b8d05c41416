-- ===== src/RateLimit.antt =====
-- The executor-local FIFO coordinator of rate-limited requests,
-- src/runtime/execution/rate_limit_coordinator.cpp and its header.
pub mod Key
pub mod Table
pub mod Coordinator
pub mod Sections
pub mod Tickets
pub mod Invariant
pub mod Waiting
pub mod Ending
pub mod Queueing
pub mod Requeueing
pub mod Steps
pub mod Permits
pub mod Fairness
pub mod Closing
mod Tests
