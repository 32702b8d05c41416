-- ===== src/Admission/Acquire/Invariant.antt =====
-- What every critical section of the controller keeps: the counters are the sums of what is held
-- and of what waits, and no dimension of any resource or queue is past its limit.
mod Defs
mod Parts
pub mod Queues
mod Opening
mod Acquiring
mod Permits
mod Steps
pub use Defs.*
pub use Steps.*
