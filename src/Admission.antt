-- ===== src/Admission.antt =====
-- src/runtime/execution/admission_controller.cpp
pub mod Counts
pub mod Identity
pub mod Usage
pub mod Profile
pub mod Controller
pub mod Acquire
pub mod Public
mod Tests
