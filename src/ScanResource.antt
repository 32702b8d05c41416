-- ===== src/ScanResource.antt =====
-- `ScanResourceAccounting` of src/runtime/policy/scan_resource_accounting.cpp and its header
-- src/include/duckdb_api/internal/runtime/policy/scan_resource_accounting.hpp.
pub mod Types
pub mod Profile
pub mod Account
pub mod Charge
pub mod Sound
pub mod Requests
pub mod Retry
pub mod NoReset
pub mod Terminal
mod Tests
