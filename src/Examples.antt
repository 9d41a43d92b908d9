-- ===== src/Examples.antt =====
-- Concrete keys, records, calls and histories, with the theorems applied to them, and tests.
pub mod Keys
pub mod Data
pub mod World
pub mod Runs
pub mod Witnesses
pub mod Parts
pub mod Calls
pub mod Reading
pub mod Signed
pub mod Histories
pub mod Provided
pub mod Evaluated
