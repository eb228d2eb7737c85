-- ===== src/Registry/Refinement.antt =====
-- The methods of packages/@twokeys/addons/src/registry.ts do what its specification says.
pub mod Rows
pub mod Operations
pub mod Calls
mod Tests
