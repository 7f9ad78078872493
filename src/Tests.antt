-- ===== src/Tests.antt =====
-- Runs of the modelled code of src/dachs and runtime/src/dachs on small programs.
pub mod Data
pub mod Overloads
pub mod Types
pub mod Scopes
pub mod Hashes
pub mod Checks
pub mod Members
pub mod Calls
pub mod Imports
pub mod Lambdas
pub mod Templates
mod Emitted
mod Branches
mod Functions
mod Variables
