-- ===== src/Analyzer.antt =====
-- src/dachs/semantics/analyzer.cpp: the checks of `symbol_analyzer` that this development models.
pub mod Defaults
pub mod Literals
pub mod Declares
pub mod Typed
pub mod Invocation
pub mod Blocks
pub mod Returns
pub mod Calls
pub mod Index
pub mod Operators
pub mod Instances
pub mod SelfAccess
pub mod Casts
pub mod Ufcs
pub mod Branches
pub mod Copies
pub mod Assign
pub mod Initialize
pub mod Functions
