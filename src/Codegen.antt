-- ===== src/Codegen.antt =====
-- src/dachs/codegen/llvmir: the parts of the code generator that do not depend on how LLVM is built.
pub mod Operators
