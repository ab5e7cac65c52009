-- ===== src/Treewalker.antt =====
-- rdb-analyzer/src/data/treewalker: the types and values of the virtual machine, and its bytecode.
pub mod Bytecode
pub mod Types
pub mod Covariance
pub mod Transitivity
pub mod Values
pub mod Defaults
pub mod Access
pub mod Serialize
pub mod Consts
pub mod Vm
pub mod Equality
pub mod Typeck
mod SerializeExamples
mod ConstExamples
mod Examples
