-- ===== src/Iflib.antt =====
-- tcc/iflib_*.c: the transformations of "if" expressions.
pub mod Meaning
pub mod Classify
pub mod Reduce
pub mod Subexpressions
pub mod Bundle
pub mod Runs
pub mod Prune
pub mod Linearize
pub mod Chains
pub mod Trim
pub mod Cheap
pub mod Decides
pub mod Combine
pub mod Combined
pub mod FirstMatch
pub mod Not
pub mod Arith
pub mod Actions
pub mod ActionDb
pub mod Examples
