-- ===== src/Op.antt =====
-- tcc/op.c: the evaluation of operators, on constants and on expressions.
pub mod Base
pub mod Integer
pub mod Arith
pub mod Logic
pub mod Eval
pub mod Shifts
pub mod Numbers
pub mod Relations
pub mod Examples
