-- ===== src/Expression.antt =====
-- src/expression: values, expressions and their evaluation.
pub mod Integers
pub mod Values
pub mod Eval
pub mod Overflow
pub mod Frame
