-- ===== src/Soundness.antt =====
-- `KnownBits` against `Interpreter` (jitir.tmpl.hpp): operators, instructions, and a block.
pub mod Relation
pub mod Typing
pub mod Operators
pub mod Folds
pub mod Tests
pub mod Shifts
pub mod Unary
pub mod Freeze
pub mod Extend
pub mod Instructions
pub mod Eval
pub mod Step
pub mod Pass
pub mod Body
