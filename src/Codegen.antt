-- ===== src/Codegen.antt =====
-- src/vm/codegen.rs: from the syntax tree to bytecode. A visit of a node takes the generator and
-- returns it with the code longer; an `Err` and a panic are results.
pub mod Levels
pub mod State
pub mod Control
pub mod Exceptions
pub mod Operators
pub mod Functions
pub mod Visit
pub mod Safety
