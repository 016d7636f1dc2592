-- ===== src/Bytecode.antt =====
-- src/bytecode_gen.rs: the instruction set, its encoding and the readers of it. An instruction
-- sequence is a list of bytes; where the source pushes bytes on `iseq`, the model returns them longer.
pub mod Inst
pub mod Words
pub mod Gen
pub mod Sweep
pub mod Numbers
