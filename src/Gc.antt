-- ===== src/Gc.antt =====
-- src/gc.rs: the incremental mark and sweep collector. An address is a number, 0 the null pointer.
-- The memory behind the pointers is explicit: reading or freeing an address with no object, and the
-- `unwrap` of a mark that is not there, are `none`.
pub mod Sets
pub mod Pointers
pub mod Allocator
pub mod Roots
pub mod Marking
pub mod Counting
pub mod Sweeping
pub mod Cycle
pub mod Accounting
mod Tests
