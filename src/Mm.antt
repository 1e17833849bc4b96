-- ===== src/Mm.antt =====
-- eira/src/mm: memory management.
pub mod Addr
pub mod AddressSpace
pub mod Frame
pub mod Allocator
pub mod Blocks
pub mod Vm
pub mod Heap
pub mod Init
mod Tests
