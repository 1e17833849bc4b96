-- ===== src/Arch.antt =====
-- eira/src/arch/x86_64: the descriptor tables, and how an interrupt reaches its handler.
pub mod Gdt
pub mod Idt
pub mod Irq
pub mod Pic
pub mod Stub
mod Tests
