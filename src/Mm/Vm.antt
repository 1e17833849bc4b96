-- ===== src/Mm/Vm.antt =====
-- eira/src/mm/vm: virtual address regions.
pub mod Region
pub mod Layout
mod Tests
