-- ===== src/Paging.antt =====
-- eira/src/mm/paging and eira/src/arch/x86_64/paging: page flags, entries and tables.
pub mod Flags
pub mod Entry
pub mod Table
pub mod Mapper
pub mod Trait
mod Tests
