-- ===== src/Mm/Addr.antt =====
-- eira/src/mm/addr.rs. A `usize` is a number below 2 ^ 64, which the theorems say where they need
-- it; both address types wrap one.
pub mod Phys
pub mod Virt
pub mod Align
pub mod Canonical
use avent.Base.{ℕ}

-- PAGE_SIZE
abbrev pub page_size : ℕ
page_size = 4096
