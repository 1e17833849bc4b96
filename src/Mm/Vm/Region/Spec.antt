-- ===== src/Mm/Vm/Region/Spec.antt =====
-- What the allocator of virtual regions promises, on the list of its free regions: blocks of whole
-- pages.
pub use avent.Mm.Blocks.{
  holds, covers, Apart, Disjoint, glue, place, Ordered-lower, merged-IsBlock, place-Ordered,
  place-covers,
}
use avent.Base.{ℕ, List}
use avent.Mm.Addr.{page_size}
use avent.Mm.Blocks.{IsBlock, Ordered}
use avent.Mm.Vm.Region.{Region}

-- A region of whole pages, not empty, that ends below the top.
abbrev pub IsRegion : Region → Type 0
IsRegion = IsBlock page_size

-- The regions come in order from `lo` on, with a gap between each and the next.
abbrev pub Tidy : ℕ → List Region → Type 0
Tidy = Ordered page_size
