-- ===== src/Paging/Trait.antt =====
-- The trait `Mapper` of eira/src/mm/paging/mod.rs, and the page tables of x86_64 as one. The calls
-- share the frame allocator and the memory.
use avent.Base.{Option, Outcome, done, ◌>>=◌}
use avent.Mm.Addr.Phys.{PhysAddr}
use avent.Mm.Addr.Virt.{VirtAddr}
use avent.Mm.Frame.{PhysFrame}
use avent.Mm.Allocator.{Memory}
use avent.Paging.Flags.{PageFlags, MapError, UnmapError}
use avent.Paging.Mapper.{PageTableMapper, Machine, Result, TlbFlush}
use avent.Paging.Mapper as Tables

pub record Mapper : Type 1 where
  pub Self : Type 0
  pub map :
      Self
      → Machine
      → VirtAddr
      → PhysFrame
      → PageFlags
      → Outcome (Self × Machine × Result TlbFlush (PhysFrame × MapError))
  pub unmap :
      Self
      → Machine
      → VirtAddr
      → Outcome (Self × Machine × Result (PhysFrame × TlbFlush) UnmapError)
  pub translate : Self → Memory → VirtAddr → Outcome (Option (PhysAddr × PageFlags))
  pub remap :
      Self → Machine → VirtAddr → PageFlags → Outcome (Self × Machine × Result TlbFlush UnmapError)

-- `impl Mapper for PageTableMapper`; the calls leave the mapper itself as it is.
abbrev pub page_table_mapper : Mapper
page_table_mapper = record {
  Self = PageTableMapper;
  map = λ self st virt frame flags. (do
    (st, r) ← Tables.map self st virt frame flags
    done (self, st, r));
  unmap = λ self st virt. (do (st, r) ← Tables.unmap self st virt; done (self, st, r));
  translate = Tables.translate;
  remap = λ self st virt flags. (do (st, r) ← Tables.remap self st virt flags; done (self, st, r));
}
