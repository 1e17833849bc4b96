-- ===== src/Mm/AddressSpace/Dealloc.antt =====
-- `unmap_and_dealloc` of a region, whichever of its pages are mapped.
use avent.Base.{ℕ, ◌/◌, none, some, Option, done, List, [], ◌++◌, ◌≡◌}
use avent.Mm.Addr.{page_size}
use avent.Mm.Vm.Region.{Region, RegionAllocator, capacity}
use avent.Mm.Vm.Region
use avent.Paging.Mapper.{Machine, ok, err}
use avent.Paging.Trait.{Mapper}
use avent.Mm.AddressSpace.{AddressSpace, AddressSpaceError, AllocKind, Platform}
use avent.Mm.AddressSpace.Ranges.{unmap_and_dealloc}
use avent.Mm.AddressSpace.Lawful.{Pages, Sound, IsLawful}
use avent.Mm.AddressSpace.GiveUp.{gave_back}
use avent.Mm.AddressSpace.Pools.{addresses}
use avent.Mm.AddressSpace.Unmap.{all_filled, Keeps}

module _ (m : Mapper) (L : IsLawful m) (kind : AllocKind) (pages : Pages) (total : ℕ) where
  -- The frames of the pages are free again, the region is in its pool, its pages are flushed, and the
  -- error is as the pages were.
  abbrev pub Unmapped :
      AddressSpace m → Platform → Region → RegionAllocator → List (Option ℕ) → Type 0
  Unmapped self st r t spots =
      (mapper : m.Self) × (machine : Machine) × (last : Option AddressSpaceError)
      × (unmap_and_dealloc m self st r kind
          ≡ done (
            gave_back m kind t self mapper,
            record st {
              machine = machine;
              flushed = st.flushed ++ addresses r.base 0 (r.size / page_size);
            },
            elim last [ some e ↦ err e | none ↦ ok tt ],
          ))
      × Sound m L.Shows mapper machine pages [] total
      × Keeps none last (all_filled spots)
