-- ===== src/Mm/AddressSpace/RoundTrip.antt =====
-- `unmap_and_dealloc` undoes `alloc_and_map`.
use avent.Base.{ℕ, Outcome, done, ◌>>=◌, List, [], ◌≡◌}
use avent.Mm.Addr.Virt.{VirtAddr}
use avent.Mm.Vm.Region.{Region, RegionAllocator, capacity}
use avent.Mm.Vm.Region
use avent.Mm.Vm.Region.View.{Shows}
use avent.Mm.Vm.Region.Spec.{Tidy, covers}
use avent.Paging.Flags.{PageFlags}
use avent.Paging.Mapper.{Machine, Result, ok}
use avent.Paging.Trait.{Mapper}
use avent.Mm.AddressSpace.{AddressSpace, AddressSpaceError, AllocKind, Platform, expect_ok}
use avent.Mm.AddressSpace.Ranges.{alloc_and_map, unmap_and_dealloc}
use avent.Mm.AddressSpace.Lawful.{Pages, Sound, IsLawful}
use avent.Mm.AddressSpace.GiveUp.{gave_back}

module _ (m : Mapper) (L : IsLawful m) (kind : AllocKind) (pages : Pages) (total : ℕ)
    (xs : List Region) (self : AddressSpace m) (st : Platform) (size align : ℕ)
    (flags : PageFlags) where
  -- The pages, the free frames and the free addresses are those from before.
  abbrev pub Restored :
      Outcome (AddressSpace m × Platform × Result (Unit {0}) AddressSpaceError) → Type 0
  Restored o =
      (mapper : m.Self) × (machine : Machine) × (pool : RegionAllocator) × (ys : List Region)
      × (flushed : List VirtAddr) × (o
          ≡ done (
            gave_back m kind pool self mapper,
            record st { machine = machine; flushed = flushed },
            ok tt,
          ))
      × Sound m L.Shows mapper machine pages [] total
      × Shows pool ys
      × Tidy 0 ys
      × ((a : VirtAddr) → covers ys a ≡ covers xs a)

  -- `alloc_and_map(..)?`, and `unmap_and_dealloc` of what it gives.
  abbrev pub alloc_and_dealloc :
      Outcome (AddressSpace m × Platform × Result (Unit {0}) AddressSpaceError)
  alloc_and_dealloc = do
    (self, st, r) ← alloc_and_map m self st size align flags kind
    r ← expect_ok r
    unmap_and_dealloc m self st r kind
