-- ===== src/Mm/AddressSpace/AllocAndMap.antt =====
-- `alloc_and_map`: a region whose pages are all backed, or everything as it was.
use avent.Base.{
  ℕ, ◌+◌, ◌*◌, ◌/◌, ◌%◌, ◌<◌, true, false, none, Outcome, done, panic, ◌⊎◌, List, [], ◌++◌, length,
  All, ◌≡◌, refl, ◌∙◌, arith,
}
use avent.Mm.Addr.{page_size}
use avent.Mm.Addr.Virt.{VirtAddr}
use avent.Mm.Vm.Region.{Region, RegionAllocator, capacity, out_of_virtual_memory}
use avent.Mm.Vm.Region
use avent.Mm.Vm.Region.View.{Shows}
use avent.Mm.Vm.Region.Spec.{Tidy, holds, covers}
use avent.Mm.Vm.Region.Alloc.{Allocated}
use avent.Mm.Blocks.Pieces.{HasNoRoom}
use avent.Paging.Flags.{PageFlags, MapError}
use avent.Paging.Mapper.{Machine, Result, ok, err}
use avent.Paging.Trait.{Mapper}
use avent.Mm.AddressSpace.{
  AddressSpace, AddressSpaceError, out_of_physical_memory, map_error, region_error, AllocKind,
  Platform, region_allocator_for,
}
use avent.Mm.AddressSpace.Ranges.{alloc_and_map}
use avent.Mm.AddressSpace.Lawful.{Pages, Sound, IsLawful}
use avent.Mm.AddressSpace.Frames.{Starved}
use avent.Mm.AddressSpace.Rollback.{mapped, Vacant}
use avent.Mm.AddressSpace.GiveUp.{gave_back}
use avent.Mm.AddressSpace.Pools.{addresses}
use avent.Mm.AddressSpace.Pages.{Stops}

inside :
    (base size k : ℕ)
    → k < size / page_size
    → size / page_size * page_size ≡ size
    → holds (Region.region base size) (base + k * page_size) ≡ true
inside base size k l e = ground (arith, l, e)

module _ (m : Mapper) (L : IsLawful m) (kind : AllocKind) (pages : Pages) (total : ℕ)
    (xs : List Region) where
  -- The pool has the free regions `xs`, none of whose pages is mapped, and two slots to spare.
  pub record IsReady (self : AddressSpace m) (st : Platform) : Type 0 where
    pub shows : Shows (region_allocator_for m self kind) xs
    pub tidy : Tidy 0 xs
    pub room : length xs + 1 < capacity
    pub unlocked : st.locked ≡ false
    pub vacant : (a : VirtAddr) → covers xs a ≡ true → pages a ≡ none
    pub reaches : (a : VirtAddr) → a % page_size ≡ 0 → covers xs a ≡ true → L.Reaches a
    pub sound : Sound m L.Shows self.mapper st.machine pages [] total

  -- The pages of a block out of the pool are not mapped.
  pub IsReady-Vacant :
      (self : AddressSpace m) (st : Platform) (size align : ℕ)
      → IsReady self st
      → size % page_size ≡ 0
      → (b : Allocated (region_allocator_for m self kind) xs size align)
      → Vacant pages b.base (size / page_size)
  IsReady-Vacant self st size align ready whole b k l =
      let pages_num : size / page_size * page_size ≡ size = omega (arith, whole) in
      ready.vacant (b.base + k * page_size)
        (b.taken (b.base + k * page_size) ∙ rw (inside b.base size k l pages_num) refl)

  -- The mapper reaches them.
  pub IsReady-Reaches :
      (self : AddressSpace m) (st : Platform) (size align : ℕ)
      → IsReady self st
      → size % page_size ≡ 0
      → (b : Allocated (region_allocator_for m self kind) xs size align) → (k : ℕ)
      → k < size / page_size
      → L.Reaches (b.base + k * page_size)
  IsReady-Reaches self st size align ready whole b k l =
      let pages_num : size / page_size * page_size ≡ size = omega (arith, whole) in
      ready.reaches (b.base + k * page_size) (omega (arith, b.valid.base_aligned))
        (b.taken (b.base + k * page_size) ∙ rw (inside b.base size k l pages_num) refl)

  -- An aligned region out of the pool, each page of which has a frame of its own.
  pub record Backed (self : AddressSpace m) (st : Platform) (size align : ℕ) (flags : PageFlags)
      (o : Outcome (AddressSpace m × Platform × Result Region AddressSpaceError)) : Type 0 where
    pub block : Allocated (region_allocator_for m self kind) xs size align
    pub frames : List ℕ
    pub mapper : m.Self
    pub machine : Machine
    pub out :
        o
        ≡ done (
          gave_back m kind block.after self mapper,
          record st {
            machine = machine;
            flushed = st.flushed ++ addresses block.base 0 (size / page_size);
          },
          ok (Region.region block.base size),
        )
    pub all : length frames ≡ size / page_size
    pub sound : Sound m L.Shows mapper machine (mapped block.base flags pages frames) frames total

  -- An error after which the pages, the free frames and the free addresses are as before.
  abbrev pub Undone :
      AddressSpace m
      → Platform
      → AddressSpaceError
      → Outcome (AddressSpace m × Platform × Result Region AddressSpaceError)
      → Type 0
  Undone self st e o =
      (mapper : m.Self) × (machine : Machine) × (pool : RegionAllocator) × (ys : List Region) × (o
        ≡ done (gave_back m kind pool self mapper, record st { machine = machine }, err e))
      × Sound m L.Shows mapper machine pages [] total
      × Shows pool ys
      × Tidy 0 ys
      × ((a : VirtAddr) → covers ys a ≡ covers xs a)

  abbrev pub Outcomes : AddressSpace m → Platform → ℕ → ℕ → PageFlags → Type 0
  Outcomes self st size align flags =
      let o = alloc_and_map m self st size align flags kind in
      ((o ≡ done (self, st, err (region_error out_of_virtual_memory)))
        × All (HasNoRoom size align) xs)
      ⊎ Backed self st size align flags o
      ⊎ ((e : MapError) × Undone self st (map_error e) o)
      ⊎ (Undone self st out_of_physical_memory o
          × (mapper : m.Self) × (machine : Machine) × Starved m L mapper machine pages [] total)
      ⊎ ((o ≡ panic)
          × (base : VirtAddr) × (js : List ℕ) × (length js < size / page_size)
          × Stops m L base flags pages total js)
