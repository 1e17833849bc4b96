-- ===== src/Mm/AddressSpace/Lawful.antt =====
-- What the address space relies on of a mapper: the calls of the trait `Mapper` of
-- eira/src/mm/paging/mod.rs do what its documentation says, for the addresses that the mapper reaches.
use avent.Base.{
  ℕ, ◌+◌, ◌*◌, ◌%◌, none, some, Option, done, panic, ◌<◌, ◌==◌, if◌then◌else◌, List, ◌∷◌, ◌++◌,
  length, ◌≡◌, ◌⊎◌, Fresh,
}
use avent.Mm.Addr.{page_size}
use avent.Mm.Addr.Virt.{VirtAddr}
use avent.Mm.Frame.{PhysFrame}
use avent.Mm.Allocator.{BitmapAllocator, Memory, store}
use avent.Mm.Allocator.Chain.{frame_of}
use avent.Mm.Allocator.Ownership.{IsSound}
use avent.Paging.Flags.{PageFlags, MapError, UnmapError}
use avent.Paging.Mapper.{ok, err, Machine}
use avent.Paging.Trait.{Mapper}

-- Which frame and flags the page at an address has.
abbrev pub Pages : Type 0
Pages = VirtAddr → Option (PhysFrame × PageFlags)

abbrev pub put : Pages → VirtAddr → Option (PhysFrame × PageFlags) → Pages
put pages virt p w = if w == virt then p else pages w

module _ (m : Mapper) (Shows : m.Self → Memory → ℕ → List ℕ → Pages → Type 0) where
  -- The mapper shows `pages`, with its tables in the frames `tables`. The frames `held` and `tables` are
  -- distinct and allocated, and with the free ones they are `total` in number.
  pub record Sound (self : m.Self) (machine : Machine) (pages : Pages) (held : List ℕ) (total : ℕ)
      : Type 0 where
    pub allocator : BitmapAllocator
    pub chain : List ℕ
    pub tables : List ℕ
    pub ready : machine.frames ≡ some allocator
    pub shows : Shows self machine.memory allocator.hhdm_offset tables pages
    pub sound :
        IsSound chain
          (record { allocator = allocator; memory = machine.memory; held = held ++ tables })
    pub counted : allocator.free + length (held ++ tables) ≡ total

  -- The free frames may not be enough for the tables of a path: it has three tables below the root.
  abbrev pub Scarce : m.Self → Machine → Pages → List ℕ → ℕ → Type 0
  Scarce self machine pages held total =
      (s : Sound self machine pages held total) × (s.allocator.free < 3)

  -- `map` of a page that is not mapped: it is mapped, or there is an error and no page has changed, or
  -- it panics for want of a frame for a table.
  abbrev pub Maps :
      m.Self → Machine → Pages → List ℕ → ℕ → VirtAddr → PhysFrame → PageFlags → Type 0
  Maps self machine pages held total virt frame flags =
      let o = m.map self machine virt frame flags in
      ((self' : m.Self) × (machine' : Machine) × (o ≡ done (self', machine', ok virt))
        × Sound self' machine' (put pages virt (some (frame, flags))) held total)
      ⊎ ((self' : m.Self) × (machine' : Machine) × (e : MapError) × (o
            ≡ done (self', machine', err (frame, e)))
          × Sound self' machine' pages held total)
      ⊎ ((o ≡ panic) × Scarce self machine pages held total)

  -- `unmap` of a page that is mapped.
  abbrev pub Unmaps : m.Self → Machine → Pages → List ℕ → ℕ → VirtAddr → PhysFrame → Type 0
  Unmaps self machine pages held total virt frame =
      (self' : m.Self) × (machine' : Machine) × (m.unmap self machine virt
        ≡ done (self', machine', ok (frame, virt)))
      × Sound self' machine' (put pages virt none) held total

  -- `unmap` of a page that is not mapped.
  abbrev pub Refuses : m.Self → Machine → Pages → List ℕ → ℕ → VirtAddr → Type 0
  Refuses self machine pages held total virt =
      (self' : m.Self) × (machine' : Machine) × (e : UnmapError) × (m.unmap self machine virt
        ≡ done (self', machine', err e))
      × Sound self' machine' pages held total

pub record IsLawful (m : Mapper) : Type 1 where
  pub Shows : m.Self → Memory → ℕ → List ℕ → Pages → Type 0
  -- The addresses that the mapper can map.
  pub Reaches : VirtAddr → Type 0
  -- What `translate` gives for flags.
  pub shown : PageFlags → PageFlags
  -- A write at the start of a frame without a table changes no page.
  pub keeps :
      (self : m.Self) (memory : Memory) (hhdm : ℕ) (tables : List ℕ) (pages : Pages) (i word : ℕ)
      → Fresh i tables
      → Shows self memory hhdm tables pages
      → Shows self (store memory (i * page_size + hhdm) word) hhdm tables pages
  pub maps :
      (self : m.Self) (machine : Machine) (pages : Pages) (held : List ℕ) (total : ℕ)
      (virt : VirtAddr) (i : ℕ) (flags : PageFlags)
      → Sound m Shows self machine pages (i ∷ held) total
      → flags < 64
      → virt % page_size ≡ 0
      → Reaches virt
      → pages virt ≡ none
      → Maps m Shows self machine pages (i ∷ held) total virt (frame_of i) flags
  pub unmaps :
      (self : m.Self) (machine : Machine) (pages : Pages) (held : List ℕ) (total : ℕ)
      (virt : VirtAddr) (frame : PhysFrame) (flags : PageFlags)
      → Sound m Shows self machine pages held total
      → virt % page_size ≡ 0
      → pages virt ≡ some (frame, flags)
      → Unmaps m Shows self machine pages held total virt frame
  pub refuses :
      (self : m.Self) (machine : Machine) (pages : Pages) (held : List ℕ) (total : ℕ)
      (virt : VirtAddr)
      → Sound m Shows self machine pages held total
      → virt % page_size ≡ 0
      → Reaches virt
      → pages virt ≡ none
      → Refuses m Shows self machine pages held total virt
  pub translates :
      (self : m.Self) (machine : Machine) (pages : Pages) (held : List ℕ) (total : ℕ)
      (virt : VirtAddr)
      → Sound m Shows self machine pages held total
      → virt % page_size ≡ 0
      → Reaches virt
      → m.translate self machine.memory virt
        ≡ done (elim (pages virt) [ none ↦ none | some p ↦ some (p.0.base, shown p.1) ])
