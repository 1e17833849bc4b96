-- ===== src/Mm/AddressSpace.antt =====
-- eira/src/mm/address_space.rs: a root page table and the two pools of virtual addresses. The mapper
-- is any implementation of the trait `Mapper`.
--
-- `Platform` is what the calls share: the frame allocator and the memory, whether a guard of
-- FRAME_ALLOCATOR is alive, and the pages invalidated in the TLB, the latest last. To lock
-- FRAME_ALLOCATOR while a guard is alive spins forever; such a call has no value, and is a `panic`
-- here. A temporary guard lives to the end of its statement, which for the scrutinee of a `match`
-- is the end of the `match`.
pub mod Ranges
pub mod Boot
pub mod Lawful
pub mod Frames
pub mod Rollback
pub mod GiveUp
pub mod Pages
pub mod Pools
pub mod Unmap
pub mod Dealloc
pub mod RoundTrip
pub mod Tree
mod Tests
pub mod AllocAndMap
use avent.Base.Words.{checked_mul, add, mul}
use avent.Base.{
  ℕ, zero, suc, ◌+◌, ◌/◌, Bool, true, false, Option, none, some, Outcome, done, panic, assert,
  expect, ◌>>=◌, ◌>>◌, ltb, if◌then◌else◌, List, [], ◌∷◌, ◌++◌, length,
}
use avent.Mm.Addr.{page_size}
use avent.Mm.Addr.Phys.{PhysAddr}
use avent.Mm.Addr.Virt.{VirtAddr}
use avent.Mm.Frame.{PhysFrame, from_base}
use avent.Mm.Allocator
use avent.Mm.Init
use avent.Mm.Vm.Region.{Region, RegionAllocator, RegionError}
use avent.Mm.Vm.Region
use avent.Mm.Vm.Layout.{heap_region_allocator, kernel_vm_region_allocator}
use avent.Paging.Flags.{PageFlags, MapError, UnmapError}
use avent.Paging.Mapper.{Result, ok, err, TlbFlush, PageTableMapper, Machine, zero_table}
use avent.Paging.Trait.{Mapper}

pub record MapRequest : Type 0 where
  pub virt : VirtAddr
  pub frame : PhysFrame
  pub flags : PageFlags

pub data AddressSpaceError : Type 0 where
  region_error : RegionError → AddressSpaceError
  map_error : MapError → AddressSpaceError
  unmap_error : UnmapError → AddressSpaceError
  out_of_physical_memory : AddressSpaceError

pub data AllocKind : Type 0 where
  heap kernel_vm : AllocKind

pub record Platform : Type 0 where
  pub machine : Machine
  pub locked : Bool
  pub flushed : List VirtAddr

-- `Result::map_err`
abbrev pub map_err : {A E F : Type 0} → (E → F) → Result A E → Result A F
map_err f (ok a) = ok a
map_err f (err e) = err (f e)

abbrev pub from_region : {A : Type 0} → Region.Result A → Result A AddressSpaceError
from_region (Region.ok a) = ok a
from_region (Region.err e) = err (region_error e)

-- `.expect(..)` on a `Result`
abbrev pub expect_ok : {A E : Type 0} → Result A E → Outcome A
expect_ok (ok a) = done a
expect_ok (err e) = panic

-- `if first_err.is_none()`
abbrev pub keep_first : Option AddressSpaceError → AddressSpaceError → Option AddressSpaceError
keep_first none e = some e
keep_first (some f) e = some f

-- The address of the page `i` after `base`.
unfoldable pub page_at : VirtAddr → ℕ → Outcome VirtAddr
page_at base i = do offset ← mul i page_size; add base offset

-- `FRAME_ALLOCATOR.lock().as_mut().and_then(|a| a.allocate())`
unfoldable pub try_allocate : Platform → Outcome (Platform × Option PhysFrame)
try_allocate st = if st.locked then panic else elim st.machine.frames [
  | none ↦ done (st, none)
  | some a ↦ do
    (a, frame) ← Allocator.allocate a st.machine.memory
    done (record st { machine = record { frames = some a; memory = st.machine.memory } }, frame)
]

-- `FRAME_ALLOCATOR.lock().as_mut().expect(..).deallocate_owned(frame)`
unfoldable pub deallocate_owned : Platform → PhysFrame → Outcome Platform
deallocate_owned st frame = if st.locked then panic else do
  (frames, memory) ← Init.deallocate st.machine.frames st.machine.memory frame
  done (record st { machine = record { frames = frames; memory = memory } })

module _ (m : Mapper) where
  pub record AddressSpace : Type 0 where
    pub root : Option PhysFrame
    pub mapper : m.Self
    pub heap_va : RegionAllocator
    pub kernel_vm_va : RegionAllocator

  unfoldable pub from_mapper : m.Self → Outcome AddressSpace
  from_mapper mapper = do
    heap_va ← heap_region_allocator
    kernel_vm_va ← kernel_vm_region_allocator
    done (record { root = none; mapper = mapper; heap_va = heap_va; kernel_vm_va = kernel_vm_va })

  unfoldable pub region_allocator_for : AddressSpace → AllocKind → RegionAllocator
  region_allocator_for self heap = self.heap_va
  region_allocator_for self kernel_vm = self.kernel_vm_va

  -- A write through the reference that `region_allocator_for` returns.
  unfoldable pub with_region_allocator : AddressSpace → AllocKind → RegionAllocator → AddressSpace
  with_region_allocator self heap a = record self { heap_va = a }
  with_region_allocator self kernel_vm a = record self { kernel_vm_va = a }

  unfoldable pub map :
      AddressSpace
      → Platform
      → MapRequest
      → Outcome (AddressSpace × Platform × Result TlbFlush (PhysFrame × AddressSpaceError))
  map self st req = do
    (mapper, machine, r) ← m.map self.mapper st.machine req.virt req.frame req.flags
    done (
      record self { mapper = mapper },
      record st { machine = machine },
      map_err (λ e. (e.0, map_error e.1)) r,
    )

  unfoldable pub unmap :
      AddressSpace
      → Platform
      → VirtAddr
      → Outcome (AddressSpace × Platform × Result (PhysFrame × TlbFlush) AddressSpaceError)
  unmap self st virt = do
    (mapper, machine, r) ← m.unmap self.mapper st.machine virt
    done (record self { mapper = mapper }, record st { machine = machine }, map_err unmap_error r)

  unfoldable pub remap :
      AddressSpace
      → Platform
      → VirtAddr
      → PageFlags
      → Outcome (AddressSpace × Platform × Result TlbFlush AddressSpaceError)
  remap self st virt new_flags = do
    (mapper, machine, r) ← m.remap self.mapper st.machine virt new_flags
    done (record self { mapper = mapper }, record st { machine = machine }, map_err unmap_error r)

  unfoldable pub translate :
      AddressSpace → Platform → VirtAddr → Outcome (Option (PhysAddr × PageFlags))
  translate self st virt = m.translate self.mapper st.machine.memory virt

  unfoldable pub alloc_virt :
      AddressSpace → ℕ → ℕ → AllocKind → Outcome (AddressSpace × Result Region AddressSpaceError)
  alloc_virt self size align kind = do
    (a, r) ← Region.alloc (region_allocator_for self kind) size align
    done (with_region_allocator self kind a, from_region r)

  unfoldable pub free_virt :
      AddressSpace
      → Region
      → AllocKind
      → Outcome (AddressSpace × Result (Unit {0}) AddressSpaceError)
  free_virt self r kind = do
    (a, r) ← Region.free (region_allocator_for self kind) r
    done (with_region_allocator self kind a, from_region r)

  -- `free_virt(..).expect(..)`
  unfoldable pub free_virt_expect : AddressSpace → Region → AllocKind → Outcome AddressSpace
  free_virt_expect self r kind = do
    (self, freed) ← free_virt self r kind
    freed ← expect_ok freed
    done self

  unfoldable pub heap_free_bytes : AddressSpace → Outcome ℕ
  heap_free_bytes self = Region.free_bytes self.heap_va

  unfoldable pub kernel_vm_free_bytes : AddressSpace → Outcome ℕ
  kernel_vm_free_bytes self = Region.free_bytes self.kernel_vm_va
