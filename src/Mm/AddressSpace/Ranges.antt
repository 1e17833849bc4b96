-- ===== src/Mm/AddressSpace/Ranges.antt =====
-- eira/src/mm/address_space.rs: the calls that map and unmap whole ranges. The iterator of
-- `map_physical_range` is one that owns its frames, a list.
use avent.Base.Words.{checked_mul}
use avent.Base.{
  ℕ, zero, suc, ◌+◌, ◌/◌, true, false, Option, none, some, Outcome, done, assert, expect, ◌>>=◌,
  ◌>>◌, ltb, List, [], ◌∷◌, ◌++◌, length,
}
use avent.Mm.Addr.{page_size}
use avent.Mm.Addr.Virt.{VirtAddr}
use avent.Mm.Frame.{PhysFrame}
use avent.Mm.Vm.Region.{Region}
use avent.Paging.Flags.{PageFlags}
use avent.Paging.Mapper.{Result, ok, err}
use avent.Paging.Trait.{Mapper}
use avent.Mm.AddressSpace.{
  AddressSpaceError, unmap_error, out_of_physical_memory, AllocKind, Platform, expect_ok,
  keep_first, page_at, try_allocate, deallocate_owned, AddressSpace, map, alloc_virt,
  free_virt_expect,
}

-- The loop of `flush_range`, with `n` pages left from page `i` on.
unfoldable pub flush_pages : Platform → VirtAddr → ℕ → ℕ → Outcome Platform
flush_pages st base i zero = done st
flush_pages st base i (suc n) = do
  virt ← page_at base i
  flush_pages (record st { flushed = st.flushed ++ (virt ∷ []) }) base (i + 1) n

unfoldable pub flush_range : Platform → VirtAddr → ℕ → Outcome Platform
flush_range st base count = flush_pages st base 0 count

module _ (m : Mapper) where
  -- The loop of `rollback_range`, with `n` pages left from page `i` on.
  unfoldable pub rollback_pages :
      AddressSpace m → Platform → VirtAddr → ℕ → ℕ → Outcome (AddressSpace m × Platform)
  rollback_pages self st base i zero = done (self, st)
  rollback_pages self st base i (suc n) = do
    virt ← page_at base i
    (mapper, machine, r) ← m.unmap self.mapper st.machine virt
    (frame, flush) ← expect_ok r
    st ← deallocate_owned (record st { machine = machine }) frame
    rollback_pages (record self { mapper = mapper }) st base (i + 1) n

  unfoldable pub rollback_range :
      AddressSpace m → Platform → VirtAddr → ℕ → Outcome (AddressSpace m × Platform)
  rollback_range self st base count = rollback_pages self st base 0 count

  -- The end of an arm that gives up after `i` pages of the region: the pages, then the region.
  unfoldable pub give_up :
      AddressSpace m
      → Platform
      → Region
      → AllocKind
      → ℕ
      → AddressSpaceError
      → Outcome (AddressSpace m × Platform × Result (Unit {0}) AddressSpaceError)
  give_up self st r kind i e = do
    (self, st) ← rollback_range self st r.base i
    self ← free_virt_expect m self r kind
    done (self, st, err e)

  -- The loop of `alloc_and_map`, with `n` pages left from page `i` on. In the arm `None` the guard
  -- of the scrutinee is alive until the function returns.
  unfoldable pub map_pages :
      AddressSpace m
      → Platform
      → Region
      → PageFlags
      → AllocKind
      → ℕ
      → ℕ
      → Outcome (AddressSpace m × Platform × Result (Unit {0}) AddressSpaceError)
  map_pages self st r flags kind i zero = done (self, st, ok tt)
  map_pages self st r flags kind i (suc n) = do
    virt ← page_at r.base i
    (st, frame) ← try_allocate st
    elim frame [
      | none ↦ do
        (self, st, e) ← give_up self (record st { locked = true }) r kind i out_of_physical_memory
        done (self, record st { locked = false }, e)
      | some frame ↦ do
        (self, st, mapped) ← map m self st (record { virt = virt; frame = frame; flags = flags })
        elim mapped [
          | ok flush ↦ map_pages self st r flags kind (i + 1) n
          | err (frame, e) ↦ do st ← deallocate_owned st frame; give_up self st r kind i e
        ]
    ]

  unfoldable pub alloc_and_map :
      AddressSpace m
      → Platform
      → ℕ
      → ℕ
      → PageFlags
      → AllocKind
      → Outcome (AddressSpace m × Platform × Result Region AddressSpaceError)
  alloc_and_map self st size align flags kind = do
    (self, r) ← alloc_virt m self size align kind
    elim r [
      | err e ↦ done (self, st, err e)
      | ok r ↦ do
        let num_pages = size / page_size
        (self, st, mapped) ← map_pages self st r flags kind 0 num_pages
        elim mapped [
          | err e ↦ done (self, st, err e)
          | ok _ ↦ do st ← flush_range st r.base num_pages; done (self, st, ok r)
        ]
    ]

  -- The loop of `unmap_and_dealloc`, with `n` pages left from page `i` on.
  unfoldable pub unmap_pages :
      AddressSpace m
      → Platform
      → VirtAddr
      → Option AddressSpaceError
      → ℕ
      → ℕ
      → Outcome (AddressSpace m × Platform × Option AddressSpaceError)
  unmap_pages self st base first_err i zero = done (self, st, first_err)
  unmap_pages self st base first_err i (suc n) = do
    virt ← page_at base i
    (mapper, machine, r) ← m.unmap self.mapper st.machine virt
    let self = record self { mapper = mapper }
    let st = record st { machine = machine }
    elim r [
      | ok (frame, flush) ↦ do
        st ← deallocate_owned st frame
        unmap_pages self st base first_err (i + 1) n
      | err e ↦ unmap_pages self st base (keep_first first_err (unmap_error e)) (i + 1) n
    ]

  unfoldable pub unmap_and_dealloc :
      AddressSpace m
      → Platform
      → Region
      → AllocKind
      → Outcome (AddressSpace m × Platform × Result (Unit {0}) AddressSpaceError)
  unmap_and_dealloc self st r kind = do
    let num_pages = r.size / page_size
    (self, st, first_err) ← unmap_pages self st r.base none 0 num_pages
    self ← free_virt_expect m self r kind
    st ← flush_range st r.base num_pages
    done (self, st, elim first_err [ some e ↦ err e | none ↦ ok tt ])

  -- The loop of `map_physical_range` on the frames left, from page `i` on. The iterator is the
  -- caller's: `drop_rest` is what it does to drop it with frames left, as a return does.
  unfoldable pub map_frames :
      (List PhysFrame → Platform → Outcome Platform)
      → AddressSpace m
      → Platform
      → Region
      → PageFlags
      → AllocKind
      → ℕ
      → List PhysFrame
      → Outcome (AddressSpace m × Platform × Result (Unit {0}) AddressSpaceError)
  map_frames drop_rest self st r flags kind i [] = done (self, st, ok tt)
  map_frames drop_rest self st r flags kind i (frame ∷ frames) = do
    virt ← page_at r.base i
    (self, st, mapped) ← map m self st (record { virt = virt; frame = frame; flags = flags })
    elim mapped [
      | ok flush ↦ map_frames drop_rest self st r flags kind (i + 1) frames
      | err (frame, e) ↦ do
        st ← deallocate_owned st frame
        (self, st, out) ← give_up self st r kind i e
        st ← drop_rest frames st
        done (self, st, out)
    ]

  unfoldable pub map_physical_range :
      (List PhysFrame → Platform → Outcome Platform)
      → AddressSpace m
      → Platform
      → List PhysFrame
      → ℕ
      → PageFlags
      → AllocKind
      → Outcome (AddressSpace m × Platform × Result Region AddressSpaceError)
  map_physical_range drop_rest self st frames align flags kind = do
    let count = length frames
    assert (ltb 0 count)
    size ← expect (checked_mul count page_size)
    (self, r) ← alloc_virt m self size align kind
    elim r [
      | err e ↦ do st ← drop_rest frames st; done (self, st, err e)
      | ok r ↦ do
        (self, st, mapped) ← map_frames drop_rest self st r flags kind 0 frames
        elim mapped [
          | err e ↦ done (self, st, err e)
          | ok _ ↦ do st ← flush_range st r.base count; done (self, st, ok r)
        ]
    ]
