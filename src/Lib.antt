-- ===== src/Lib.antt =====
-- The memory management, the scheduler and the interrupts of the eira kernel.
--
-- What the program is. eira is a small kernel for x86_64. At boot it puts the usable physical
-- memory on the free list of a frame allocator, builds page tables, hands out ranges of kernel
-- addresses, and then runs kernel tasks that yield to each other.
--
-- The parts and their files. Paths are from the repository's root.
-- - Base and its modules: numbers, Boolean tests, lists, bits, 64-bit words, and `Outcome`, what a
--   call comes to: a value or a panic.
-- - Mm.Addr is eira/src/mm/addr.rs: Phys is `PhysAddr`, Virt is `VirtAddr`, with a function for
--   each method. Align and Canonical have the lemmas.
-- - Mm.Frame is eira/src/mm/frame.rs: `PhysFrame` for any frame size, and Range is `FrameRange`
--   with its iterator `next`.
-- - Mm.Allocator is eira/src/mm/allocator: the bitmap is a list of bytes, and physical memory,
--   which holds the links of the free list, is a function from virtual addresses in the direct map
--   to words. Bitmap, Chain, Regions and Ownership have the lemmas: the bits, one operation on the
--   free list, `add_region`, and runs of a client's operations.
-- - Mm.Blocks is what the two allocators of address ranges have in common: lists of blocks in
--   order, the place of one more, what a block that is taken out leaves, and what the lists cover,
--   hold and weigh.
-- - Mm.Vm is eira/src/mm/vm: Region is the allocator of virtual regions on an array of 64 slots,
--   Layout the two ranges of kernel addresses. View and Merge refine the array to a list of
--   regions, Spec names its blocks of whole pages, Weld, Add, Fit, Carve, Alloc and Split are about
--   the operations.
-- - Mm.Heap is eira/src/mm/heap.rs: memory is a function from the address of a header to the
--   header, and a link is the head of the list or the `next` of a block. `seek` is the loop of
--   `insert_and_coalesce`, `search` that of `alloc`. Chain has the list in memory; Insert and Place
--   are about insertion; Search, Relink, Carve and Take about allocation; Invariant, Given and
--   Steps state the operations on lists of blocks; World, Live and Reach are about a client and its
--   runs.
-- - Mm.Init is eira/src/mm/init.rs: the set-up of the global frame allocator from the memory map,
--   and its `allocate` and `deallocate`. Parts is about what an entry of the map gives to the
--   allocator.
-- - Paging is eira/src/mm/paging/mod.rs (Flags) and eira/src/arch/x86_64/paging/entry.rs, table.rs
--   and mapper.rs (Entry, Table, Mapper). The mapper works on the words of physical memory as the
--   direct map shows them; `walk_level`, `next_table` and `unmap_level` are one level of `walk`,
--   `walk_or_create` and `unmap`. Walk and Store have the lemmas on paths of tables and writes to
--   them, Leaf those on entries, Map and Unmap are about the calls.
-- - Paging.Trait is the trait `Mapper` of eira/src/mm/paging/mod.rs, a record of its calls, and the
--   page tables of x86_64 as one.
-- - Mm.AddressSpace is eira/src/mm/address_space.rs over any such mapper: the calls on one page and
--   on the pools are in the module itself, those on ranges in Ranges, and Boot makes an address
--   space, with `create_mapper` and `mapper_from_active` of eira/src/arch/x86_64/imp.rs.
--   `map_pages`, `unmap_pages`, `map_frames`, `rollback_pages` and `flush_pages` are the loops.
--   Lawful says what is asked of a mapper; Frames, Rollback, GiveUp, Pages, Pools and Unmap have
--   the lemmas; AllocAndMap, Dealloc and RoundTrip are about the calls. Tree is the page tables of
--   x86_64 as such a mapper: a tree of tables that is in memory, with the addresses it reaches;
--   Tree.Stores has what writes do to it, and Tree.Calls fills Lawful.
-- - Arch is eira/src/arch/x86_64: Gdt is gdt.rs, Idt the table and its gates in idt.rs, Irq is
--   irq.rs with `trap_handler` of idt.rs, and Pic is pic.rs, which lists its writes to ports. Stub
--   is the assembly of idt.rs: `save_frame`, `enter_handler` and `leave` are the three parts of
--   `isr_common`. Gdt.Descriptor, Idt.Gates, Irq.Lines and Stub.Resume have the lemmas.
-- - Task is eira/src/task: Types is task.rs; Scheduler is scheduler.rs, with a function for each
--   method and call. Pick, Exit, Invariant, Calls, RoundRobin, Blocking and Flow have the lemmas. A
--   call is taken up to its switch to another context: `exit` panics at its `unreachable!` if the
--   switch goes to the context just saved, and what becomes of a thread that is switched back to
--   later is in Flow. Switch is stack.rs and eira/src/arch/x86_64/context.rs: `save` and `load` are
--   the two halves of `switch_to_asm`.
-- - Mm.Tests, Mm.Vm.Tests, Mm.Heap.Tests, Mm.AddressSpace.Tests, Paging.Tests, Arch.Tests and
--   Task.Tests run the theorems on examples.
--
-- How the parts interact. The frame allocator takes frames and addresses from Mm.Frame and Mm.Addr;
-- the slots of the region allocator hold virtual addresses, which it tests for alignment; the heap
-- keeps its list in the blocks that it has free, at their addresses; an entry of a page table holds
-- a frame of Mm.Frame, and the mapper takes frames for tables from the frame allocator. An address
-- space joins them: it takes a region from the allocator of a pool, frames from the frame
-- allocator, and maps each page with its mapper, all on one memory; what its theorems ask of a
-- mapper is the record IsLawful. The scheduler shares no state with memory management. The trap
-- handler takes its handlers from the registry of lines.
--
-- Conventions. The code is that of the dev profile: an arithmetic overflow, a failed `assert!` or
-- `debug_assert!`, an `expect` on nothing and an index out of range are panics. A `usize` is a
-- number below 2 ^ 64, which theorems say where they need it. A method that changes `self` takes it
-- and gives it back; the counter of task ids, a static, is an argument and a result. A call of the
-- scheduler runs with interrupts off and the scheduler locked, so a call is one step. The context
-- that a switch saves and the one that it loads are named by their owners.
--
-- Bounds and fuel. `add_frames`, the loop of the frame allocator's `add_region`, and `take_items`,
-- which drains an iterator, take fuel, and so do the walks of the heap's list. `add_region` gives
-- the number of frames in the range, and the result about it shows that this is enough;
-- `take_items` is given one call more than there are frames. For the heap any fuel above the number
-- of free blocks is enough. What a client writes into its own blocks is not in the model, as the
-- headers lie in the free blocks. The other loops recurse on a list or on the number of slots left.
--
-- Locks. To lock FRAME_ALLOCATOR while a guard of it is alive spins forever; in Mm.AddressSpace
-- such a call is a panic, the outcome without a value, and the record `Platform` says whether a
-- guard is alive.
--
-- What is not modelled, and why. The tree of tables of Mm.AddressSpace.Tree is fixed; that `map`
-- may also make the tables it misses is in the model of the mapper, but what the tables it makes do
-- to the other addresses is not shown. The iterator of `map_physical_range` is the caller's, so
-- what it does when it is dropped is an argument. The report of an exception, which is text, and
-- the instructions that load a table are left out; what the instructions leave in the processor is
-- a record. Formatting, device input and output, the second architecture, which is stubs, the build
-- tool and the in-kernel tests have no logic of this kind. `FrameRange` and `OwnedFrame` have a few
-- accessors, and `OwnedFrame` a `Drop` that panics, which are left out: a frame that the allocator
-- gives is held by the client until it frees it.
pub mod Arch
pub mod Base
pub mod Mm
pub mod Paging
pub mod Task
