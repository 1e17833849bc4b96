-- ===== src/Mm/AddressSpace/Tests.antt =====
-- The address space on examples, with the page tables of x86_64: the tables for the first 2 MiB are
-- there, in the frames 4 to 7.
use avent.Base.{
  ℕ, ◌*◌, true, false, none, some, Option, Outcome, done, panic, ◌==◌, if◌then◌else◌, List, [], ◌∷◌,
  ◌≡◌, arith,
}
use avent.Mm.Addr.{page_size}
use avent.Mm.Addr.Virt.{VirtAddr, is_canonical}
use avent.Mm.Addr.Virt
use avent.Mm.Addr.Phys
use avent.Base.Words
use avent.Base.{◌+◌, ◌%◌, ◌^◌, ◌<◌, false, sym, ◌∙◌}
use avent.Paging.Entry.{entry_flags_from_page_flags}
use avent.Paging.Entry
use avent.Paging.Table.{two, three, four, index_of, indices-low_bits}
use avent.Mm.AddressSpace.Tree.{table_of, LeadsTo}
use avent.Mm.Allocator.{store}
use avent.Mm.Allocator.{BitmapAllocator, Memory, free_list_empty}
use avent.Mm.Allocator
use avent.Mm.Vm.Region.{Region, RegionAllocator}
use avent.Mm.Vm.Region
use avent.Paging.Mapper.{Result, Machine, ok, err}
use avent.Mm.AddressSpace.{AddressSpace, AddressSpaceError, heap, Platform}
use avent.Mm.AddressSpace.Ranges.{alloc_and_map}
use avent.Mm.AddressSpace.Unmap.{filled}
use avent.Mm.Allocator.Chain.{frame_of}
use avent.Mm.AddressSpace.Lawful.{Pages}
use avent.Mm.AddressSpace.Tree.{Tree}
use avent.Paging.Trait.{page_table_mapper}
use avent.Paging.Mapper.{PageTableMapper}

-- The frame 4 has the root, and 5, 6 and 7 the tables below it.
abbrev tables : List ℕ
tables = 4 ∷ 5 ∷ 6 ∷ 7 ∷ []

-- The frames 2 and 3 are free, and 4 to 7 are taken.
abbrev two_free : BitmapAllocator
two_free = record {
  bitmap = 240 ∷ [];
  free_list_head = 8192;
  hhdm_offset = 65536;
  total = 8;
  free = 2;
}

abbrev linked : Memory
linked a =
    if a == 73728
    then 12288
    else if a == 77824
    then free_list_empty
    else if a == 81920
    then 20487
    else if a == 86016
    then 24583
    else if a == 90112
    then 28679
    else 0

abbrev four_pages : Region
four_pages = Region.region 65536 16384

abbrev pool : RegionAllocator
pool = record { slots = λ i. four_pages; len = 1 }

abbrev unmapped : Pages
unmapped v = none

abbrev IsLow : VirtAddr → Type 0
IsLow v = (v % page_size ≡ 0) × (v < 2 ^ 21)

low_indices :
    (v : VirtAddr) → IsLow v → (index_of four v ≡ 0) × (index_of three v ≡ 0) × (index_of two v ≡ 0)
low_indices v r =
    let bits = indices-low_bits v in
    (omega (arith, bits, r.1), omega (arith, bits, r.1), omega (arith, bits, r.1))

low_canonical : (v : VirtAddr) → IsLow v → is_canonical v ≡ true
unfolding is_canonical
low_canonical v r = ground (arith, r.1)

abbrev low_tree : Tree
low_tree = record {
  Reaches = IsLow;
  root = 4;
  l3 = λ v. 5;
  l2 = λ v. 6;
  l1 = λ v. 7;
  canonical = low_canonical;
  aligned = λ v r. r.0;
  apart = λ v w r q. ((λ e. omega (arith, e)), (λ e. omega (arith, e)), (λ e. omega (arith, e)));
  shared = λ v w r q e.
      let a = low_indices v r in
      let b = low_indices w q in (a.0 ∙ sym b.0, a.1 ∙ sym b.1, a.2 ∙ sym b.2);
}

abbrev mapper : PageTableMapper
mapper = record { pml4 = frame_of 4; hhdm_offset = 65536 }

-- The first entry of the tables above the leaves.
abbrev FirstLeads : ℕ → Type 0
FirstLeads j = LeadsTo 65536 (linked (table_of 65536 j + 8 * 0)) (j + 1)

abbrev space : AddressSpace page_table_mapper
space = record { root = none; mapper = mapper; heap_va = pool; kernel_vm_va = pool }

abbrev platform : Platform
platform = record {
  machine = record { frames = some two_free; memory = linked };
  locked = false;
  flushed = [];
}

abbrev after_ok :
    Outcome (AddressSpace page_table_mapper × Platform × Result Region AddressSpaceError)
    → AddressSpace page_table_mapper × Platform × Region
after_ok (done (s, st, ok r)) = (s, st, r)
after_ok (done (s, st, err e)) = (s, st, four_pages)
after_ok panic = (space, platform, four_pages)

-- Two pages.
abbrev backed :
    Outcome (AddressSpace page_table_mapper × Platform × Result Region AddressSpaceError)
backed = alloc_and_map page_table_mapper space platform 8192 4096 3 heap

abbrev backed_space : AddressSpace page_table_mapper
backed_space = (after_ok backed).0

abbrev backed_platform : Platform
backed_platform = (after_ok backed).1

abbrev backed_region : Region
backed_region = (after_ok backed).2

-- The frame 2 is left.
abbrev taken_allocator : BitmapAllocator
taken_allocator = record two_free { bitmap = 248 ∷ []; free = 1 }

abbrev taken_linked : Memory
taken_linked = store linked 73728 free_list_empty

abbrev taken_machine : Machine
taken_machine = record { frames = some taken_allocator; memory = taken_linked }

-- The second of the two pages is not mapped.
abbrev spots : List (Option ℕ)
spots = some 2 ∷ none ∷ []

abbrev half_mapped : Pages
half_mapped = filled 65536 3 unmapped spots

abbrev two_pages : Region
two_pages = Region.region 65536 8192

abbrev empty_pool : RegionAllocator
empty_pool = record { slots = λ i. two_pages; len = 0 }

abbrev pool_after : Outcome (RegionAllocator × Region.Result (Unit {0})) → RegionAllocator
pool_after (done (t, r)) = t
pool_after panic = empty_pool

abbrev full_pool : RegionAllocator
full_pool = pool_after (Region.free empty_pool two_pages)

-- The leaf entry of the first page is made.
abbrev half_linked : Memory
half_linked = store linked 94336 (Entry.new (frame_of 2) (entry_flags_from_page_flags 3))

abbrev half_allocator : BitmapAllocator
half_allocator = record two_free { bitmap = 244 ∷ []; free_list_head = 12288; free = 1 }

abbrev half_space : AddressSpace page_table_mapper
half_space = record space { heap_va = empty_pool }

abbrev half_platform : Platform
half_platform = record platform {
  machine = record { frames = some half_allocator; memory = half_linked };
}
