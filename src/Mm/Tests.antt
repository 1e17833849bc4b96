-- ===== src/Mm/Tests.antt =====
-- Memory management on examples.
use avent.Base.{ℕ, not, ◌&&◌}
use avent.Mm.Init.{MemmapEntry, add_entry}
use avent.Mm.Init.Parts.{parts, add_parts, add_entry-parts}
use avent.Mm.Blocks.{holds, covers}
use avent.Mm.Vm.Region.{region}
use avent.Base.Words.{is_power_of_two}
use avent.Base.{suc, true, done, List, [], ◌∷◌, ◌≡◌, refl, arith}
use avent.Mm.Addr.{page_size}
use avent.Mm.Frame.Range.{len}
use avent.Mm.Frame.Range.Iterate.{take_items, frames_from, range_of, take_items-frames}
use avent.Mm.Allocator.{BitmapAllocator, Memory, free_list_empty, add_region}
use avent.Mm.Allocator.Chain.{Holds}
use avent.Mm.Allocator.Regions.{added, add_region-Holds, first_frame}
use avent.Mm.Allocator.Ownership.{State, Op, IsSound, Continues, run, run-Continues}

page_power : is_power_of_two page_size ≡ true
unfolding is_power_of_two
page_power = refl

take_items-frames_example :
    take_items (suc (len page_size (range_of page_size 1 3))) page_size (range_of page_size 1 3)
    ≡ frames_from (len page_size (range_of page_size 1 3)) page_size 1
take_items-frames_example =
    take_items-frames page_size 1 3 (omega arith) (omega arith) (omega arith)

-- A bitmap of one byte, with nothing on the free list.
abbrev blank : BitmapAllocator
blank = record {
  bitmap = 0 ∷ [];
  free_list_head = free_list_empty;
  hhdm_offset = 65536;
  total = 8;
  free = 0;
}

abbrev nothing : Memory
nothing = λ a. 0

blank-Holds : Holds blank nothing []
blank-Holds = record { tracked = tt; bits = tt; linked = refl; distinct = tt; counted = refl }

add_region-Holds_example :
    (a : BitmapAllocator) × (m : Memory) × (add_region blank nothing 4000 12000 ≡ done (a, m))
    × Holds a m (added 2 (first_frame 4000) [])
add_region-Holds_example =
    add_region-Holds blank nothing [] 4000 12000 (omega arith) (omega arith) blank-Holds
      (omega arith)
      (
        (omega arith, omega arith, omega arith, omega arith),
        tt,
        ((omega arith, omega arith, omega arith, omega arith), tt, tt),
      )

-- Frame 2 is free, frame 3 is held.
abbrev shared : State
shared = record {
  allocator = record {
    bitmap = 8 ∷ [];
    free_list_head = 8192;
    hhdm_offset = 65536;
    total = 8;
    free = 1;
  };
  memory = λ a. free_list_empty;
  held = 3 ∷ [];
}

shared-IsSound : IsSound (2 ∷ []) shared
shared-IsSound = record {
  holds = record {
    tracked = ((omega arith, omega arith, omega arith, omega arith), tt);
    bits = (refl, tt);
    linked = (refl, refl);
    distinct = (tt, tt);
    counted = refl;
  };
  marks = (refl, tt);
  tracks = ((omega arith, omega arith, omega arith, omega arith), tt);
  owners = (tt, tt);
  small = omega arith;
}

abbrev busy_client : List Op
busy_client = Op.alloc ∷ Op.write 0 8 7 ∷ Op.free 1 ∷ Op.alloc ∷ []

run-Continues_example : Continues shared (run busy_client shared)
run-Continues_example = run-Continues busy_client (2 ∷ []) shared shared-IsSound

-- A usable entry that holds the bitmap in its middle.
abbrev around : MemmapEntry
around = record { base = 4096; length = 16384; type_number = 0 }

abbrev fresh_allocator : BitmapAllocator
fresh_allocator = record {
  bitmap = 0 ∷ [];
  free_list_head = free_list_empty;
  hhdm_offset = 65536;
  total = 5;
  free = 0;
}

add_entry-parts_example :
    (add_entry 8192 12288 fresh_allocator (λ a. 0) around
      ≡ add_parts fresh_allocator (λ a. 0) (parts 8192 12288 around))
    × ((a : ℕ)
        → covers (parts 8192 12288 around) a
          ≡ (holds (region 4096 16384) a && not (holds (region 8192 4096) a)))
add_entry-parts_example =
    add_entry-parts 8192 12288 fresh_allocator (λ a. 0) around (omega arith) (omega arith)
      (omega arith)
