-- ===== src/Paging/Tests.antt =====
-- Page-table entries and indices on examples.
use avent.Mm.Addr.Phys
use avent.Mm.Addr.Virt
use avent.Mm.Allocator.{Memory}
use avent.Paging.Flags.{UnmapError, already_mapped}
use avent.Paging.Mapper
use avent.Paging.Mapper.{PageTableMapper, Machine, ok, err, walk, walk_level, translate}
use avent.Paging.Mapper.Unmap.{unmap-translate}
use avent.Mm.Addr.Phys.{PhysAddr}
use avent.Paging.Flags.{PageFlags}
use avent.Paging.Mapper.Map.{IsKept, HugeAtTop, HugeAtLeaf, map-translate, remap-translate}
use avent.Base.Words.{is_power_of_two}
use avent.Base.{◌==◌, if◌then◌else◌, ◌⊎◌, true, false, none, some, done, ◌≡◌, refl, arith}
use avent.Mm.Addr.Virt.{VirtAddr, is_canonical}
use avent.Mm.Frame.{PhysFrame, frame_at, from_base}
use avent.Paging.Flags
use avent.Paging.Entry.{
  EntryFlags, is_present, is_huge, present, contains, flags, frame, new,
  page_flags_from_entry_flags,
}
use avent.Paging.Entry.Fields.{new-fields}
use avent.Paging.Table.{index_of, indices-injective}

abbrev some_frame : PhysFrame
some_frame = frame_at 12288

abbrev data_flags : EntryFlags
data_flags = 9223372036854775811

new-fields_example :
    (flags (new some_frame data_flags) ≡ data_flags)
    × (contains data_flags present ≡ true
        → frame (new some_frame data_flags) ≡ done (some some_frame))
    × (contains data_flags present ≡ false → frame (new some_frame data_flags) ≡ done none)
new-fields_example = new-fields some_frame data_flags (omega arith) refl (omega arith) refl

-- In the upper half.
abbrev high_address : VirtAddr
high_address = 18446691297151422467

high_address-canonical : is_canonical high_address ≡ true
unfolding is_canonical
high_address-canonical = refl

indices-injective_example : high_address ≡ high_address
indices-injective_example =
    indices-injective high_address high_address high_address-canonical high_address-canonical
      (λ l. refl) refl

-- Tables at the frames 4096, 8192, 12288 and 16384 for the first pages; page 3 is mapped to frame 20480.
abbrev tables : Memory
tables a =
    if a == 69632
    then 8199
    else if a == 73728
    then 12295
    else if a == 77824
    then 16391
    else if a == 81944
    then 20483
    else 0

abbrev mapper : PageTableMapper
mapper = record { pml4 = frame_at 4096; hhdm_offset = 65536 }

abbrev machine : Machine
machine = record { frames = none; memory = tables }

unmap-translate_example :
    (n : Memory) × (Mapper.unmap mapper machine 12288
      ≡ done (record machine { memory = n }, ok (frame_at 20480, 12288)))
    × (translate mapper n 12288 ≡ done none)
unfolding translate walk walk_level is_present is_huge flags frame from_base index_of
    is_power_of_two Phys.is_aligned Virt.is_aligned page_flags_from_entry_flags
unmap-translate_example = unmap-translate mapper machine 12288 (20480, 7) refl refl

remap-translate_example :
    ((Mapper.remap mapper machine 12288 1 ≡ done (machine, err UnmapError.not_mapped))
      × HugeAtTop mapper tables 12288)
    ⊎ ((Mapper.remap mapper machine 12288 1 ≡ done (machine, err UnmapError.huge_page))
        × HugeAtLeaf mapper tables 12288)
    ⊎ ((n : Memory) × (Mapper.remap mapper machine 12288 1
          ≡ done (record machine { memory = n }, ok 12288))
        × (translate mapper n 12288 ≡ done (some (20480, Flags.or 1 Flags.read))))
unfolding translate walk walk_level is_present is_huge flags frame from_base index_of
    is_power_of_two Phys.is_aligned Virt.is_aligned page_flags_from_entry_flags
remap-translate_example = remap-translate mapper machine 12288 (20480, 7) 1 refl refl (omega arith)

map-translate_example :
    ((Mapper.map mapper machine 4096 (frame_at 24576) 3
        ≡ done (machine, err (frame_at 24576, already_mapped)))
      × ((is_present (tables 81928) ≡ true) ⊎ HugeAtTop mapper tables 4096))
    ⊎ ((is_present (tables 81928) ≡ false)
        × ((n : Memory) × (Mapper.map mapper machine 4096 (frame_at 24576) 3
              ≡ done (record machine { memory = n }, ok 4096))
            × (translate mapper n 4096 ≡ done (some (24576, Flags.or 3 Flags.read)))
            × IsKept mapper tables n 12288))
unfolding walk walk_level is_present is_huge flags frame from_base index_of is_power_of_two
    Phys.is_aligned Virt.is_aligned is_canonical
map-translate_example =
    map-translate mapper machine 4096 81928 (frame_at 24576) 3 12288 refl refl refl (omega arith)
      refl (omega arith)
