-- ===== src/Mm/Init.antt =====
-- eira/src/mm/init.rs: the global frame allocator, `None` before `init`, its set-up from the memory map of
-- the boot loader, and `allocate` and `deallocate`. The type number of usable memory is that of
-- the boot loader, and an argument. The logging is left out.
pub mod Parts
use avent.Base.Words.{add, sub, mul}
use avent.Base.{
  ℕ, ◌+◌, ◌-◌, ◌*◌, ◌/◌, min, max, Bool, true, false, not, Option, none, some, Outcome, done, panic,
  assert, expect, ◌>>=◌, ◌>>◌, ltb, leb, ◌==◌, ◌&&◌, if◌then◌else◌, List, [], ◌∷◌, replicate,
}
use avent.Mm.Addr.{page_size}
use avent.Mm.Addr.Phys
use avent.Mm.Frame.{PhysFrame}
use avent.Mm.Allocator.{BitmapAllocator, Memory}
use avent.Mm.Allocator

-- FRAME_ALLOCATOR
abbrev pub FrameAllocator : Type 0
FrameAllocator = Option BitmapAllocator

unfoldable pub allocate : FrameAllocator → Memory → Outcome (FrameAllocator × PhysFrame)
allocate frames memory = do
  allocator ← expect frames
  (allocator, frame) ← Allocator.allocate allocator memory
  frame ← expect frame
  done (some allocator, frame)

-- `OwnedFrame::free` of the frame, on the allocator.
unfoldable pub deallocate : FrameAllocator → Memory → PhysFrame → Outcome (FrameAllocator × Memory)
deallocate frames memory frame = do
  allocator ← expect frames
  (allocator, memory) ← Allocator.deallocate allocator memory frame
  done (some allocator, memory)

-- An entry of the memory map.
pub record MemmapEntry : Type 0 where
  pub base : ℕ
  pub length : ℕ
  pub type_number : ℕ

-- `.filter(|e| e.type_ == MEMMAP_USABLE)`
abbrev pub usable_entries : ℕ → List MemmapEntry → List MemmapEntry
usable_entries usable [] = []
usable_entries usable (e ∷ es) =
    let rest = usable_entries usable es in if e.type_number == usable then e ∷ rest else rest

-- `.map(|e| (e.base + e.length) as usize).max()`
abbrev pub highest_end : List MemmapEntry → Outcome (Option ℕ)
highest_end [] = done none
highest_end (e ∷ es) = do
  end ← add e.base e.length
  rest ← highest_end es
  done (elim rest [ none ↦ some end | some m ↦ some (max end m) ])

-- `.find(|e| e.length as usize >= bitmap_size)` of the usable entries
abbrev pub first_fitting : ℕ → List MemmapEntry → Option MemmapEntry
first_fitting size [] = none
first_fitting size (e ∷ es) =
    let rest = first_fitting size es in if leb size e.length then some e else rest

-- One of the two parts of an entry: `add_region`, unless the part is empty or out of range.
unfoldable pub add_part : BitmapAllocator → Memory → ℕ → ℕ → Outcome (BitmapAllocator × Memory)
add_part self memory base len =
    if ltb 0 len
    then elim (Phys.new base) [
      | some start ↦ Allocator.add_region self memory start len
      | none ↦ done (self, memory)
    ]
    else done (self, memory)

-- The body of the last loop of `init`.
unfoldable pub add_entry :
    ℕ → ℕ → BitmapAllocator → Memory → MemmapEntry → Outcome (BitmapAllocator × Memory)
add_entry bitmap_phys bitmap_end self memory entry = do
  region_end ← add entry.base entry.length
  (self, memory) ←
      (if ltb entry.base bitmap_phys
        then (do
          len ← sub (min bitmap_phys region_end) entry.base
          add_part self memory entry.base len)
        else done (self, memory))
  if ltb bitmap_end region_end
      then (do
        let start = max bitmap_end entry.base
        len ← sub region_end start
        add_part self memory start len)
      else done (self, memory)

unfoldable pub add_entries :
    ℕ → ℕ → BitmapAllocator → Memory → List MemmapEntry → Outcome (BitmapAllocator × Memory)
add_entries bitmap_phys bitmap_end self memory [] = done (self, memory)
add_entries bitmap_phys bitmap_end self memory (e ∷ es) = do
  (self, memory) ← add_entry bitmap_phys bitmap_end self memory e
  add_entries bitmap_phys bitmap_end self memory es

-- The frame allocator, the memory, and HHDM_OFFSET after `init`.
unfoldable pub init :
    ℕ → FrameAllocator → Memory → List MemmapEntry → ℕ → Outcome (FrameAllocator × Memory × ℕ)
init usable frames memory memmap hhdm_offset = do
  assert (elim frames [ none ↦ true | some a ↦ false ])
  let entries = usable_entries usable memmap
  highest ← highest_end entries
  max_phys ← expect highest
  padded ← add max_phys page_size
  total_frames ← (do less ← sub padded 1; done (less / page_size))
  let bitmap_bytes = (total_frames + 7) / 8
  let bitmap_pages = (bitmap_bytes + page_size - 1) / page_size
  let bitmap_size = bitmap_pages * page_size
  entry ← expect (first_fitting bitmap_size entries)
  let bitmap_phys = entry.base
  bitmap_at ← add bitmap_phys hhdm_offset
  allocator ← Allocator.new (replicate bitmap_size 0) hhdm_offset max_phys
  bitmap_end ← add bitmap_phys bitmap_size
  (allocator, memory) ← add_entries bitmap_phys bitmap_end allocator memory entries
  done (some allocator, memory, hhdm_offset)
