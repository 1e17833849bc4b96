-- ===== src/Mm/Allocator.antt =====
-- eira/src/mm/allocator/bitmap.rs and the trait of eira/src/mm/allocator/mod.rs.
--
-- The free list is threaded through memory: `Memory` gives the 8-byte word at a virtual address,
-- and a `FreeNode` is the word at the start of its frame. The bitmap is a list of bytes; it lies
-- outside the frames that the allocator hands out, which is what `add_region` asks of its caller.
pub mod Bitmap
pub mod Regions
pub mod Ownership
pub mod Chain
use avent.Base.Words.{add, sub, usize_values, usize_max}
use avent.Base.{
  ℕ, zero, suc, ◌+◌, ◌-◌, ◌*◌, ◌/◌, ◌%◌, ◌^◌, bit_and, bit_or, Bool, true, false, not, Option, none,
  some, Outcome, done, panic, assert, expect, ◌>>=◌, ◌>>◌, leb, ltb, ◌==◌, if◌then◌else◌, List,
  length, get_or, set,
}
use avent.Mm.Addr.{page_size}
use avent.Mm.Addr.Phys
use avent.Mm.Addr.Phys.{PhysAddr}
use avent.Mm.Frame.{PhysFrame, containing, index, from_index}

abbrev pub free_list_empty : ℕ
free_list_empty = usize_max

abbrev pub Memory : Type 0
Memory = ℕ → ℕ

abbrev pub store : Memory → ℕ → ℕ → Memory
store memory at word a = if a == at then word else memory a

pub record BitmapAllocator : Type 0 where
  pub bitmap : List ℕ
  pub free_list_head : ℕ
  pub hhdm_offset : ℕ
  pub total : ℕ
  pub free : ℕ

unfoldable pub new : List ℕ → ℕ → ℕ → Outcome BitmapAllocator
new bitmap hhdm_offset max_phys_addr = do
  sum ← add max_phys_addr page_size
  padded ← sub sum 1
  let total = padded / page_size
  let required = (total + 7) / 8
  assert (leb required (length bitmap))
  done (record {
    bitmap = bitmap;
    free_list_head = free_list_empty;
    hhdm_offset = hhdm_offset;
    total = total;
    free = 0;
  })

unfoldable pub is_allocated : BitmapAllocator → PhysFrame → Bool
is_allocated self frame =
    let idx = index page_size frame in
    let byte = idx / 8 in
    let bit = idx % 8 in
    if leb (length self.bitmap) byte
    then true
    else not (bit_and (get_or self.bitmap byte 0) (2 ^ bit) == 0)

unfoldable pub mark_allocated : BitmapAllocator → PhysFrame → Outcome BitmapAllocator
mark_allocated self frame = do
  let idx = index page_size frame
  let byte = idx / 8
  let bit = idx % 8
  assert (ltb byte (length self.bitmap))
  done
      (record self { bitmap = set self.bitmap byte (bit_or (get_or self.bitmap byte 0) (2 ^ bit)) })

-- `!(1 << bit)` on a byte is `255 - (1 << bit)`.
unfoldable pub mark_free : BitmapAllocator → PhysFrame → Outcome BitmapAllocator
mark_free self frame = do
  let idx = index page_size frame
  let byte = idx / 8
  let bit = idx % 8
  assert (ltb byte (length self.bitmap))
  done (record self {
    bitmap = set self.bitmap byte (bit_and (get_or self.bitmap byte 0) (2 ^ 8 - 1 - 2 ^ bit));
  })

-- The address of the frame's list node. `as_mut` and `as_ref` refuse a null pointer.
unfoldable pub node_at : BitmapAllocator → ℕ → Outcome ℕ
node_at self phys = do virt ← add phys self.hhdm_offset; assert (not (virt == 0)); done virt

unfoldable pub free_frame :
    BitmapAllocator → Memory → PhysFrame → Outcome (BitmapAllocator × Memory)
free_frame self memory frame = do
  self ← mark_free self frame
  node ← node_at self frame.base
  free ← add self.free 1
  done (
    record self { free_list_head = frame.base; free = free },
    store memory node self.free_list_head,
  )

unfoldable pub pop_free : BitmapAllocator → Memory → Outcome (BitmapAllocator × Option PhysFrame)
pop_free self memory = if self.free_list_head == free_list_empty then done (self, none) else do
  node ← node_at self self.free_list_head
  frame ← expect (from_index page_size (self.free_list_head / page_size))
  self ← mark_allocated (record self { free_list_head = memory node }) frame
  free ← sub self.free 1
  done (record self { free = free }, some frame)

unfoldable pub allocate : BitmapAllocator → Memory → Outcome (BitmapAllocator × Option PhysFrame)
unfolding pop_free
allocate self memory = pop_free self memory

unfoldable pub deallocate :
    BitmapAllocator → Memory → PhysFrame → Outcome (BitmapAllocator × Memory)
deallocate self memory frame = do assert (is_allocated self frame); free_frame self memory frame

-- The loop of `add_region` from `frame` to `end`, with `fuel` rounds left.
unfoldable pub add_frames :
    ℕ → BitmapAllocator → Memory → PhysFrame → PhysFrame → Outcome (BitmapAllocator × Memory)
add_frames zero self memory frame end = done (self, memory)
add_frames (suc fuel) self memory frame end = elim (ltb frame.base end.base) [
  | true ↦ do
    (self, memory) ← free_frame self memory frame
    elim (from_index page_size (index page_size frame + 1)) [
      | some next ↦ add_frames fuel self memory next end
      | none ↦ done (self, memory)
    ]
  | false ↦ done (self, memory)
]

unfoldable pub add_region :
    BitmapAllocator → Memory → PhysAddr → ℕ → Outcome (BitmapAllocator × Memory)
add_region self memory base len = do
  first ← Phys.align_up base page_size
  start ← expect first
  start_frame ← containing page_size start
  elim (Phys.checked_add base len) [
    | none ↦ done (self, memory)
    | some end_addr ↦ do
      end ← Phys.align_down end_addr page_size
      end_frame ← containing page_size end
      if leb end_frame.base start_frame.base
          then done (self, memory)
          else add_frames (index page_size end_frame - index page_size start_frame) self memory
              start_frame end_frame
  ]

abbrev pub total_frames : BitmapAllocator → ℕ
total_frames self = self.total

abbrev pub free_frames : BitmapAllocator → ℕ
free_frames self = self.free

-- `FrameAllocator::used_frames`
unfoldable pub used_frames : BitmapAllocator → Outcome ℕ
used_frames self = sub (total_frames self) (free_frames self)

-- `FrameAllocator::allocate_contiguous`
unfoldable pub allocate_contiguous :
    BitmapAllocator → Memory → ℕ → Outcome (BitmapAllocator × Option PhysFrame)
allocate_contiguous self memory count =
    if count == 1 then allocate self memory else done (self, none)
