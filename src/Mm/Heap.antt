-- ===== src/Mm/Heap.antt =====
-- eira/src/mm/heap.rs: the kernel heap. A pointer to a free block is its address, and memory is a
-- function from the address of a header to the header. The code follows a pointer to a link, which is
-- the head of the list or the `next` of a block. A loop over the list takes fuel; without fuel left it
-- counts as a panic.
pub mod Carve
pub mod Chain
pub mod Given
pub mod Insert
pub mod Invariant
pub mod Live
pub mod Place
pub mod Reach
pub mod Relink
pub mod Search
pub mod Steps
pub mod Take
mod Tests
pub mod World
use avent.Base.Words
use avent.Base.Words.{add, sub, complement, checked_add, is_power_of_two}
use avent.Base.{
  ℕ, zero, suc, ◌+◌, ◌-◌, ◌%◌, max, bit_and, Bool, true, false, not, ◌&&◌, Option, none, some,
  Outcome, done, panic, assert, ◌>>=◌, ◌>>◌, leb, ltb, ◌==◌, if◌then◌else◌,
}

-- BLOCK_ALIGN
abbrev pub block_align : ℕ
block_align = 16

-- MIN_BLOCK_SIZE, the size of a header.
abbrev pub min_block_size : ℕ
min_block_size = 16

pub record FreeBlock : Type 0 where
  pub size : ℕ
  pub next : Option ℕ

abbrev pub free_block : ℕ → Option ℕ → FreeBlock
free_block size next = record { size = size; next = next }

abbrev pub Headers : Type 0
Headers = ℕ → FreeBlock

abbrev pub put : Headers → ℕ → FreeBlock → Headers
put memory at block a = if a == at then block else memory a

-- `FreeBlock::end`
abbrev pub end : ℕ → ℕ → Outcome ℕ
end block size = add block size

pub record HeapStats : Type 0 where
  pub total_bytes : ℕ
  pub free_bytes : ℕ
  pub alloc_count : ℕ
  pub dealloc_count : ℕ

abbrev pub used_bytes : HeapStats → Outcome ℕ
used_bytes self = sub self.total_bytes self.free_bytes

abbrev pub is_balanced : HeapStats → Bool
is_balanced self = self.alloc_count == self.dealloc_count && self.free_bytes == self.total_bytes

pub record HeapAllocator : Type 0 where
  pub head : Option ℕ
  pub stats : HeapStats

unfoldable pub new : HeapAllocator
new = record {
  head = none;
  stats = record { total_bytes = 0; free_bytes = 0; alloc_count = 0; dealloc_count = 0 };
}

-- `*mut Option<NonNull<FreeBlock>>`
pub data Link : Type 0 where
  head : Link
  next_of : ℕ → Link

abbrev pub read_link : Link → HeapAllocator → Headers → Option ℕ
read_link head self memory = self.head
read_link (next_of block) self memory = (memory block).next

abbrev pub write_link : Link → Option ℕ → HeapAllocator → Headers → HeapAllocator × Headers
write_link head to self memory = (record self { head = to }, memory)
write_link (next_of block) to self memory =
    (self, put memory block (free_block (memory block).size to))

-- The loop of `insert_and_coalesce`: the link to the first block from `addr` on, and the block before.
unfoldable pub seek : ℕ → ℕ → HeapAllocator → Headers → Link → Option ℕ → Outcome (Link × Option ℕ)
seek zero addr self memory link prev = panic
seek (suc fuel) addr self memory link prev = elim (read_link link self memory) [
  | none ↦ done (link, prev)
  | some next_block ↦ elim (ltb next_block addr) [
    | true ↦ seek fuel addr self memory (next_of next_block) (some next_block)
    | false ↦ done (link, prev)
  ]
]

unfoldable pub merge_right : Headers → ℕ → ℕ → Option ℕ → Outcome Headers
merge_right memory block size none = done memory
merge_right memory block size (some right) = do
  block_end ← end block size
  if block_end == right
      then (do
        merged ← add size (memory right).size
        done (put memory block (free_block merged (memory right).next)))
      else done memory

unfoldable pub merge_left : Headers → Option ℕ → ℕ → Outcome Headers
merge_left memory none block = done memory
merge_left memory (some left) block = do
  left_end ← end left (memory left).size
  if left_end == block
      then (do
        merged ← add (memory left).size (memory block).size
        done (put memory left (free_block merged (memory block).next)))
      else done memory

unfoldable pub insert_and_coalesce :
    ℕ → HeapAllocator → Headers → ℕ → ℕ → Outcome (HeapAllocator × Headers)
insert_and_coalesce fuel self memory block size = do
  (link, prev) ← seek fuel block self memory head none
  let next_block = read_link link self memory
  let memory = put memory block (free_block size next_block)
  let (self, memory) = write_link link (some block) self memory
  memory ← merge_right memory block size next_block
  memory ← merge_left memory prev block
  done (self, memory)

unfoldable pub add_memory : ℕ → HeapAllocator → Headers → ℕ → ℕ → Outcome (HeapAllocator × Headers)
add_memory fuel self memory ptr size = do
  assert (not (ptr == 0))
  assert (ptr % block_align == 0)
  assert (leb min_block_size size)
  let size = bit_and size (complement (block_align - 1))
  let memory = put memory ptr (free_block size none)
  total ← add self.stats.total_bytes size
  free ← add self.stats.free_bytes size
  let stats = record (self.stats) { total_bytes = total; free_bytes = free }
  insert_and_coalesce fuel (record self { stats = stats }) memory ptr size

-- `align_up`
unfoldable pub align_up : ℕ → ℕ → Outcome ℕ
align_up addr align = do
  sum ← add addr align
  top ← sub sum 1
  done (bit_and top (complement (align - 1)))

-- `usize::next_multiple_of`
unfoldable pub next_multiple_of : ℕ → ℕ → Outcome ℕ
next_multiple_of a b = elim (a % b) [ zero ↦ done a | suc r ↦ add a (b - suc r) ]

-- `size.max(MIN_BLOCK_SIZE).next_multiple_of(BLOCK_ALIGN)`
unfoldable pub block_size_of : ℕ → Outcome ℕ
block_size_of size = next_multiple_of (max size min_block_size) block_align

-- Whether a block of `block_size` bytes has room behind the padding.
unfoldable pub has_room : ℕ → ℕ → ℕ → Bool
has_room block_size padding size =
    if ltb 0 padding && ltb padding min_block_size then false else elim (checked_add padding size) [
      | none ↦ false
      | some total_needed ↦ not (ltb block_size total_needed)
    ]

-- The loop of `alloc` up to a block with room: the link to it, the block, and where the result starts.
unfoldable pub search : ℕ → ℕ → ℕ → HeapAllocator → Headers → Link → Outcome (Option (Link × ℕ × ℕ))
search zero size align self memory link = panic
search (suc fuel) size align self memory link = elim (read_link link self memory) [
  | none ↦ done none
  | some block ↦ do
    alloc_start ← align_up block align
    padding ← sub alloc_start block
    elim (has_room (memory block).size padding size) [
      | true ↦ done (some (link, block, alloc_start))
      | false ↦ search fuel size align self memory (next_of block)
    ]
]

-- The padding stays in the list as a block of its own; without padding the block leaves the list.
abbrev pub keep_padding : ℕ → Link → ℕ → HeapAllocator → Headers → Link × HeapAllocator × Headers
keep_padding padding link block self memory =
    let block_next = (memory block).next in
    if ltb 0 padding
    then (next_of block, self, put memory block (free_block padding block_next))
    else (let (self, memory) = write_link link block_next self memory in (link, self, memory))

-- A remainder that is large enough goes back in the list.
abbrev pub keep_remainder :
    ℕ → ℕ → Option ℕ → Link → HeapAllocator → Headers → HeapAllocator × Headers
keep_remainder remainder addr block_next link self memory =
    write_link link (some addr) self (put memory addr (free_block remainder block_next))

-- The rest of `alloc` once a block is found.
unfoldable pub carve :
    ℕ → Link → ℕ → ℕ → HeapAllocator → Headers → Outcome (HeapAllocator × Headers)
carve size link block alloc_start self memory = do
  let block_size = (memory block).size
  let block_next = (memory block).next
  padding ← sub alloc_start block
  let (prev, self, memory) = keep_padding padding link block self memory
  rest ← sub block_size padding
  remainder ← sub rest size
  remainder_addr ← (if leb min_block_size remainder then add alloc_start size else done 0)
  let (self, memory) =
      (if leb min_block_size remainder
        then keep_remainder remainder remainder_addr block_next prev self memory
        else (self, memory))
  consumed ← sub rest (if leb min_block_size remainder then remainder else 0)
  free ← sub self.stats.free_bytes consumed
  count ← add self.stats.alloc_count 1
  let stats = record (self.stats) { free_bytes = free; alloc_count = count }
  done (record self { stats = stats }, memory)

unfoldable pub alloc :
    ℕ → HeapAllocator → Headers → ℕ → ℕ → Outcome (HeapAllocator × Headers × Option ℕ)
alloc fuel self memory size align = do
  assert (ltb 0 size)
  assert (is_power_of_two align)
  let align = max align block_align
  size ← block_size_of size
  found ← search fuel size align self memory head
  elim found [
    | none ↦ done (self, memory, none)
    | some (link, block, alloc_start) ↦ do
      (self, memory) ← carve size link block alloc_start self memory
      done (self, memory, some alloc_start)
  ]

unfoldable pub dealloc : ℕ → HeapAllocator → Headers → ℕ → ℕ → Outcome (HeapAllocator × Headers)
dealloc fuel self memory ptr size = do
  block_size ← block_size_of size
  free ← add self.stats.free_bytes block_size
  count ← add self.stats.dealloc_count 1
  let stats = record (self.stats) { free_bytes = free; dealloc_count = count }
  insert_and_coalesce fuel (record self { stats = stats }) memory ptr block_size

-- The blocks of the list from `link` on.
unfoldable pub free_list_len : ℕ → Option ℕ → Headers → Outcome ℕ
free_list_len zero current memory = panic
free_list_len (suc fuel) none memory = done 0
free_list_len (suc fuel) (some block) memory = do
  count ← free_list_len fuel (memory block).next memory
  add count 1

-- `GlobalAlloc::alloc` of the locked heap: null, the address 0, where there is no room.
unfoldable pub global_alloc :
    ℕ → HeapAllocator → Headers → ℕ → ℕ → Outcome (HeapAllocator × Headers × ℕ)
global_alloc fuel self memory size align = do
  (self, memory, got) ← alloc fuel self memory size align
  done (self, memory, elim got [ none ↦ 0 | some ptr ↦ ptr ])

-- `GlobalAlloc::dealloc`
unfoldable pub global_dealloc :
    ℕ → HeapAllocator → Headers → ℕ → ℕ → Outcome (HeapAllocator × Headers)
global_dealloc fuel self memory ptr size =
    if ptr == 0 then done (self, memory) else dealloc fuel self memory ptr size
