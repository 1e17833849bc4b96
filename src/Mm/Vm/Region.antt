-- ===== src/Mm/Vm/Region.antt =====
-- eira/src/mm/vm/region.rs: the allocator of virtual regions. The slot array is a function of the
-- index; an access from index 64 on is a panic, as are the `assert!`s, the `expect`s and an
-- arithmetic overflow.
pub mod View
pub mod Spec
pub mod Merge
pub mod Weld
pub mod Add
pub mod Fit
pub mod Carve
pub mod Alloc
pub mod Split
use avent.Base.Words.{checked_add, add, sub, complement, is_power_of_two, usize_values}
use avent.Base.{
  ℕ, zero, suc, ◌+◌, ◌-◌, ◌*◌, ◌/◌, ◌%◌, ◌^◌, bit_and, Bool, true, false, not, ◌&&◌, ◌||◌, Option,
  none, some, Outcome, done, panic, assert, expect, ◌>>=◌, ◌>>◌, leb, ltb, ◌==◌, if◌then◌else◌,
  List, [], ◌∷◌,
}
use avent.Mm.Addr.{page_size}
use avent.Mm.Addr.Virt.{VirtAddr, is_aligned}

-- CAPACITY
abbrev pub capacity : ℕ
capacity = 64

pub record Region : Type 0 where
  pub base : VirtAddr
  pub size : ℕ

abbrev pub region : VirtAddr → ℕ → Region
region base size = record { base = base; size = size }

-- `Region::new`
unfoldable pub new_region : VirtAddr → ℕ → Outcome Region
new_region base size = do
  assert (ltb 0 size)
  aligned ← is_aligned base page_size
  assert aligned
  assert (size % page_size == 0)
  done (region base size)

abbrev pub end : Region → Option VirtAddr
end self = checked_add self.base self.size

unfoldable pub is_left_adjacent_to : Region → Region → Bool
is_left_adjacent_to self other = elim (end self) [ none ↦ false | some e ↦ e == other.base ]

pub data RegionError : Type 0 where
  out_of_virtual_memory tracker_full unaligned_address : RegionError

-- `Result<A, RegionError>`
pub data Result (A : Type 0) : Type 0 where
  ok : A → Result A
  err : RegionError → Result A

-- `slots` and `len`.
pub record RegionAllocator : Type 0 where
  pub slots : ℕ → Region
  pub len : ℕ

-- `RegionAllocator::new`
unfoldable pub new : RegionAllocator
new = record { slots = λ i. region 0 page_size; len = 0 }

-- `slots.copy_within(from..to, dest)` on 64 slots.
unfoldable pub copy_within : (ℕ → Region) → ℕ → ℕ → ℕ → Outcome (ℕ → Region)
copy_within slots from to dest = do
  assert (leb from to && leb to capacity && leb dest (capacity - (to - from)))
  done
      (λ i. if leb dest i && ltb i (dest + (to - from)) then slots (from + (i - dest)) else slots i)

-- `slots[pos] = r`
unfoldable pub store : (ℕ → Region) → ℕ → Region → Outcome (ℕ → Region)
store slots pos r = do assert (ltb pos capacity); done (λ i. if i == pos then r else slots i)

-- `slots[pos]`
unfoldable pub load : (ℕ → Region) → ℕ → Outcome Region
load slots pos = do assert (ltb pos capacity); done (slots pos)

unfoldable pub insert_at :
    RegionAllocator → ℕ → Region → Outcome (RegionAllocator × Result (Unit {0}))
insert_at self pos r = if leb capacity self.len then done (self, err tracker_full) else do
  slots ← copy_within self.slots pos self.len (pos + 1)
  slots ← store slots pos r
  done (record { slots = slots; len = self.len + 1 }, ok tt)

unfoldable pub remove_at : RegionAllocator → ℕ → Outcome (RegionAllocator × Region)
remove_at self pos = do
  assert (ltb pos self.len)
  r ← load self.slots pos
  slots ← copy_within self.slots (pos + 1) self.len pos
  done (record { slots = slots; len = self.len - 1 }, r)

-- The merge of the adjacent slots `pos` and `pos + 1`.
unfoldable pub merge_slots : RegionAllocator → ℕ → Region → Region → Outcome RegionAllocator
merge_slots self pos left right = do
  size ← add left.size right.size
  merged ← new_region left.base size
  slots ← store self.slots pos merged
  (self, removed) ← remove_at (record self { slots = slots }) (pos + 1)
  done self

-- Slots `pos` and `pos + 1` are merged if the one ends where the other begins.
unfoldable pub merge_pair : RegionAllocator → ℕ → Outcome RegionAllocator
merge_pair self pos = do
  left ← load self.slots pos
  right ← load self.slots (pos + 1)
  if is_left_adjacent_to left right then merge_slots self pos left right else done self

unfoldable pub try_merge_at : RegionAllocator → ℕ → Outcome RegionAllocator
try_merge_at self pos = do
  self ← (if ltb (pos + 1) self.len then merge_pair self pos else done self)
  if ltb 0 pos then merge_pair self (pos - 1) else done self

-- `slots[..len].partition_point(|s| s.base < base)`, with `n` slots left from index `i` on. On slots
-- sorted by base, which the allocator keeps, it is the number of leading slots below `base`.
unfoldable pub partition_point : (ℕ → Region) → ℕ → ℕ → ℕ → ℕ
partition_point slots base i zero = i
partition_point slots base i (suc n) = elim (ltb (slots i).base base) [
  | true ↦ partition_point slots base (i + 1) n
  | false ↦ i
]

unfoldable pub add_region : RegionAllocator → Region → Outcome (RegionAllocator × Result (Unit {0}))
add_region self r = do
  aligned ← is_aligned r.base page_size
  if not aligned || not (r.size % page_size == 0) then done (self, err unaligned_address) else (do
    let pos = partition_point self.slots r.base 0 self.len
    (self, inserted) ← insert_at self pos r
    elim inserted [
      | err e ↦ done (self, err e)
      | ok _ ↦ do self ← try_merge_at self pos; done (self, ok tt)
    ])

-- The closure of `find_map`: the aligned base and the padding, if the request fits the slot.
unfoldable pub fit : Region → ℕ → ℕ → Outcome (Option (VirtAddr × ℕ))
fit slot size align = elim (checked_add slot.base (align - 1)) [
  | none ↦ done none
  | some top ↦ do
    let aligned = bit_and top (complement (align - 1))
    padding ← sub aligned slot.base
    elim (checked_add padding size) [
      | none ↦ done none
      | some total_needed ↦
          done (if leb total_needed slot.size then some (aligned, padding) else none)
    ]
]

-- `find_map` over the `n` slots from index `i` on.
unfoldable pub find_slot : (ℕ → Region) → ℕ → ℕ → ℕ → ℕ → Outcome (Option (ℕ × VirtAddr × ℕ))
find_slot slots size align i zero = done none
find_slot slots size align i (suc n) = do
  found ← fit (slots i) size align
  elim found [
    | some (aligned, padding) ↦ done (some (i, aligned, padding))
    | none ↦ find_slot slots size align (i + 1) n
  ]

-- `.expect("slot available after removal")`
abbrev pub expect_ok : RegionAllocator × Result (Unit {0}) → Outcome RegionAllocator
expect_ok (self, ok _) = done self
expect_ok (self, err e) = panic

-- The part of a split that is left over goes back into the slots, if it is not empty.
unfoldable pub give_back : RegionAllocator → ℕ → VirtAddr → ℕ → Outcome RegionAllocator
give_back self pos base size =
    if ltb 0 size
    then (do r ← new_region base size; inserted ← insert_at self pos r; expect_ok inserted)
    else done self

-- `alloc` from the slot that was found on.
unfoldable pub carve :
    RegionAllocator → ℕ → ℕ → VirtAddr → ℕ → Outcome (RegionAllocator × Result Region)
carve self size slot_idx aligned_base padding = do
  (self, slot) ← remove_at self slot_idx
  self ← give_back self slot_idx slot.base padding
  rest ← sub slot.size padding
  tail_size ← sub rest size
  tail_base ← (if ltb 0 tail_size then add aligned_base size else done 0)
  self ← give_back self (slot_idx + (if ltb 0 padding then 1 else 0)) tail_base tail_size
  r ← new_region aligned_base size
  done (self, ok r)

unfoldable pub alloc : RegionAllocator → ℕ → ℕ → Outcome (RegionAllocator × Result Region)
alloc self size align =
    if size == 0 || not (size % page_size == 0)
    then done (self, err unaligned_address)
    else if not (is_power_of_two align) || not (align % page_size == 0)
    then done (self, err unaligned_address)
    else (do
      found ← find_slot self.slots size align 0 self.len
      elim found [
        | none ↦ done (self, err out_of_virtual_memory)
        | some (slot_idx, aligned_base, padding) ↦ carve self size slot_idx aligned_base padding
      ])

unfoldable pub free : RegionAllocator → Region → Outcome (RegionAllocator × Result (Unit {0}))
free self r = add_region self r

-- The sum over the `n` slots from index `i` on.
unfoldable pub sum_sizes : (ℕ → Region) → ℕ → ℕ → Outcome ℕ
sum_sizes slots i zero = done 0
sum_sizes slots i (suc n) = do rest ← sum_sizes slots (i + 1) n; add (slots i).size rest

unfoldable pub free_bytes : RegionAllocator → Outcome ℕ
free_bytes self = sum_sizes self.slots 0 self.len

abbrev pub free_region_count : RegionAllocator → ℕ
free_region_count self = self.len
