-- ===== src/Mm/Vm/Layout.antt =====
-- eira/src/mm/vm/mod.rs: the two ranges of kernel addresses and their allocators.
use avent.Base.{
  ℕ, ◌-◌, Bool, false, ◌&&◌, Outcome, done, ltb, leb, [], ◌∷◌, ◌≡◌, refl, arith, ◌>>=◌,
}
use avent.Mm.Addr.Virt.{VirtAddr}
use avent.Mm.Vm.Region.{RegionAllocator, region, new, new_region, add_region, expect_ok}
use avent.Mm.Vm.Region.View.{Shows}
use avent.Mm.Vm.Region.Spec.{IsRegion, covers}
use avent.Mm.Vm.Region.Merge.{new_region-done}
use avent.Mm.Vm.Region.Add.{add_region-place}

-- HEAP_START
abbrev pub heap_start : ℕ
heap_start = 18446673704965373952

-- HEAP_END
abbrev pub heap_end : ℕ
heap_end = 18446691297151418368

-- KERNEL_VM_START
abbrev pub kernel_vm_start : ℕ
kernel_vm_start = 18446691297151418368

-- KERNEL_VM_END
abbrev pub kernel_vm_end : ℕ
kernel_vm_end = 18446708889337462784

abbrev pub is_heap_addr : VirtAddr → Bool
is_heap_addr addr = leb heap_start addr && ltb addr heap_end

abbrev pub is_kernel_vm_addr : VirtAddr → Bool
is_kernel_vm_addr addr = leb kernel_vm_start addr && ltb addr kernel_vm_end

unfoldable pub heap_region_allocator : Outcome RegionAllocator
heap_region_allocator = do
  r ← new_region heap_start (heap_end - heap_start)
  added ← add_region new r
  expect_ok added

unfoldable pub kernel_vm_region_allocator : Outcome RegionAllocator
kernel_vm_region_allocator = do
  r ← new_region kernel_vm_start (kernel_vm_end - kernel_vm_start)
  added ← add_region new r
  expect_ok added

new-Shows : Shows new []
unfolding new
new-Shows = record { lists = tt; counted = refl; fits = omega arith }

-- An allocator made with one range.
one_range :
    (base size : ℕ)
    → IsRegion (region base size)
    → (t : RegionAllocator) × ((new_region base size >>= λ r. add_region new r >>= expect_ok)
        ≡ done t)
      × Shows t (region base size ∷ [])
one_range base size p =
    let (t, out, v, tidy, more) =
      add_region-place new [] (region base size) new-Shows tt p tt (omega arith) in
    (t, rw (new_region-done (region base size) p, out) refl, v)

-- Both allocators are made without a panic and hold one region each: its free addresses are those
-- that `is_heap_addr` and `is_kernel_vm_addr` accept, and no address is in both.
layout_ready :
    ((t : RegionAllocator) × (heap_region_allocator ≡ done t)
      × Shows t (region heap_start (heap_end - heap_start) ∷ []))
    × ((t : RegionAllocator) × (kernel_vm_region_allocator ≡ done t)
        × Shows t (region kernel_vm_start (kernel_vm_end - kernel_vm_start) ∷ []))
    × ((a : ℕ) → covers (region heap_start (heap_end - heap_start) ∷ []) a ≡ is_heap_addr a)
    × ((a : ℕ)
        → covers (region kernel_vm_start (kernel_vm_end - kernel_vm_start) ∷ []) a
          ≡ is_kernel_vm_addr a)
    × ((a : ℕ) → (is_heap_addr a && is_kernel_vm_addr a) ≡ false)
unfolding heap_region_allocator kernel_vm_region_allocator
layout_ready = (
  one_range heap_start (heap_end - heap_start) (record {
    base_aligned = refl;
    size_aligned = refl;
    filled = omega arith;
    bounded = omega arith;
  }),
  one_range kernel_vm_start (kernel_vm_end - kernel_vm_start) (record {
    base_aligned = refl;
    size_aligned = refl;
    filled = omega arith;
    bounded = omega arith;
  }),
  (λ a. ground arith),
  (λ a. ground arith),
  (λ a. ground arith),
)
