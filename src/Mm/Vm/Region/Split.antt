-- ===== src/Mm/Vm/Region/Split.antt =====
-- `alloc` out of the middle of a slot while all slots are taken.
use avent.Base.Words.{usize_values, is_power_of_two}
use avent.Base.{◌⊎◌}
use avent.Mm.Vm.Region.Fit.{Found}
use avent.Mm.Vm.Region.Alloc.{Allocated}
use avent.Base.{ℕ, ◌+◌, ◌%◌, ◌<◌, true, panic, List, ◌≡◌}
use avent.Mm.Addr.{page_size}
use avent.Mm.Vm.Region.{Region, RegionAllocator, alloc}
use avent.Mm.Vm.Region.View.{Shows}
use avent.Mm.Vm.Region.Spec.{Tidy}

module _ (self : RegionAllocator) (xs : List Region) (size align : ℕ) (shows : Shows self xs)
    (tidy : Tidy 0 xs) (p : is_power_of_two align ≡ true) (s : 0 < size)
    (small : size < usize_values) (pages : size % page_size ≡ 0)
    (aligns : align % page_size ≡ 0) where
  -- The block found in the first region with room begins or ends with the region and is taken; or it is
  -- in the middle, and `alloc` panics.
  abbrev pub Splits : Found size align p s small xs → Type 0
  Splits f =
      (((f.padding ≡ 0) ⊎ (f.padding + size ≡ f.slot.size)) × Allocated self xs size align)
      ⊎ ((0 < f.padding) × (f.padding + size < f.slot.size) × (alloc self size align ≡ panic))
