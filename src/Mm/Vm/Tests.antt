-- ===== src/Mm/Vm/Tests.antt =====
-- The allocator of virtual regions on examples.
use avent.Base.Words.{is_power_of_two}
use avent.Base.{
  ℕ, zero, suc, ◌+◌, ◌*◌, ◌≤◌, ◌<◌, true, done, List, [], ◌∷◌, length, All, ◌≡◌, ◌⊎◌, refl, arith,
  ◌||◌, ◌==◌, if◌then◌else◌, inl, inr,
}
use avent.Mm.Addr.{page_size}
use avent.Mm.Vm.Region.{
  Region, RegionAllocator, region, capacity, Result, ok, err, tracker_full, out_of_virtual_memory,
  find_slot, carve, free,
}
use avent.Mm.Vm.Region
use avent.Mm.Vm.Region.View.{Lists, Shows}
use avent.Mm.Vm.Region.Spec.{Ordered-lower, IsRegion, Tidy, holds, covers, place}
use avent.Mm.Vm.Region.Add.{add_region-place, add_region_full}
use avent.Mm.Blocks.Pieces.{HasNoRoom}
use avent.Mm.Vm.Region.Alloc.{Allocated, alloc-Allocated, GivenBack, free_gives_back}
use avent.Mm.Vm.Region.{alloc}

-- Two free regions with a gap of one page.
abbrev low : Region
low = region 4096 8192

abbrev high : Region
high = region 16384 16384

abbrev gapped : RegionAllocator
gapped = record { slots = λ i. if i == 0 then low else high; len = 2 }

abbrev gaps : List Region
gaps = low ∷ high ∷ []

low-IsRegion : IsRegion low
low-IsRegion = record {
  base_aligned = refl;
  size_aligned = refl;
  filled = omega arith;
  bounded = omega arith;
}

high-IsRegion : IsRegion high
high-IsRegion = record {
  base_aligned = refl;
  size_aligned = refl;
  filled = omega arith;
  bounded = omega arith;
}

gapped-Shows : Shows gapped gaps
gapped-Shows = record { lists = (refl, (refl, tt)); counted = refl; fits = omega arith }

gaps-Tidy : Tidy 0 gaps
gaps-Tidy = (omega arith, low-IsRegion, (omega arith, high-IsRegion, tt))

-- The page in the gap joins both.
abbrev between : Region
between = region 12288 4096

between-IsRegion : IsRegion between
between-IsRegion = record {
  base_aligned = refl;
  size_aligned = refl;
  filled = omega arith;
  bounded = omega arith;
}

add_region-place_example :
    (t : RegionAllocator) × (Region.add_region gapped between ≡ done (t, ok tt))
    × Shows t (place between gaps)
    × Tidy 0 (place between gaps)
    × ((a : ℕ) → covers (place between gaps) a ≡ (holds between a || covers gaps a))
add_region-place_example =
    add_region-place gapped gaps between gapped-Shows gaps-Tidy between-IsRegion
      (inr (omega arith), (inl (omega arith), tt)) (omega arith)

power_8192 : is_power_of_two 8192 ≡ true
unfolding is_power_of_two
power_8192 = refl

power_16384 : is_power_of_two 16384 ≡ true
unfolding is_power_of_two
power_16384 = refl

alloc-Allocated_example :
    Allocated gapped gaps 8192 8192
    ⊎ ((Region.alloc gapped 8192 8192 ≡ done (gapped, err out_of_virtual_memory))
        × All (HasNoRoom 8192 8192) gaps)
alloc-Allocated_example =
    alloc-Allocated gapped gaps 8192 8192 gapped-Shows gaps-Tidy power_8192 (omega arith)
      (omega arith) refl refl (omega arith)

-- All of `high`.
abbrev high_taken : Allocated gapped gaps 16384 16384
high_taken =
    elim (alloc-Allocated gapped gaps 16384 16384 gapped-Shows gaps-Tidy power_16384 (omega arith)
      (omega arith) refl refl (omega arith)) [
        | inl a ↦ a
        | inr (e, h) ↦ absurd (h.1.0 16384 refl (omega arith) (omega arith))
      ]

free_gives_back_example :
    ((length high_taken.left < capacity)
      × GivenBack high_taken.after gaps (region high_taken.base 16384))
    ⊎ ((length high_taken.left ≡ capacity)
        × (free high_taken.after (region high_taken.base 16384)
            ≡ done (high_taken.after, err tracker_full)))
free_gives_back_example = free_gives_back gapped gaps 16384 16384 high_taken

-- Slots of three pages, sixteen pages apart, each from the second page on.
abbrev chunk : ℕ → Region
chunk i = region (i * 65536 + 4096) 12288

abbrev chunks : ℕ → ℕ → List Region
chunks zero k = []
chunks (suc n) k = chunk k ∷ chunks n (k + 1)

chunks-Lists : (n k : ℕ) → Lists chunk k (chunks n k)
chunks-Lists zero k = tt
chunks-Lists (suc n) k = (refl, chunks-Lists n (k + 1))

abbrev crowded : RegionAllocator
crowded = record { slots = chunk; len = 64 }

crowded-Shows : Shows crowded (chunks 64 0)
crowded-Shows = record { lists = chunks-Lists 64 0; counted = refl; fits = omega arith }

chunks-Tidy : (n k : ℕ) → k + n ≤ 64 → Tidy (k * 65536) (chunks n k)
chunks-Tidy zero k h = tt
chunks-Tidy (suc n) k h = (
  omega arith,
  record {
    base_aligned = omega arith;
    size_aligned = refl;
    filled = omega arith;
    bounded = omega arith;
  },
  let same : (k + 1) * 65536 ≡ k * 65536 + 65536 = omega arith in
      Ordered-lower page_size _ _ (chunks n (k + 1)) (omega (arith, same))
        (chunks-Tidy n (k + 1) (omega arith)),
)

-- It meets the first of the full slots.
abbrev meeting : Region
meeting = region 16384 4096

meeting-IsRegion : IsRegion meeting
meeting-IsRegion = record {
  base_aligned = refl;
  size_aligned = refl;
  filled = omega arith;
  bounded = omega arith;
}

add_region_full_example : Region.add_region crowded meeting ≡ done (crowded, err tracker_full)
add_region_full_example =
    add_region_full crowded (chunks 64 0) meeting crowded-Shows (chunks-Tidy 64 0 (omega arith))
      meeting-IsRegion refl
