-- ===== src/Mm/Heap/Invariant.antt =====
-- The heap with its free list in order, and its operations on that list.
use native.Mathlib.Nat.{pow-le-pow_right}
use avent.Base.Bits.{pow-mod-pow}
use avent.Base.Words.{add, usize_values, is_power_of_two, power_exponent}
use avent.Base.{
  ℕ, zero, suc, ◌+◌, ◌-◌, ◌*◌, ◌/◌, ◌%◌, ◌≤◌, ◌<◌, max, true, Option, none, some, Outcome, done,
  panic, ltb, lt→ltb, ltb→lt, ltb→le, List, ◌++◌, length, All, ◌≡◌, refl, ap, subst, ◌∙◌, arith,
  ◌⊎◌, inl, inr, Bool-cases,
}
use avent.Mm.Vm.Region.{Region, region}
use avent.Mm.Blocks.{Ordered, IsBlock, Disjoint, place, place-Ordered}
use avent.Mm.Blocks.Size.{bytes, bytes-place, bytes-pieces, bytes-bound}
use avent.Mm.Blocks.Pieces.{HasNoRoom, pieces, multiple_of_unit}
use avent.Mm.Blocks.Weld.{Ordered-IsBlock}
use avent.Mm.Heap.{
  Headers, HeapAllocator, HeapStats, head, block_align, block_size_of, next_multiple_of, alloc,
  dealloc,
}
use avent.Mm.Heap.Place.{Lists, insert_and_coalesce-place}
use avent.Mm.Heap.Search.{Hit, Reaches, search-Outcomes}
use avent.Mm.Heap.Take.{taken, carve-Carved}
use avent.Mm.Blocks.Taken.{taken-Ordered}

-- The free list holds the blocks `xs` in order, and the statistics count their bytes.
pub record IsHeap (self : HeapAllocator) (m : Headers) (xs : List Region) : Type 0 where
  pub lists : Lists self m xs
  pub ordered : Ordered block_align 0 xs
  pub free : self.stats.free_bytes ≡ bytes xs

-- The bytes of a block for a request: the next multiple of 16, and 16 at least.
abbrev pub rounded : ℕ → ℕ
rounded size = (max size 16 + 15) / 16 * 16

pub block_size_of-rounded :
    (size : ℕ) → size + 31 < usize_values → block_size_of size ≡ done (rounded size)
unfolding block_size_of next_multiple_of
block_size_of-rounded size h = up (max size 16) (omega (arith, h))
  where
    at :
        (a r : ℕ)
        → a % 16 ≡ r
        → a + 15 < usize_values
        → (elim r as (λ r. Outcome ℕ) [ zero ↦ done a | suc k ↦ add a (16 - suc k) ])
          ≡ done ((a + 15) / 16 * 16)
    at a zero e b = ap done (omega (arith, e))
    at a (suc k) e b =
        let sum : a + (16 - suc k) ≡ (a + 15) / 16 * 16 = omega (arith, e) in
        rw (lt→ltb (a + (16 - suc k)) usize_values (omega (arith, b, e))) (ap done sum)

    up :
        (a : ℕ) → a + 15 < usize_values → next_multiple_of a block_align ≡ done ((a + 15) / 16 * 16)
    up a b = at a (a % 16) refl b

pub rounded-units : (size : ℕ) → rounded size % block_align ≡ 0
rounded-units size = omega arith

pub rounded-above : (size : ℕ) → size ≤ rounded size
rounded-above size = omega arith

-- The alignment `alloc` works with.
abbrev pub effective : ℕ → ℕ
effective align = max align block_align

effective-power :
    (align : ℕ) → is_power_of_two align ≡ true → is_power_of_two (effective align) ≡ true
unfolding is_power_of_two
effective-power align p = elim (Bool-cases (ltb 16 align)) [
  | inl e ↦ let same : max align 16 ≡ align = omega (arith, ltb→lt 16 align e) in rw same p
  | inr e ↦ let same : max align 16 ≡ 16 = omega (arith, ltb→le 16 align e) in rw same refl
]

pub effective-units : (align : ℕ) → is_power_of_two align ≡ true → effective align % block_align ≡ 0
effective-units align p = elim (Bool-cases (ltb 16 align)) [
  | inl e ↦
      let (k, h, q) = power_exponent align p in
      let same : max align 16 ≡ align = omega (arith, ltb→lt 16 align e) in
      let large : 4 ≤ k = elim (Bool-cases (ltb k 4)) [
        | inl f ↦ absurd (
            omega (
              arith,
              q,
              ltb→lt 16 align e,
              pow-le-pow_right {n = 2} (omega arith) {i = k} {j = 4} (omega (arith, ltb→lt k 4 f)),
            ))
        | inr f ↦ ltb→le k 4 f
      ] in
      rw (same, q) (pow-mod-pow k 4 large)
  | inr e ↦ let same : max align 16 ≡ 16 = omega (arith, ltb→le 16 align e) in rw same refl
]

-- An aligned address of `alloc` is aligned as the request says.
pub effective-align :
    (align a : ℕ) → is_power_of_two align ≡ true → a % effective align ≡ 0 → a % align ≡ 0
effective-align align a p h = elim (Bool-cases (ltb 16 align)) [
  | inl e ↦ let same : max align 16 ≡ align = omega (arith, ltb→lt 16 align e) in rw same at h
  | inr e ↦
      let same : max align 16 ≡ 16 = omega (arith, ltb→le 16 align e) in
      let (k, b, q) = power_exponent align p in
      let small : k ≤ 4 = elim (Bool-cases (ltb 4 k)) [
        | inl f ↦ absurd (
            omega (
              arith,
              q,
              ltb→le 16 align e,
              pow-le-pow_right {n = 2} (omega arith) {i = 5} {j = k} (ltb→lt 4 k f),
            ))
        | inr f ↦ ltb→le 4 k f
      ] in
      let divides : 16 % align ≡ 0 = rw q (pow-mod-pow 4 k small) in
      multiple_of_unit align a 16 (rw same at h) divides
]

-- The statistics after `size` bytes came back.
abbrev pub returned : HeapStats → ℕ → HeapStats
returned stats size = record stats {
  free_bytes = stats.free_bytes + size;
  dealloc_count = stats.dealloc_count + 1;
}

-- For blocks in order with the free bytes counted, a block of whole units that meets none of them, a
-- count of returns below the top, and more fuel than there are blocks: `dealloc` returns, puts the
-- block in its place in the order, merges it with the neighbours it touches, and counts its bytes.
pub dealloc-IsHeap :
    (fuel : ℕ) (self : HeapAllocator) (m : Headers) (xs : List Region) (ptr size : ℕ)
    → IsHeap self m xs
    → length xs < fuel
    → size + 31 < usize_values
    → IsBlock block_align (region ptr (rounded size))
    → Disjoint (region ptr (rounded size)) xs
    → self.stats.dealloc_count + 1 < usize_values
    → (t : HeapAllocator) × (n : Headers) × (dealloc fuel self m ptr size ≡ done (t, n))
      × IsHeap t n (place (region ptr (rounded size)) xs)
      × (t.stats ≡ returned self.stats (rounded size))
unfolding dealloc
dealloc-IsHeap fuel self m xs ptr size v f small p d count =
    let r = region ptr (rounded size) in
    let ordered = place-Ordered block_align 0 r xs (omega arith) p d v.ordered in
    let bound = bytes-bound block_align 0 (place r xs) (omega arith) ordered in
    let total : bytes (place r xs) ≡ rounded size + bytes xs = bytes-place r xs in
    let free : add self.stats.free_bytes (rounded size)
        ≡ done (self.stats.free_bytes + rounded size) =
      ground (arith, bound, total, v.free) in
    let freed : add self.stats.dealloc_count 1 ≡ done (self.stats.dealloc_count + 1) =
      ground (arith, count) in
    let before = record self { stats = returned self.stats (rounded size) } in
    let (t, n, runs, lists, stats) =
      insert_and_coalesce-place fuel before m r xs f v.lists v.ordered p d in
    (
      t,
      n,
      rw (block_size_of-rounded size small, free, freed) runs,
      record {
        lists = lists;
        ordered = ordered;
        free = ap HeapStats.free_bytes stats ∙ omega (arith, v.free, total);
      },
      stats,
    )

-- What `alloc` leaves when it takes a block out of the first slot with room.
pub record Allocated (self : HeapAllocator) (units align : ℕ) (xs : List Region)
    (o : Outcome (HeapAllocator × Headers × Option ℕ)) : Type 0 where
  pub hit : Hit units align xs
  pub heap : HeapAllocator
  pub memory : Headers
  pub runs : o ≡ done (heap, memory, some hit.base)
  pub valid :
      IsHeap heap memory (hit.pre ++ (pieces hit.slot units hit.base hit.padding ++ hit.post))
  pub counts : heap.stats ≡ taken self.stats units

-- For blocks in order with the free bytes counted, a size above 0 with size + 31 below 2 ^ 64, so that it
-- can be rounded, an alignment that is a power of two, a count of requests below the top, and more fuel than there are blocks, `alloc` does one of three.
-- It panics, and then the alignment overflows from some block on; or no block has room for the
-- rounded size at the alignment, it gives none and nothing is changed; or it takes the block out of
-- the first with room, what is left of that one stays in the list, in order, and the statistics count
-- the rounded size.
pub alloc-first_fit :
    (fuel : ℕ) (self : HeapAllocator) (m : Headers) (xs : List Region) (size align : ℕ)
    → IsHeap self m xs
    → length xs < fuel
    → 0 < size
    → size + 31 < usize_values
    → is_power_of_two align ≡ true
    → self.stats.alloc_count + 1 < usize_values
    → ((alloc fuel self m size align ≡ panic) × (Reaches (effective align) xs → ⊥))
      ⊎ ((alloc fuel self m size align ≡ done (self, m, none))
          × All (HasNoRoom (rounded size) (effective align)) xs)
      ⊎ Allocated self (rounded size) (effective align) xs (alloc fuel self m size align)
unfolding alloc
alloc-first_fit fuel self m xs size align v f s small p count =
    let units = effective-units align p in
    let above = rounded-above size in
    let size_known = block_size_of-rounded size small in
    elim (search-Outcomes (rounded size) (effective align) (effective-power align p) units
      (omega (arith, s, above)) fuel self m head xs f v.lists
      (Ordered-IsBlock block_align 0 xs v.ordered)) [
        | inl (e, far) ↦ inl (rw (lt→ltb 0 size s, p, size_known, e) refl, far)
        | inr found ↦ elim found [
          | inl (e, full) ↦ inr (inl (rw (lt→ltb 0 size s, p, size_known, e) refl, full))
          | inr (h, e) ↦
              let taken_bytes =
                ap bytes h.whole
                ∙ bytes-pieces h.pre h.post h.slot (rounded size) (effective align) h.base h.padding
                    h.fits in
              let filled : 0 < rounded size = omega (arith, s, above) in
              let list = subst (Lists self m) h.whole v.lists in
              let order = subst (Ordered block_align 0) h.whole v.ordered in
              let (t, n, runs, lists, stats) =
                carve-Carved self m h.pre h.post h.slot (rounded size) (effective align) h.base
                  h.padding list order h.fits filled (rounded-units size) units
                  (omega (arith, v.free, taken_bytes)) count in
              inr (
                inr record {
                  hit = h;
                  heap = t;
                  memory = n;
                  runs = rw (lt→ltb 0 size s, p, size_known, e, runs) refl;
                  valid = record {
                    lists = lists;
                    ordered =
                        taken-Ordered block_align h.pre h.post h.slot (rounded size)
                          (effective align) h.base h.padding order h.fits filled
                          (rounded-units size) units;
                    free = ap HeapStats.free_bytes stats ∙ omega (arith, v.free, taken_bytes);
                  };
                  counts = stats;
                })
        ]
      ]
