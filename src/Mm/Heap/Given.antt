-- ===== src/Mm/Heap/Given.antt =====
-- The block that a request gets.
use avent.Base.Words.{usize_values, is_power_of_two}
use avent.Base.{
  ℕ, ◌+◌, ◌-◌, ◌%◌, ◌≤◌, ◌<◌, Option, none, some, Outcome, done, done_injective, done_or_panic,
  true, ◌||◌, List, ◌∷◌, ◌++◌, length, length-append, ltb, if◌then◌else◌, ◌≡◌, sym, ap, subst, ◌∙◌,
  arith, inl, inr,
}
use avent.Mm.Vm.Region.{Region, region}
use avent.Mm.Blocks.{IsBlock, Ordered, Disjoint, holds, covers, place, place-covers}
use avent.Mm.Blocks.Canonical.{Ordered-canonical}
use avent.Mm.Blocks.Size.{bytes, bytes-pieces}
use avent.Mm.Blocks.Pieces.{piece, pieces, length-piece}
use avent.Mm.Blocks.Taken.{taken-IsBlock, taken-Disjoint, taken-covers}
use avent.Mm.Heap.{Headers, HeapAllocator, HeapStats, block_align, alloc, dealloc}
use avent.Mm.Heap.Invariant.{
  IsHeap, dealloc-IsHeap, Allocated, rounded, rounded-units, rounded-above, effective,
  effective-units, effective-align, alloc-first_fit,
}
use avent.Mm.Heap.Take.{taken}

-- The heap after a request that got a block, and the block.
pub record Given (self : HeapAllocator) (xs : List Region) (size align ptr : ℕ) (t : HeapAllocator)
    (n : Headers) : Type 0 where
  pub left : List Region
  pub valid : IsHeap t n left
  pub block : IsBlock block_align (region ptr (rounded size))
  pub aligned : ptr % align ≡ 0
  pub apart : Disjoint (region ptr (rounded size)) left
  pub covered : (a : ℕ) → covers xs a ≡ (holds (region ptr (rounded size)) a || covers left a)
  pub longer : length left ≤ length xs + 1
  pub weighs : bytes xs ≡ rounded size + bytes left
  pub counts : t.stats ≡ taken self.stats (rounded size)

none_or_some : (a : ℕ) → none ≡ some a → ⊥
none_or_some a e = subst (λ (o : Option ℕ). elim o [ none ↦ Unit {0} | some b ↦ ⊥ ]) e tt

length-taken :
    (pre post : List Region) (slot : Region) (size base padding : ℕ)
    → length (pre ++ (pieces slot size base padding ++ post)) ≤ length (pre ++ slot ∷ post) + 1
length-taken pre post slot size base padding =
    let short : (if ltb 0 padding then 1 else 0) ≤ 1 = ground arith in
    let short' : (if ltb 0 (slot.size - padding - size) then 1 else 0) ≤ 1 = ground arith in
    omega (
      arith,
      length-append pre (slot ∷ post),
      length-append pre (pieces slot size base padding ++ post),
      length-append (pieces slot size base padding) post,
      length-append (piece slot.base padding) (piece (base + size) (slot.size - padding - size)),
      length-piece slot.base padding,
      length-piece (base + size) (slot.size - padding - size),
      short,
      short',
    )

Allocated-Given :
    (self : HeapAllocator) (m : Headers) (xs : List Region) (size align : ℕ)
    (o : Outcome (HeapAllocator × Headers × Option ℕ))
    → IsHeap self m xs
    → 0 < size
    → is_power_of_two align ≡ true
    → (a : Allocated self (rounded size) (effective align) xs o)
    → Given self xs size align a.hit.base a.heap a.memory
Allocated-Given self m xs size align o v s p a =
    let h = a.hit in
    let order = subst (Ordered block_align 0) h.whole v.ordered in
    let units = effective-units align p in
    let filled : 0 < rounded size = omega (arith, s, rounded-above size) in
    record {
      left = h.pre ++ (pieces h.slot (rounded size) h.base h.padding ++ h.post);
      valid = a.valid;
      block =
          taken-IsBlock block_align h.pre h.post h.slot (rounded size) (effective align) h.base
            h.padding order h.fits filled (rounded-units size) units;
      aligned = effective-align align h.base p h.fits.1;
      apart =
          taken-Disjoint block_align h.pre h.post h.slot (rounded size) (effective align) h.base
            h.padding order h.fits filled (rounded-units size) units;
      covered = λ i.
          ap (λ l. covers l i) h.whole
          ∙ taken-covers block_align h.pre h.post h.slot (rounded size) (effective align) h.base
              h.padding order h.fits filled (rounded-units size) units i;
      longer = omega (
        arith,
        ap length h.whole,
        length-taken h.pre h.post h.slot (rounded size) h.base h.padding,
      );
      weighs =
          ap bytes h.whole
          ∙ bytes-pieces h.pre h.post h.slot (rounded size) (effective align) h.base h.padding
              h.fits;
      counts = a.counts;
    }

-- For blocks in order with the free bytes counted, a size above 0, an alignment that is a power of
-- two, a count of requests below the top, and more fuel than there are blocks: if `alloc` gives an
-- address, then it is aligned, the block of the rounded size there came out of the free addresses
-- and nothing else did, the free blocks left are in order and apart from it, and the
-- statistics count it.
pub alloc-Given :
    (fuel : ℕ) (self : HeapAllocator) (m : Headers) (xs : List Region) (size align : ℕ)
    → IsHeap self m xs
    → length xs < fuel
    → 0 < size
    → size + 31 < usize_values
    → is_power_of_two align ≡ true
    → self.stats.alloc_count + 1 < usize_values
    → (ptr : ℕ) (t : HeapAllocator) (n : Headers)
    → alloc fuel self m size align ≡ done (t, n, some ptr)
    → Given self xs size align ptr t n
alloc-Given fuel self m xs size align v f s small p count ptr t n runs =
    elim (alloc-first_fit fuel self m xs size align v f s small p count) [
      | inl (e, far) ↦ absurd (done_or_panic _ (t, n, some ptr) runs e)
      | inr found ↦ elim found [
        | inl (e, full) ↦ absurd (
            none_or_some ptr (
              ap (λ (o : HeapAllocator × Headers × Option ℕ). o.2)
                (done_injective (self, m, none) (t, n, some ptr) (sym e ∙ runs))))
        | inr a ↦
            subst
              (λ (o : HeapAllocator × Headers × Option ℕ). elim o.2 [
                | none ↦ Unit {0}
                | some q ↦ Given self xs size align q o.0 o.1
              ])
              (done_injective (a.heap, a.memory, some a.hit.base) (t, n, some ptr)
                (sym a.runs ∙ runs))
              (Allocated-Given self m xs size align _ v s p a)
      ]
    ]

-- For blocks in order with the free bytes counted, a size above 0, an alignment that is a power of
-- two, counts below the top, and fuel for one block more than there are: if `alloc` gives an address,
-- then `dealloc` of it returns, and the free list holds the blocks that it held before the `alloc`; the
-- free bytes are those from before, and the count of returns is one more.
pub dealloc-alloc :
    (fuel : ℕ) (self : HeapAllocator) (m : Headers) (xs : List Region) (size align : ℕ)
    → IsHeap self m xs
    → length xs + 1 < fuel
    → 0 < size
    → size + 31 < usize_values
    → is_power_of_two align ≡ true
    → self.stats.alloc_count + 1 < usize_values
    → self.stats.dealloc_count + 1 < usize_values
    → (ptr : ℕ) (t : HeapAllocator) (n : Headers)
    → alloc fuel self m size align ≡ done (t, n, some ptr)
    → (t' : HeapAllocator) × (n' : Headers) × (dealloc fuel t n ptr size ≡ done (t', n'))
      × IsHeap t' n' xs
      × (t'.stats.free_bytes ≡ self.stats.free_bytes)
      × (t'.stats.dealloc_count ≡ self.stats.dealloc_count + 1)
dealloc-alloc fuel self m xs size align v f s small p count count' ptr t n runs =
    let g = alloc-Given fuel self m xs size align v (omega arith) s small p count ptr t n runs in
    let (t', n', back, heap, stats) =
      dealloc-IsHeap fuel t n g.left ptr size g.valid (omega (arith, g.longer)) small g.block
        g.apart
        (subst (λ c. c + 1 < usize_values) (sym (ap HeapStats.dealloc_count g.counts)) count') in
    let whole : place (region ptr (rounded size)) g.left ≡ xs =
      Ordered-canonical block_align 0 _ xs heap.ordered v.ordered (λ a.
        place-covers block_align 0 (region ptr (rounded size)) g.left a g.block g.apart
          g.valid.ordered
        ∙ sym (g.covered a)) in
    let heap' = subst (IsHeap t' n') whole heap in
    (
      t',
      n',
      back,
      heap',
      heap'.free ∙ sym v.free,
      ap HeapStats.dealloc_count stats ∙ ap (λ c. c + 1) (ap HeapStats.dealloc_count g.counts),
    )
