-- ===== src/Mm/Heap/Reach.antt =====
-- What holds of every heap that a client can reach.
use avent.Base.Words.{sub, usize_values, is_power_of_two}
use avent.Base.{
  ℕ, suc, ◌+◌, ◌%◌, ◌≤◌, ◌<◌, true, not, ◌==◌, leb, some, done, done_injective, bind_done,
  assert_done, assert, List, [], ◌∷◌, ◌++◌, length, All, ◌≡◌, ◌↔◌, refl, sym, ap, subst, ◌∙◌, arith,
}
use avent.Mm.Vm.Region.{Region, region}
use avent.Mm.Blocks.{IsBlock, Disjoint, place, place-covers}
use avent.Mm.Blocks.Size.{bytes, bytes-place}
use avent.Mm.Blocks.Count.{count, count-union, count-Disjoint}
use avent.Mm.Blocks.Weld.{Ordered-IsBlock}
use avent.Mm.Heap.{
  Headers, HeapAllocator, HeapStats, block_align, min_block_size, new, add_memory, alloc, dealloc,
  free_list_len, is_balanced, used_bytes,
}
use avent.Mm.Heap.Invariant.{IsHeap, rounded, returned, dealloc-IsHeap}
use avent.Mm.Heap.Given.{alloc-Given}
use avent.Mm.Heap.Steps.{add_memory-IsHeap, given-IsBlock, free_list_len-bound}
use avent.Mm.Heap.Live.{count-live, bytes-live, length-live, All-live, All-blocks}
use avent.Mm.Heap.World.{
  World, block_of, blocks, whole_units, IsWorld, added, allocated, freed, Reachable, begin, next,
}

-- `add_memory` returns only if its assertions hold.
add_memory_asserts :
    (fuel : ℕ) (self t : HeapAllocator) (m n : Headers) (ptr size : ℕ)
    → add_memory fuel self m ptr size ≡ done (t, n)
    → (0 < ptr) × (ptr % block_align ≡ 0) × (min_block_size ≤ size)
unfolding add_memory
add_memory_asserts fuel self t m n ptr size e =
    let (a, e1, rest1) = bind_done (assert (not (ptr == 0))) _ (t, n) e in
    let (b, e2, rest2) = bind_done (assert (ptr % block_align == 0)) _ (t, n) rest1 in
    let (c, e3, rest3) = bind_done (assert (leb min_block_size size)) _ (t, n) rest2 in
    (
      ground (arith, assert_done (not (ptr == 0)) a e1),
      ground (arith, assert_done (ptr % block_align == 0) b e2),
      ground (arith, assert_done (leb min_block_size size) c e3),
    )

module _ (fuel : ℕ) (w : World) (xs : List Region) (v : IsWorld w xs) (k : ℕ)
    (len : free_list_len fuel w.self.head w.memory ≡ done k) where
  enough : length xs < fuel
  enough = (free_list_len-bound fuel k w.self.head w.memory xs v.heap.lists len).0

  free_blocks : All (IsBlock block_align) xs
  free_blocks = Ordered-IsBlock block_align 0 xs v.heap.ordered

  added-IsWorld :
      (ptr size : ℕ) (t : HeapAllocator) (n : Headers)
      → ptr + size < usize_values
      → w.self.stats.total_bytes + size < usize_values
      → ((a : ℕ) → count (region ptr (whole_units size) ∷ w.given) a ≤ 1)
      → add_memory fuel w.self w.memory ptr size ≡ done (t, n)
      → IsWorld
          record {
            self = t;
            memory = n;
            live = w.live;
            given = region ptr (whole_units size) ∷ w.given;
          }
          (place (region ptr (whole_units size)) xs)
  added-IsWorld ptr size t n fits total once_given e =
      let r = region ptr (whole_units size) in
      let (nonnull, aligned, least) = add_memory_asserts fuel w.self t w.memory n ptr size e in
      let p = given-IsBlock ptr size aligned least fits in
      let apart : Disjoint r xs =
        count-Disjoint block_align r xs p.filled free_blocks
          (λ a. omega (arith, once_given a, v.conserved a)) in
      let (t', n', runs, heap, stats) =
        add_memory-IsHeap fuel w.self w.memory xs ptr size v.heap enough nonnull aligned least fits
          apart (omega (arith, v.heap.free, v.total, total)) total in
      let (heap', stats') =
        subst
          (λ (o : HeapAllocator × Headers).
            IsHeap o.0 o.1 (place r xs)
            × (o.0.stats ≡ record (w.self.stats) {
              total_bytes = w.self.stats.total_bytes + whole_units size;
              free_bytes = w.self.stats.free_bytes + whole_units size;
            }))
          (done_injective (t', n') (t, n) (sym runs ∙ e)) (heap, stats) in
      record {
        heap = heap';
        held = v.held;
        small = v.small;
        conserved = λ a.
            ap (λ c. c + count (blocks w.live) a)
              (count-union block_align r xs (place r xs) a v.heap.ordered heap'.ordered apart
                (place-covers block_align 0 r xs a p apart v.heap.ordered))
            ∙ omega (arith, v.conserved a);
        single = once_given;
        total = ap HeapStats.total_bytes stats' ∙ omega (arith, v.total, bytes-place r xs);
        requests =
            ap HeapStats.alloc_count stats'
            ∙ v.requests
            ∙ ap (λ c. c + length w.live) (sym (ap HeapStats.dealloc_count stats'));
        counted = subst (λ c. c < usize_values) (sym (ap HeapStats.alloc_count stats')) v.counted;
      }

  freed-IsWorld :
      (before after : List Region) (r : Region) (t : HeapAllocator) (n : Headers)
      → w.live ≡ before ++ r ∷ after
      → dealloc fuel w.self w.memory r.base r.size ≡ done (t, n)
      → IsWorld
          record { self = t; memory = n; live = before ++ after; given = w.given }
          (place (block_of r) xs)
  freed-IsWorld before after r t n e runs' =
      let (p, held) =
        All-blocks before after r (subst (λ l. All (IsBlock block_align) (blocks l)) e v.held) in
      let (small, smalls) =
        All-live (λ r. r.size + 31 < usize_values) before after r
          (subst (All (λ r. r.size + 31 < usize_values)) e v.small) in
      let shares = λ (a : ℕ). v.conserved a ∙ refl in
      let split = λ (a : ℕ). ap (λ l. count (blocks l) a) e ∙ count-live before after r a in
      let live_count : length w.live ≡ suc (length (before ++ after)) =
        ap length e ∙ length-live before after r in
      let apart : Disjoint (block_of r) xs =
        count-Disjoint block_align (block_of r) xs p.filled free_blocks
          (λ a. omega (arith, v.single a, v.conserved a, split a)) in
      let (t', n', runs, heap, stats) =
        dealloc-IsHeap fuel w.self w.memory xs r.base r.size v.heap enough small p apart
          (omega (arith, v.requests, v.counted, live_count)) in
      let (heap', stats') =
        subst
          (λ (o : HeapAllocator × Headers).
            IsHeap o.0 o.1 (place (block_of r) xs)
            × (o.0.stats ≡ returned w.self.stats (rounded r.size)))
          (done_injective (t', n') (t, n) (sym runs ∙ runs')) (heap, stats) in
      record {
        heap = heap';
        held = held;
        small = smalls;
        conserved = λ a. omega (
          arith,
          v.conserved a,
          split a,
          count-union block_align (block_of r) xs (place (block_of r) xs) a v.heap.ordered
              heap'.ordered apart
              (place-covers block_align 0 (block_of r) xs a p apart v.heap.ordered),
        );
        single = v.single;
        total =
            ap HeapStats.total_bytes stats'
            ∙ omega (
              arith,
              v.total,
              bytes-place (block_of r) xs,
              ap (λ l. bytes (blocks l)) e,
              bytes-live before after r,
            );
        requests = omega (
          arith,
          ap HeapStats.alloc_count stats',
          ap HeapStats.dealloc_count stats',
          v.requests,
          live_count,
        );
        counted = omega (arith, ap HeapStats.alloc_count stats', v.counted);
      }

  allocated-IsWorld :
      (size align ptr : ℕ) (t : HeapAllocator) (n : Headers)
      → 0 < size
      → size + 31 < usize_values
      → is_power_of_two align ≡ true
      → w.self.stats.alloc_count + 1 < usize_values
      → alloc fuel w.self w.memory size align ≡ done (t, n, some ptr)
      → (ys : List Region) × IsWorld
          record { self = t; memory = n; live = region ptr size ∷ w.live; given = w.given }
          ys
  allocated-IsWorld size align ptr t n s small p count_fits runs =
      let g =
        alloc-Given fuel w.self w.memory xs size align v.heap enough s small p count_fits ptr t n
          runs in
      (
        g.left,
        record {
          heap = g.valid;
          held = (g.block, v.held);
          small = (small, v.small);
          conserved = λ a. omega (
            arith,
            v.conserved a,
            count-union block_align (region ptr (rounded size)) g.left xs a g.valid.ordered
                v.heap.ordered g.apart (g.covered a),
          );
          single = v.single;
          total = ap HeapStats.total_bytes g.counts ∙ omega (arith, v.total, g.weighs);
          requests = omega (
            arith,
            ap HeapStats.alloc_count g.counts,
            ap HeapStats.dealloc_count g.counts,
            v.requests,
          );
          counted = omega (arith, ap HeapStats.alloc_count g.counts, count_fits);
        },
      )

-- Along every run of a client that keeps to the contract, each address given to the heap is in one free
-- block or in one live block and never in two, the free list is in order with a gap between each block
-- and the next, the live blocks are aligned, and the totals and counters agree with the blocks.
pub Reachable-IsWorld :
    (fuel : ℕ) (memory : Headers) (w : World)
    → Reachable fuel memory w
    → (xs : List Region) × IsWorld w xs
unfolding new
Reachable-IsWorld fuel memory w begin = (
  [],
  record {
    heap = record { lists = refl; ordered = tt; free = refl };
    held = tt;
    small = tt;
    conserved = λ a. refl;
    single = λ a. omega arith;
    total = refl;
    requests = refl;
    counted = omega arith;
  },
)
Reachable-IsWorld fuel memory w (next u _ r (added ptr size k t n fits total single len e)) =
    let (xs, v) = Reachable-IsWorld fuel memory u r in
    (_, added-IsWorld fuel u xs v k len ptr size t n fits total single e)
Reachable-IsWorld fuel memory w
      (next u _ r (allocated size align k ptr t n s small p count_fits len e)) =
    let (xs, v) = Reachable-IsWorld fuel memory u r in
    allocated-IsWorld fuel u xs v k len size align ptr t n s small p count_fits e
Reachable-IsWorld fuel memory w (next u _ r (freed before after x k t n e len runs)) =
    let (xs, v) = Reachable-IsWorld fuel memory u r in
    (_, freed-IsWorld fuel u xs v k len before after x t n e runs)

-- Along every run of a client that keeps to the contract, the bytes in use are those of the live blocks, and the
-- statistics are balanced exactly if no request is live.
pub Reachable-is_balanced :
    (fuel : ℕ) (memory : Headers) (w : World)
    → Reachable fuel memory w
    → (used_bytes w.self.stats ≡ done (bytes (blocks w.live)))
      × ((is_balanced w.self.stats ≡ true) ↔ (w.live ≡ []))
Reachable-is_balanced fuel memory w r =
    let (xs, v) = Reachable-IsWorld fuel memory w r in
    let used : sub w.self.stats.total_bytes w.self.stats.free_bytes ≡ done (bytes (blocks w.live)) =
      ground (arith, v.total, v.heap.free) in
    (
      used,
      (
        λ e. no_live w.live (ground (arith, e, v.requests)),
        λ e. balanced xs e v.total v.requests v.heap.free,
      ),
    )
  where
    no_live : (live : List Region) → length live ≡ 0 → live ≡ []
    no_live [] e = refl
    no_live (x ∷ live) e = absurd (omega (arith, e))

    balanced :
        (xs : List Region)
        → w.live ≡ []
        → w.self.stats.total_bytes ≡ bytes xs + bytes (blocks w.live)
        → w.self.stats.alloc_count ≡ w.self.stats.dealloc_count + length w.live
        → w.self.stats.free_bytes ≡ bytes xs
        → is_balanced w.self.stats ≡ true
    balanced xs e total requests free =
        ground (arith, total, requests, free, ap length e, ap (λ l. bytes (blocks l)) e)
