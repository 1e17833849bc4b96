-- ===== src/Mm/Heap/Steps.antt =====
-- Each call keeps what holds of the heap and its client.
use avent.Base.Words.{add, complement, usize_values, is_power_of_two, round_down, round_down_mod}
use avent.Base.{
  All, ℕ, zero, suc, ◌+◌, ◌-◌, ◌%◌, ◌≤◌, ◌<◌, bit_and, true, not, ◌==◌, leb, Option, none, done,
  done_injective, bind_done, ◌>>=◌, List, [], ◌∷◌, length, ◌≡◌, refl, sym, ap, ◌∙◌, arith,
}
use avent.Mm.Vm.Region.{Region, region}
use avent.Mm.Blocks.{IsBlock, Disjoint, place, place-Ordered}
use avent.Mm.Blocks.Size.{bytes, bytes-bound, bytes-place}
use avent.Mm.Blocks.Weld.{Ordered-IsBlock}
use avent.Mm.Heap.{
  free_block, Headers, put, HeapAllocator, HeapStats, block_align, min_block_size, add_memory,
  free_list_len,
}
use avent.Mm.Heap.Chain.{Seg, Seg-put}
use avent.Mm.Heap.Insert.{Disjoint-Misses}
use avent.Mm.Heap.Place.{insert_and_coalesce-place}
use avent.Mm.Heap.Invariant.{IsHeap}
use avent.Mm.Heap.World.{whole_units}

-- If `free_list_len` returns, the fuel was above the number of blocks, and it gives that number.
pub free_list_len-bound :
    (fuel k : ℕ) (from : Option ℕ) (m : Headers) (xs : List Region)
    → Seg m from xs none
    → free_list_len fuel from m ≡ done k
    → (length xs < fuel) × (k ≡ length xs)
unfolding free_list_len
free_list_len-bound zero k from m xs s e = absurd (ground (arith, e))
free_list_len-bound (suc fuel) k from m [] s e =
    (omega arith, sym (done_injective 0 k (rw (free_list_len, s) at e)))
free_list_len-bound (suc fuel) k from m (x ∷ xs) s e =
    let opened : (free_list_len fuel (m x.base).next m >>= λ count. add count 1) ≡ done k =
      rw s.0 at e in
    let (j, e1, e2) =
      bind_done (free_list_len fuel (m x.base).next m) (λ count. add count 1) k opened in
    let (h, same) = free_list_len-bound fuel j (m x.base).next m xs s.2 e1 in
    (omega arith, ground (arith, e2, same))

pub given-IsBlock :
    (ptr size : ℕ)
    → ptr % block_align ≡ 0
    → min_block_size ≤ size
    → ptr + size < usize_values
    → IsBlock block_align (region ptr (whole_units size))
given-IsBlock ptr size aligned least fits = record {
  base_aligned = aligned;
  size_aligned = round_down_mod size block_align (omega arith);
  filled = omega (arith, least);
  bounded = omega (arith, fits);
}

pub add_memory-IsHeap :
    (fuel : ℕ) (self : HeapAllocator) (m : Headers) (xs : List Region) (ptr size : ℕ)
    → IsHeap self m xs
    → length xs < fuel
    → 0 < ptr
    → ptr % block_align ≡ 0
    → min_block_size ≤ size
    → ptr + size < usize_values
    → Disjoint (region ptr (whole_units size)) xs
    → self.stats.free_bytes + size < usize_values
    → self.stats.total_bytes + size < usize_values
    → (t : HeapAllocator) × (n : Headers) × (add_memory fuel self m ptr size ≡ done (t, n))
      × IsHeap t n (place (region ptr (whole_units size)) xs)
      × (t.stats ≡ record (self.stats) {
        total_bytes = self.stats.total_bytes + whole_units size;
        free_bytes = self.stats.free_bytes + whole_units size;
      })
unfolding add_memory is_power_of_two
add_memory-IsHeap fuel self m xs ptr size v f nonnull aligned least fits d free total =
    let units = whole_units size in
    let r = region ptr units in
    let p = given-IsBlock ptr size aligned least fits in
    let mask : bit_and size (complement (block_align - 1)) ≡ units =
      round_down size block_align (omega (arith, fits)) refl in
    let total_done : add self.stats.total_bytes units ≡ done (self.stats.total_bytes + units) =
      ground (arith, total) in
    let free_done : add self.stats.free_bytes units ≡ done (self.stats.free_bytes + units) =
      ground (arith, free) in
    let stats = record (self.stats) {
      total_bytes = self.stats.total_bytes + units;
      free_bytes = self.stats.free_bytes + units;
    } in
    let m1 = put m ptr (free_block units none) in
    let misses = Disjoint-Misses r xs p.filled (Ordered-IsBlock block_align 0 xs v.ordered) d in
    let lists = Seg-put m ptr (free_block units none) self.head none xs misses v.lists in
    let (t, n, runs, lists', same) =
      insert_and_coalesce-place fuel (record self { stats = stats }) m1 r xs f lists v.ordered p
        d in
    let some_ptr : not (ptr == 0) ≡ true = ground (arith, nonnull) in
    let large : leb min_block_size size ≡ true = ground (arith, least) in
    let whole : (ptr % block_align == 0) ≡ true = rw aligned refl in
    (
      t,
      n,
      rw (some_ptr, whole, large, mask, total_done, free_done) runs,
      record {
        lists = lists';
        ordered = place-Ordered block_align 0 r xs (omega arith) p d v.ordered;
        free = ap HeapStats.free_bytes same ∙ omega (arith, v.free, bytes-place r xs);
      },
      same,
    )

-- Blocks are not empty, so there are no more of them than bytes.
length-bytes : (xs : List Region) → All (IsBlock block_align) xs → length xs ≤ bytes xs
length-bytes [] p = omega arith
length-bytes (x ∷ xs) p = omega (arith, p.0.filled, length-bytes xs p.1)

count-list :
    (fuel : ℕ) (from : Option ℕ) (m : Headers) (xs : List Region)
    → Seg m from xs none
    → length xs < fuel
    → length xs < usize_values
    → free_list_len fuel from m ≡ done (length xs)
unfolding free_list_len
count-list zero from m xs s f b = absurd (omega (arith, f))
count-list (suc fuel) from m [] s f b = rw (free_list_len, s) refl
count-list (suc fuel) from m (x ∷ xs) s f b =
    let rest = count-list fuel (m x.base).next m xs s.2 (omega (arith, f)) (omega (arith, b)) in
    let sum : add (length xs) 1 ≡ done (suc (length xs)) = ground (arith, b) in
    rw (free_list_len, s.0, rest) sum

-- For blocks in order with the free bytes counted and more fuel than there are blocks, the walk of
-- `free_list_len` along the list ends, without a panic, and gives the number of blocks.
pub free_list_len-length :
    (fuel : ℕ) (self : HeapAllocator) (m : Headers) (xs : List Region)
    → IsHeap self m xs
    → length xs < fuel
    → free_list_len fuel self.head m ≡ done (length xs)
free_list_len-length fuel self m xs v f =
    let few = length-bytes xs (Ordered-IsBlock block_align 0 xs v.ordered) in
    let bound = bytes-bound block_align 0 xs (omega arith) v.ordered in
    count-list fuel self.head m xs v.lists f (omega (arith, few, bound))
