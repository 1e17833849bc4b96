-- ===== src/Mm/Heap/Tests.antt =====
-- The heap on examples.
use avent.Base.Words.{is_power_of_two}
use avent.Base.{
  ℕ, ◌+◌, true, none, some, Option, Outcome, done, panic, List, [], ◌∷◌, All, ◌≡◌, ◌↔◌, ◌⊎◌, refl,
  arith, inr,
}
use avent.Mm.Vm.Region.{Region, region}
use avent.Mm.Blocks.{IsBlock, place}
use avent.Mm.Blocks.Size.{bytes}
use avent.Mm.Blocks.Pieces.{HasNoRoom}
use avent.Mm.Heap.{
  Headers, HeapAllocator, free_block, block_align, new, add_memory, alloc, dealloc, free_list_len,
  insert_and_coalesce, is_balanced, used_bytes, seek, search, carve, merge_left, merge_right,
  align_up, has_room, block_size_of, next_multiple_of,
}
use avent.Mm.Heap.Place.{Lists, insert_and_coalesce-place}
use avent.Mm.Heap.Search.{Reaches}
use avent.Mm.Heap.Invariant.{
  IsHeap, Allocated, rounded, effective, returned, dealloc-IsHeap, alloc-first_fit,
}
use avent.Mm.Heap.Given.{Given, alloc-Given, dealloc-alloc}
use avent.Mm.Heap.Steps.{free_list_len-length}
use avent.Mm.Heap.World.{
  World, Step, added, allocated, Reachable, begin, next, start, blocks, IsWorld,
}
use avent.Mm.Heap.Reach.{Reachable-IsWorld, Reachable-is_balanced}

-- Memory before the heap writes to it.
abbrev blank : Headers
blank = λ a. free_block 0 none

-- What a call returns, and `new` over blank memory if it panics.
abbrev result : Outcome (HeapAllocator × Headers) → HeapAllocator × Headers
result (done r) = r
result panic = (new, blank)

abbrev grown : HeapAllocator × Headers
grown = result (add_memory 8 new blank 4096 4096)

grown_runs : add_memory 8 new blank 4096 4096 ≡ done grown
unfolding add_memory insert_and_coalesce seek merge_left merge_right new
grown_runs = refl

abbrev page : Region
page = region 4096 4096

page-IsBlock : IsBlock block_align page
page-IsBlock = record {
  base_aligned = refl;
  size_aligned = refl;
  filled = omega arith;
  bounded = omega arith;
}

grown-IsHeap : IsHeap grown.0 grown.1 (page ∷ [])
unfolding add_memory insert_and_coalesce seek merge_left merge_right new
grown-IsHeap = record {
  lists = (refl, refl, refl);
  ordered = (omega arith, page-IsBlock, tt);
  free = refl;
}

power_64 : is_power_of_two 64 ≡ true
unfolding is_power_of_two
power_64 = refl

-- A request of 100 bytes gets 112 at the start of the page.
abbrev given : HeapAllocator × Headers × Option ℕ
given = elim (alloc 8 grown.0 grown.1 100 64) [ done r ↦ r | panic ↦ (new, blank, none) ]

given_runs : alloc 8 grown.0 grown.1 100 64 ≡ done (given.0, given.1, some 4096)
unfolding add_memory insert_and_coalesce seek merge_left merge_right new alloc search carve align_up
    has_room block_size_of next_multiple_of is_power_of_two
given_runs = refl

alloc-first_fit_example :
    ((alloc 8 grown.0 grown.1 100 64 ≡ panic) × (Reaches (effective 64) (page ∷ []) → ⊥))
    ⊎ ((alloc 8 grown.0 grown.1 100 64 ≡ done (grown.0, grown.1, none))
        × All (HasNoRoom (rounded 100) (effective 64)) (page ∷ []))
    ⊎ Allocated grown.0 (rounded 100) (effective 64) (page ∷ []) (alloc 8 grown.0 grown.1 100 64)
unfolding add_memory insert_and_coalesce seek merge_left merge_right new
alloc-first_fit_example =
    alloc-first_fit 8 grown.0 grown.1 (page ∷ []) 100 64 grown-IsHeap (omega arith) (omega arith)
      (omega arith) power_64 (omega arith)

alloc-Given_example : Given grown.0 (page ∷ []) 100 64 4096 given.0 given.1
unfolding add_memory insert_and_coalesce seek merge_left merge_right new
alloc-Given_example =
    alloc-Given 8 grown.0 grown.1 (page ∷ []) 100 64 grown-IsHeap (omega arith) (omega arith)
      (omega arith) power_64 (omega arith) 4096 given.0 given.1 given_runs

dealloc-alloc_example :
    (t : HeapAllocator) × (n : Headers) × (dealloc 8 given.0 given.1 4096 100 ≡ done (t, n))
    × IsHeap t n (page ∷ [])
    × (t.stats.free_bytes ≡ grown.0.stats.free_bytes)
    × (t.stats.dealloc_count ≡ grown.0.stats.dealloc_count + 1)
unfolding add_memory insert_and_coalesce seek merge_left merge_right new
dealloc-alloc_example =
    dealloc-alloc 8 grown.0 grown.1 (page ∷ []) 100 64 grown-IsHeap (omega arith) (omega arith)
      (omega arith) power_64 (omega arith) (omega arith) 4096 given.0 given.1 given_runs

-- The page behind.
abbrev behind : Region
behind = region 8192 112

behind-IsBlock : IsBlock block_align behind
behind-IsBlock = record {
  base_aligned = refl;
  size_aligned = refl;
  filled = omega arith;
  bounded = omega arith;
}

dealloc-IsHeap_example :
    (t : HeapAllocator) × (n : Headers) × (dealloc 8 grown.0 grown.1 8192 100 ≡ done (t, n))
    × IsHeap t n (place behind (page ∷ []))
    × (t.stats ≡ returned grown.0.stats (rounded 100))
unfolding add_memory insert_and_coalesce seek merge_left merge_right new
dealloc-IsHeap_example =
    dealloc-IsHeap 8 grown.0 grown.1 (page ∷ []) 8192 100 grown-IsHeap (omega arith) (omega arith)
      behind-IsBlock (inr (omega arith), tt) (omega arith)

insert_and_coalesce-place_example :
    (t : HeapAllocator) × (n : Headers) × (insert_and_coalesce 8 grown.0 grown.1 8192 112
      ≡ done (t, n))
    × Lists t n (place behind (page ∷ []))
    × (t.stats ≡ grown.0.stats)
insert_and_coalesce-place_example =
    insert_and_coalesce-place 8 grown.0 grown.1 behind (page ∷ []) (omega arith) grown-IsHeap.lists
      grown-IsHeap.ordered behind-IsBlock (inr (omega arith), tt)

-- A client that gives a page to the heap and makes a request.
abbrev world_grown : World
world_grown = record { self = grown.0; memory = grown.1; live = []; given = page ∷ [] }

abbrev world_given : World
world_given = record {
  self = given.0;
  memory = given.1;
  live = region 4096 100 ∷ [];
  given = page ∷ [];
}

grows : Step 8 (start blank) world_grown
unfolding free_list_len new
grows =
    added 4096 4096 0 grown.0 grown.1 (omega arith) (omega arith) (λ a. ground arith) refl
      grown_runs

requests : Step 8 world_grown world_given
unfolding add_memory insert_and_coalesce seek merge_left merge_right new free_list_len
requests =
    allocated 100 64 1 4096 given.0 given.1 (omega arith) (omega arith) power_64 (omega arith) refl
      given_runs

runs : Reachable 8 blank world_given
runs = next world_grown world_given (next (start blank) world_grown begin grows) requests

Reachable-IsWorld_example : (xs : List Region) × IsWorld world_given xs
Reachable-IsWorld_example = Reachable-IsWorld 8 blank world_given runs

Reachable-is_balanced_example :
    (used_bytes world_given.self.stats ≡ done (bytes (blocks world_given.live)))
    × ((is_balanced world_given.self.stats ≡ true) ↔ (world_given.live ≡ []))
Reachable-is_balanced_example = Reachable-is_balanced 8 blank world_given runs

free_list_len-length_example : free_list_len 8 grown.0.head grown.1 ≡ done 1
unfolding add_memory insert_and_coalesce seek merge_left merge_right new
free_list_len-length_example =
    free_list_len-length 8 grown.0 grown.1 (page ∷ []) grown-IsHeap (omega arith)
