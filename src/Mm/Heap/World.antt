-- ===== src/Mm/Heap/World.antt =====
-- A heap together with its client: the memory given to it, the requests that are live, and the calls
-- that the contract of the heap allows.
use avent.Base.Words.{usize_values, is_power_of_two}
use avent.Base.{
  ℕ, ◌+◌, ◌-◌, ◌%◌, ◌≤◌, ◌<◌, true, some, done, List, [], ◌∷◌, ◌++◌, length, map, All, ◌≡◌,
}
use avent.Mm.Vm.Region.{Region, region}
use avent.Mm.Blocks.{IsBlock}
use avent.Mm.Blocks.Size.{bytes}
use avent.Mm.Blocks.Count.{count}
use avent.Mm.Heap.{
  Headers, HeapAllocator, block_align, new, add_memory, alloc, dealloc, free_list_len,
}
use avent.Mm.Heap.Invariant.{IsHeap, rounded}

-- The heap, its memory, the requests that are live, and the memory given to the heap so far.
pub record World : Type 0 where
  pub self : HeapAllocator
  pub memory : Headers
  pub live : List Region
  pub given : List Region

-- The block behind a request of `r.size` bytes that got the address `r.base`.
abbrev pub block_of : Region → Region
block_of r = region r.base (rounded r.size)

abbrev pub blocks : List Region → List Region
blocks = map block_of

-- What `add_memory` makes of a size.
abbrev pub whole_units : ℕ → ℕ
whole_units size = size - size % block_align

abbrev pub start : Headers → World
start memory = record { self = new; memory = memory; live = []; given = [] }

-- One call of the client. Memory that is given to the heap meets none that it was given before, and
-- the counters do not overflow. A request has a size above 0 and an alignment that is a power of
-- two. Only a live request is given back, and once. The fuel is enough to walk the list.
pub data Step (fuel : ℕ) (w : World) : World → Type 0 where
  added :
      (ptr size k : ℕ) (t : HeapAllocator) (n : Headers)
      → ptr + size < usize_values
      → w.self.stats.total_bytes + size < usize_values
      → ((a : ℕ) → count (region ptr (whole_units size) ∷ w.given) a ≤ 1)
      → free_list_len fuel w.self.head w.memory ≡ done k
      → add_memory fuel w.self w.memory ptr size ≡ done (t, n)
      → Step fuel w record {
        self = t;
        memory = n;
        live = w.live;
        given = region ptr (whole_units size) ∷ w.given;
      }
  allocated :
      (size align k ptr : ℕ) (t : HeapAllocator) (n : Headers)
      → 0 < size
      → size + 31 < usize_values
      → is_power_of_two align ≡ true
      → w.self.stats.alloc_count + 1 < usize_values
      → free_list_len fuel w.self.head w.memory ≡ done k
      → alloc fuel w.self w.memory size align ≡ done (t, n, some ptr)
      → Step fuel w
          record { self = t; memory = n; live = region ptr size ∷ w.live; given = w.given }
  freed :
      (before after : List Region) (r : Region) (k : ℕ) (t : HeapAllocator) (n : Headers)
      → w.live ≡ before ++ r ∷ after
      → free_list_len fuel w.self.head w.memory ≡ done k
      → dealloc fuel w.self w.memory r.base r.size ≡ done (t, n)
      → Step fuel w record { self = t; memory = n; live = before ++ after; given = w.given }

pub data Reachable (fuel : ℕ) (memory : Headers) : World → Type 0 where
  begin : Reachable fuel memory (start memory)
  next : (w v : World) → Reachable fuel memory w → Step fuel w v → Reachable fuel memory v

-- Each address that was given to the heap is in one free block or in one live block; the totals and the
-- counters agree with that.
pub record IsWorld (w : World) (xs : List Region) : Type 0 where
  pub heap : IsHeap w.self w.memory xs
  pub held : All (IsBlock block_align) (blocks w.live)
  pub small : All (λ r. r.size + 31 < usize_values) w.live
  pub conserved : (a : ℕ) → count xs a + count (blocks w.live) a ≡ count w.given a
  pub single : (a : ℕ) → count w.given a ≤ 1
  pub total : w.self.stats.total_bytes ≡ bytes xs + bytes (blocks w.live)
  pub requests : w.self.stats.alloc_count ≡ w.self.stats.dealloc_count + length w.live
  pub counted : w.self.stats.alloc_count < usize_values
