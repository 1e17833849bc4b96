-- ===== src/Mm/Heap/Chain.antt =====
-- The free list in memory: segments of it, and what a write to a link does to them.
use avent.Base.{
  ℕ, zero, suc, ◌≤◌, ◌<◌, Option, none, some, done, lt→ltb, le→ltb, List, [], ◌∷◌, ◌++◌, length,
  All, ◌≡◌, ◌≢◌, refl, sym, ap, subst, ◌∙◌, arith,
}
use avent.Mm.Vm.Region.{Region}
use avent.Mm.Heap.{FreeBlock, Headers, put, HeapAllocator, Link, next_of, read_link, seek}

-- From `from` the headers lead through the blocks of the list to `to`.
abbrev pub Seg : Headers → Option ℕ → List Region → Option ℕ → Type 0
Seg memory from [] to = from ≡ to
Seg memory from (x ∷ xs) to =
    (from ≡ some x.base) × ((memory x.base).size ≡ x.size) × Seg memory (memory x.base).next xs to

-- No block of the list is at the address.
abbrev pub Misses : ℕ → List Region → Type 0
Misses a = All (λ x. a ≢ x.base)

pub Seg-same :
    (m n : Headers) (from to : Option ℕ) (xs : List Region)
    → All (λ x. n x.base ≡ m x.base) xs
    → Seg m from xs to
    → Seg n from xs to
Seg-same m n from to [] same s = s
Seg-same m n from to (x ∷ xs) same s = (
  s.0,
  ap FreeBlock.size same.0 ∙ s.1,
  Seg-same m n (n x.base).next to xs same.1
      (subst (λ (o : Option ℕ). Seg m o xs to) (ap FreeBlock.next (sym same.0)) s.2),
)

pub Seg-put :
    (m : Headers) (a : ℕ) (b : FreeBlock) (from to : Option ℕ) (xs : List Region)
    → Misses a xs
    → Seg m from xs to
    → Seg (put m a b) from xs to
Seg-put m a b from to [] apart s = s
Seg-put m a b from to (x ∷ xs) apart s = ground (arith, Seg-put m a b (m x.base).next to xs)

pub Seg-append :
    (m : Headers) (from mid to : Option ℕ) (xs ys : List Region)
    → Seg m from xs mid
    → Seg m mid ys to
    → Seg m from (xs ++ ys) to
Seg-append m from mid to [] ys s t = subst (λ (o : Option ℕ). Seg m o ys to) (sym s) t
Seg-append m from mid to (x ∷ xs) ys s t =
    (s.0, s.1, Seg-append m (m x.base).next mid to xs ys s.2 t)

-- Where the list after `xs` begins.
pub Seg-split :
    (m : Headers) (from to : Option ℕ) (xs ys : List Region)
    → Seg m from (xs ++ ys) to
    → (mid : Option ℕ) × Seg m from xs mid × Seg m mid ys to
Seg-split m from to [] ys s = (from, refl, s)
Seg-split m from to (x ∷ xs) ys s =
    let (mid, l, r) = Seg-split m (m x.base).next to xs ys s.2 in (mid, (s.0, s.1, l), r)

-- The link behind the blocks of the list, and the last of them.
abbrev pub link_after : Link → List Region → Link
link_after link [] = link
link_after link (x ∷ xs) = link_after (next_of x.base) xs

abbrev pub prev_after : Option ℕ → List Region → Option ℕ
prev_after prev [] = prev
prev_after prev (x ∷ xs) = prev_after (some x.base) xs

-- The list from `mid` on begins with a block that is not below `addr`, or is empty.
abbrev pub StartsAt : ℕ → Option ℕ → Type 0
StartsAt addr none = Unit
StartsAt addr (some b) = addr ≤ b

pub seek-done :
    (fuel addr : ℕ) (self : HeapAllocator) (m : Headers) (link : Link) (prev mid : Option ℕ)
    (xs : List Region)
    → length xs < fuel
    → Seg m (read_link link self m) xs mid
    → All (λ x. x.base < addr) xs
    → StartsAt addr mid
    → (seek fuel addr self m link prev ≡ done (link_after link xs, prev_after prev xs))
      × (read_link (link_after link xs) self m ≡ mid)
unfolding seek
seek-done (suc fuel) addr self m link prev none [] f s low at = (rw (seek, s) refl, s)
seek-done (suc fuel) addr self m link prev (some b) [] f s low at =
    (rw (seek, s, le→ltb b addr at) refl, s)
seek-done (suc fuel) addr self m link prev mid (x ∷ xs) f s low at =
    let (e, r) =
      seek-done fuel addr self m (next_of x.base) (some x.base) mid xs (omega arith) s.2 low.1 at in
    (rw (seek, s.0, lt→ltb x.base addr low.0) e, r)
seek-done zero addr self m link prev mid xs f s low at = absurd (omega arith)
