-- ===== src/Mm/Heap/Relink.antt =====
-- A write to the link behind the first blocks of the free list, and a block put in there.
use avent.Base.{
  ℕ, ◌+◌, ◌≤◌, ◌<◌, Option, List, [], ◌∷◌, ◌++◌, All, All-mono, ◌≡◌, ◌≢◌, refl, sym, ap, subst, ◌∙◌,
  arith, inl, inr,
}
use avent.Mm.Vm.Region.{Region}
use avent.Mm.Blocks.{Ordered}
use avent.Mm.Blocks.Pieces.{Ordered-reach}
use avent.Mm.Blocks.Weld.{All-right, snoc}
use avent.Mm.Heap.{
  FreeBlock, free_block, Headers, put, HeapAllocator, head, write_link, block_align,
}
use avent.Mm.Heap.Chain.{Seg, Misses, Seg-put, Seg-same, Seg-append, Seg-split, link_after}
use avent.Mm.Heap.Insert.{link_after-snoc}

-- The blocks before `x` begin below it, and those after it above.
pub Ordered-low :
    (lo : ℕ) (pre post : List Region) (x : Region)
    → Ordered block_align lo (pre ++ x ∷ post)
    → All (λ y. y.base < x.base) pre
Ordered-low lo [] post x t = tt
Ordered-low lo (y ∷ pre) post x t = (
  omega (arith, Ordered-reach block_align (y.base + y.size + 1) pre post x t.2),
  Ordered-low (y.base + y.size + 1) pre post x t.2,
)

pub Ordered-left :
    (lo : ℕ) (pre post : List Region)
    → Ordered block_align lo (pre ++ post)
    → Ordered block_align lo pre
Ordered-left lo [] post t = tt
Ordered-left lo (y ∷ pre) post t = (t.0, t.1, Ordered-left (y.base + y.size + 1) pre post t.2)

pub low-Misses : (a : ℕ) (xs : List Region) → All (λ x. x.base < a) xs → Misses a xs
low-Misses a xs = All-mono (λ x. x.base < a) (λ x. a ≢ x.base) xs (λ x h e. omega (arith, e))

-- What a write to the link behind `pre` leaves: the list `pre` now leads to `to`, and no header at
-- or above `b` is changed.
pub record Relinked (self : HeapAllocator) (m : Headers) (b : ℕ) (pre : List Region) (to : Option ℕ)
    (t : HeapAllocator) (n : Headers) : Type 0 where
  pub leads : Seg n t.head pre to
  pub keeps : t.stats ≡ self.stats
  pub above : (a : ℕ) → b ≤ a → n a ≡ m a

relink_behind :
    (self : HeapAllocator) (m : Headers) (b : ℕ) (ys : List Region) (y : Region) (mid to : Option ℕ)
    → Seg m self.head (ys ++ y ∷ []) mid
    → Ordered block_align 0 (ys ++ y ∷ [])
    → y.base < b
    → Relinked self m b (ys ++ y ∷ []) to self (put m y.base (free_block (m y.base).size to))
relink_behind self m b ys y mid to s t low =
    let (at, front, back) = Seg-split m self.head mid ys (y ∷ []) s in
    let block = free_block (m y.base).size to in
    let n = put m y.base block in
    let at_y : n y.base ≡ block = ground arith in
    let misses = low-Misses y.base ys (Ordered-low 0 ys [] y t) in
    record {
      leads =
          Seg-append n self.head at to ys (y ∷ [])
            (Seg-put m y.base block self.head at ys misses front)
            (back.0, ap FreeBlock.size at_y ∙ back.1, ap FreeBlock.next at_y);
      keeps = refl;
      above = λ a h. ground (arith, low);
    }

-- What `relink` says of the write.
abbrev pub Relinks : HeapAllocator → Headers → ℕ → List Region → Option ℕ → Type 0
Relinks self m b pre to =
    let (t, n) = write_link (link_after head pre) to self m in Relinked self m b pre to t n

pub relink :
    (self : HeapAllocator) (m : Headers) (b : ℕ) (pre : List Region) (mid to : Option ℕ)
    → Seg m self.head pre mid
    → Ordered block_align 0 pre
    → All (λ x. x.base < b) pre
    → Relinks self m b pre to
relink self m b pre mid to s t low = elim (snoc pre) [
  | inl e ↦
      subst (λ pre. Relinks self m b pre to) (sym e)
        record { leads = refl; keeps = refl; above = λ a h. refl }
  | inr (ys, y, e) ↦
      let last = All-right (λ x. x.base < b) ys (y ∷ []) (subst (All (λ x. x.base < b)) e low) in
      subst (λ pre. Relinks self m b pre to) (sym e)
        (rw (link_after-snoc head ys y) (
          relink_behind self m b ys y mid to (subst (λ l. Seg m self.head l mid) e s)
            (subst (Ordered block_align 0) e t) last.0))
]

-- What stands at or above `b` stays.
pub Relinked-keeps :
    (self : HeapAllocator) (m : Headers) (b : ℕ) (pre : List Region) (to : Option ℕ)
    (t : HeapAllocator) (n : Headers) (from end : Option ℕ) (xs : List Region)
    → Relinked self m b pre to t n
    → All (λ x. b ≤ x.base) xs
    → Seg m from xs end
    → Seg n from xs end
Relinked-keeps self m b pre to t n from end xs r high s =
    Seg-same m n from end xs
      (All-mono (λ x. b ≤ x.base) (λ x. n x.base ≡ m x.base) xs (λ x h. r.above x.base h) high) s
