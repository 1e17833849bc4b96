-- ===== src/Mm/Heap/Live.antt =====
-- The live requests of a client, and one of them taken out.
use avent.Base.{ℕ, suc, ◌+◌, List, [], ◌∷◌, ◌++◌, length, All, ◌≡◌, refl, ap, arith}
use avent.Mm.Vm.Region.{Region}
use avent.Mm.Blocks.{IsBlock, holds}
use avent.Mm.Blocks.Size.{bytes}
use avent.Mm.Blocks.Count.{once, count}
use avent.Mm.Heap.{block_align}
use avent.Mm.Heap.Invariant.{rounded}
use avent.Mm.Heap.World.{block_of, blocks}

-- A request out of the live ones: what it and the others hold.
pub count-live :
    (before after : List Region) (r : Region) (a : ℕ)
    → count (blocks (before ++ r ∷ after)) a
      ≡ once (holds (block_of r) a) + count (blocks (before ++ after)) a
count-live [] after r a = refl
count-live (x ∷ before) after r a = omega (arith, count-live before after r a)

pub bytes-live :
    (before after : List Region) (r : Region)
    → bytes (blocks (before ++ r ∷ after)) ≡ rounded r.size + bytes (blocks (before ++ after))
bytes-live [] after r = refl
bytes-live (x ∷ before) after r = omega (arith, bytes-live before after r)

pub length-live :
    (before after : List Region) (r : Region)
    → length (before ++ r ∷ after) ≡ suc (length (before ++ after))
length-live [] after r = refl
length-live (x ∷ before) after r = ap suc (length-live before after r)

pub All-live :
    (P : Region → Type 0) (before after : List Region) (r : Region)
    → All P (before ++ r ∷ after)
    → P r × All P (before ++ after)
All-live P [] after r h = h
All-live P (x ∷ before) after r h =
    let (p, rest) = All-live P before after r h.1 in (p, (h.0, rest))

pub All-blocks :
    (before after : List Region) (r : Region)
    → All (IsBlock block_align) (blocks (before ++ r ∷ after))
    → IsBlock block_align (block_of r) × All (IsBlock block_align) (blocks (before ++ after))
All-blocks [] after r h = h
All-blocks (x ∷ before) after r h =
    let (p, rest) = All-blocks before after r h.1 in (p, (h.0, rest))
