-- ===== src/Mm/Heap/Carve.antt =====
-- `carve`: the block found is taken out of the free list, and what it leaves goes back.
use mathlib.Core.List.{append-nil}
use avent.Base.{
  ℕ, ◌+◌, ◌≤◌, ◌<◌, Option, none, some, ltb, List, [], ◌∷◌, ◌++◌, All, All-mono, ◌≡◌, ◌≢◌, refl,
  sym, ap, subst, arith, inl, inr, Bool-cases,
}
use avent.Mm.Vm.Region.{Region, region}
use avent.Mm.Blocks.{Ordered}
use avent.Mm.Blocks.Pieces.{piece, Ordered-right}
use avent.Mm.Blocks.Weld.{Ordered-above}
use avent.Mm.Heap.{
  FreeBlock, free_block, Headers, put, HeapAllocator, Link, head, write_link, block_align,
  keep_padding, keep_remainder,
}
use avent.Mm.Heap.Chain.{Seg, Misses, Seg-put, Seg-append, Seg-split, link_after}
use avent.Mm.Heap.Insert.{link_after-snoc}
use avent.Mm.Heap.Place.{Lists}
use avent.Mm.Heap.Relink.{Relinked-keeps, relink, Ordered-low, Ordered-left, low-Misses}

-- After the padding went back: the blocks `pre`, the link behind them, and the blocks after.
pub record Kept (self : HeapAllocator) (pre post : List Region) (next : Option ℕ) (link : Link)
    (t : HeapAllocator) (n : Headers) : Type 0 where
  pub behind : link ≡ link_after head pre
  pub before : Seg n t.head pre next
  pub after : Seg n next post none
  pub keeps : t.stats ≡ self.stats

high-Misses : (a : ℕ) (xs : List Region) → All (λ x. a < x.base) xs → Misses a xs
high-Misses a xs = All-mono (λ x. a < x.base) (λ x. a ≢ x.base) xs (λ x h e. omega (arith, e))

module _ (self : HeapAllocator) (m : Headers) (pre post : List Region) (slot : Region)
    (l : Lists self m (pre ++ slot ∷ post)) (t : Ordered block_align 0 (pre ++ slot ∷ post)) where
  above_slot : All (λ x. slot.base < x.base) post
  above_slot =
      All-mono (λ x. slot.base + slot.size + 1 ≤ x.base) (λ x. slot.base < x.base) post
        (λ x h. omega arith)
        (Ordered-above block_align (slot.base + slot.size + 1) _ post (omega arith)
          (Ordered-right block_align 0 pre post slot t))

  pub keep_padding-Kept :
      (padding : ℕ)
      → let (link, t, n) = keep_padding padding (link_after head pre) slot.base self m in
        Kept self (pre ++ piece slot.base padding) post (m slot.base).next link t n
  keep_padding-Kept padding =
      let (mid, front, back) = Seg-split m self.head none pre (slot ∷ post) l in
      let low = Ordered-low 0 pre post slot t in
      elim (Bool-cases (ltb 0 padding)) [
        | inl e ↦
            let block = free_block padding (m slot.base).next in
            let n = put m slot.base block in
            let at : n slot.base ≡ block = ground arith in
            rw e record {
              behind = sym (link_after-snoc head pre (region slot.base padding));
              before =
                  Seg-append n self.head mid (m slot.base).next pre (region slot.base padding ∷ [])
                    (Seg-put m slot.base block self.head mid pre (low-Misses slot.base pre low)
                      front)
                    (back.0, ap FreeBlock.size at, ap FreeBlock.next at);
              after =
                  Seg-put m slot.base block (m slot.base).next none post
                    (high-Misses slot.base post above_slot) back.2;
              keeps = refl;
            }
        | inr e ↦
            let r =
              relink self m slot.base pre mid (m slot.base).next front
                (Ordered-left 0 pre (slot ∷ post) t) low in
            let at_or_above =
              All-mono (λ x. slot.base < x.base) (λ x. slot.base ≤ x.base) post (λ x h. omega arith)
                above_slot in
            rw (e, append-nil pre)
              record {
                behind = refl;
                before = r.leads;
                after =
                    Relinked-keeps self m slot.base pre (m slot.base).next _ _ (m slot.base).next
                      none post r at_or_above back.2;
                keeps = r.keeps;
              }
      ]

pub keep_remainder-Lists :
    (self : HeapAllocator) (m : Headers) (pre post : List Region) (next : Option ℕ)
    (addr remainder : ℕ)
    → Seg m self.head pre next
    → Seg m next post none
    → Ordered block_align 0 pre
    → All (λ x. x.base < addr) pre
    → All (λ x. addr < x.base) post
    → let (t, n) = keep_remainder remainder addr next (link_after head pre) self m in
      Lists t n (pre ++ region addr remainder ∷ post) × (t.stats ≡ self.stats)
keep_remainder-Lists self m pre post next addr remainder before after t low high =
    let block = free_block remainder next in
    let m1 = put m addr block in
    let at : m1 addr ≡ block = ground arith in
    let front = Seg-put m addr block self.head next pre (low-Misses addr pre low) before in
    let back = Seg-put m addr block next none post (high-Misses addr post high) after in
    let r = relink self m1 addr pre next (some addr) front t low in
    let rest : Seg m1 (some addr) (region addr remainder ∷ post) none = (
      refl,
      ap FreeBlock.size at,
      subst (λ (o : Option ℕ). Seg m1 o post none) (ap FreeBlock.next (sym at)) back,
    ) in
    let at_or_above =
      All-mono (λ x. addr < x.base) (λ x. addr ≤ x.base) post (λ x h. omega arith) high in
    let (u, n) = write_link (link_after head pre) (some addr) self m1 in
    (
      Seg-append n u.head (some addr) none pre (region addr remainder ∷ post) r.leads (
          Relinked-keeps self m1 addr pre (some addr) u n (some addr) none
            (region addr remainder ∷ post) r (omega arith, at_or_above) rest),
      r.keeps,
    )
