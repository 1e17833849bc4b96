-- ===== src/Mm/Heap/Take.antt =====
-- `carve` as a whole: the list and the statistics it leaves.
use mathlib.Core.List.{append_assoc}
use avent.Base.Words.{add, sub, usize_values}
use avent.Base.{
  ℕ, ◌+◌, ◌-◌, ◌%◌, ◌≤◌, ◌<◌, true, false, none, Outcome, done, ltb, leb, lt→ltb, ltb→lt, List, [],
  ◌∷◌, ◌++◌, All, All-mono, ◌≡◌, refl, sym, ap, subst, ◌∙◌, arith, inl, inr, Bool-cases, ◌>>=◌,
}
use avent.Mm.Vm.Region.{Region, region}
use avent.Mm.Blocks.{Ordered, IsBlock}
use avent.Mm.Blocks.Pieces.{FitsAt, piece, pieces, Ordered-right, tail-IsBlock}
use avent.Mm.Blocks.Taken.{taken-Ordered}
use avent.Mm.Blocks.Weld.{Ordered-above, Ordered-IsBlock, All-right}
use avent.Mm.Heap.{
  Headers, HeapAllocator, HeapStats, Link, head, block_align, min_block_size, keep_padding,
  keep_remainder, carve,
}
use avent.Mm.Heap.Chain.{Seg-append, Seg-split, link_after}
use avent.Mm.Heap.Place.{Lists}
use avent.Mm.Heap.Relink.{Ordered-low, Ordered-left}
use avent.Mm.Heap.Carve.{keep_padding-Kept, keep_remainder-Lists}

-- The statistics after an allocation of `size` bytes.
abbrev pub taken : HeapStats → ℕ → HeapStats
taken stats size = record stats {
  free_bytes = stats.free_bytes - size;
  alloc_count = stats.alloc_count + 1;
}

-- The heap after `carve`, with the statistics brought up to date.
abbrev pub Carved : HeapAllocator → ℕ → List Region → Outcome (HeapAllocator × Headers) → Type 0
Carved self size xs o =
    (t : HeapAllocator) × (n : Headers) × (o ≡ done (t, n))
    × Lists t n xs
    × (t.stats ≡ taken self.stats size)

-- The last step of `carve`.
counted : ℕ → HeapAllocator → Headers → Outcome (HeapAllocator × Headers)
counted consumed self m = sub self.stats.free_bytes consumed >>= λ free.
    add self.stats.alloc_count 1 >>= λ count.
    done (record self { stats = record (self.stats) { free_bytes = free; alloc_count = count } }, m)

carve-large :
    (size : ℕ) (link : Link) (block alloc_start : ℕ) (self : HeapAllocator) (m : Headers)
    (padding rest remainder addr : ℕ)
    → sub alloc_start block ≡ done padding
    → sub (m block).size padding ≡ done rest
    → sub rest size ≡ done remainder
    → leb min_block_size remainder ≡ true
    → add alloc_start size ≡ done addr
    → sub rest remainder ≡ done size
    → let (link1, t1, n1) = keep_padding padding link block self m in
      let (t, n) = keep_remainder remainder addr (m block).next link1 t1 n1 in
      carve size link block alloc_start self m ≡ counted size t n
unfolding carve counted
carve-large size link block alloc_start self m padding rest remainder addr e1 e2 e3 e4 e5 e6 =
    rw (carve, e1, e2, e3, e4, e5, e6) refl

carve-whole :
    (size : ℕ) (link : Link) (block alloc_start : ℕ) (self : HeapAllocator) (m : Headers)
    (padding rest remainder : ℕ)
    → sub alloc_start block ≡ done padding
    → sub (m block).size padding ≡ done rest
    → sub rest size ≡ done remainder
    → leb min_block_size remainder ≡ false
    → sub rest 0 ≡ done size
    → let (link1, t1, n1) = keep_padding padding link block self m in
      carve size link block alloc_start self m ≡ counted size t1 n1
unfolding carve counted
carve-whole size link block alloc_start self m padding rest remainder e1 e2 e3 e4 e5 =
    rw (carve, e1, e2, e3, e4, e5) refl

counted-done :
    (size : ℕ) (self t : HeapAllocator) (n : Headers)
    → t.stats ≡ self.stats
    → size ≤ self.stats.free_bytes
    → self.stats.alloc_count + 1 < usize_values
    → counted size t n ≡ done (record t { stats = taken self.stats size }, n)
unfolding counted
counted-done size self t n e f c =
    let free : sub self.stats.free_bytes size ≡ done (self.stats.free_bytes - size) =
      ground (arith, f) in
    let count : add self.stats.alloc_count 1 ≡ done (self.stats.alloc_count + 1) =
      ground (arith, c) in
    rw (e, free, count) refl

piece-some : (base size : ℕ) → 0 < size → piece base size ≡ region base size ∷ []
piece-some base size h = rw (lt→ltb 0 size h) refl

module _ (self : HeapAllocator) (m : Headers) (pre post : List Region) (slot : Region)
    (size align base padding : ℕ) (l : Lists self m (pre ++ slot ∷ post))
    (t : Ordered block_align 0 (pre ++ slot ∷ post)) (f : FitsAt size align slot base padding)
    (s : 0 < size) (whole : size % block_align ≡ 0) (aligns : align % block_align ≡ 0) where
  slot-IsBlock : IsBlock block_align slot
  slot-IsBlock =
      (All-right (IsBlock block_align) pre (slot ∷ post)
        (Ordered-IsBlock block_align 0 (pre ++ slot ∷ post) t)).0

  -- The list with the tail of the slot apart.
  regroup :
      (q : List Region)
      → pre ++ ((piece slot.base padding ++ q) ++ post)
        ≡ (pre ++ piece slot.base padding) ++ (q ++ post)
  regroup q =
      ap (λ l. pre ++ l) (append_assoc (piece slot.base padding) q post)
      ∙ sym (append_assoc pre (piece slot.base padding) (q ++ post))

  rest_done : sub (m slot.base).size padding ≡ done (slot.size - padding)
  rest_done =
      let back = (Seg-split m self.head none pre (slot ∷ post) l).2 in
      let fits : sub slot.size padding ≡ done (slot.size - padding) = ground (arith, f.2) in
      ap (λ k. sub k padding) back.1 ∙ fits

  carve_large :
      0 < slot.size - padding - size
      → size ≤ self.stats.free_bytes
      → self.stats.alloc_count + 1 < usize_values
      → Carved self size
          ((pre ++ piece slot.base padding)
            ++ region (base + size) (slot.size - padding - size) ∷ post)
          (carve size (link_after head pre) slot.base base self m)
  carve_large h free count =
      let remainder = slot.size - padding - size in
      let tail =
        tail-IsBlock block_align slot size align base padding slot-IsBlock f s whole aligns h in
      let at_least : leb min_block_size remainder ≡ true = ground (arith, h, tail.size_aligned) in
      let gap : sub base slot.base ≡ done padding = ground (arith, f.0) in
      let left : sub (slot.size - padding) size ≡ done remainder = ground (arith, f.2) in
      let end : add base size ≡ done (base + size) = ground (arith, tail.bounded) in
      let consumed : sub (slot.size - padding) remainder ≡ done size = ground (arith, f.2) in
      let k = keep_padding-Kept self m pre post slot l t padding in
      let next = (m slot.base).next in
      let (link, u, n) = keep_padding padding (link_after head pre) slot.base self m in
      let ordered : Ordered block_align 0
          ((pre ++ piece slot.base padding) ++ region (base + size) remainder ∷ post) =
        subst (λ q. Ordered block_align 0 ((pre ++ piece slot.base padding) ++ (q ++ post)))
          (piece-some (base + size) remainder h)
          (subst (Ordered block_align 0) (regroup (piece (base + size) remainder))
            (taken-Ordered block_align pre post slot size align base padding t f s whole aligns)) in
      let low =
        Ordered-low 0 (pre ++ piece slot.base padding) post (region (base + size) remainder)
          ordered in
      let high : All (λ x. base + size < x.base) post =
        All-mono (λ x. base + size + remainder + 1 ≤ x.base) (λ x. base + size < x.base) post
          (λ x g. omega arith)
          (Ordered-above block_align (base + size + remainder + 1) _ post (omega arith) (
            Ordered-right block_align 0 (pre ++ piece slot.base padding) post
              (region (base + size) remainder) ordered)) in
      let (lists, stats) =
        subst
          (λ (behind : Link).
            let (v, w) = keep_remainder remainder (base + size) next behind u n in
            Lists v w ((pre ++ piece slot.base padding) ++ region (base + size) remainder ∷ post)
            × (v.stats ≡ u.stats))
          (sym k.behind)
          (keep_remainder-Lists u n (pre ++ piece slot.base padding) post next (base + size)
            remainder k.before k.after (Ordered-left 0 (pre ++ piece slot.base padding) _ ordered)
            low high) in
      let runs =
        carve-large size (link_after head pre) slot.base base self m padding (slot.size - padding)
          remainder (base + size) gap rest_done left at_least end consumed in
      let (v, w) = keep_remainder remainder (base + size) next link u n in
      (
        record v { stats = taken self.stats size },
        w,
        runs ∙ counted-done size self v w (stats ∙ k.keeps) free count,
        lists,
        refl,
      )

  carve_whole :
      slot.size - padding - size ≡ 0
      → size ≤ self.stats.free_bytes
      → self.stats.alloc_count + 1 < usize_values
      → Carved self size
          ((pre ++ piece slot.base padding) ++ post)
          (carve size (link_after head pre) slot.base base self m)
  carve_whole h free count =
      let small : leb min_block_size (slot.size - padding - size) ≡ false = ground (arith, h) in
      let gap : sub base slot.base ≡ done padding = ground (arith, f.0) in
      let left : sub (slot.size - padding) size ≡ done (slot.size - padding - size) =
        ground (arith, f.2) in
      let consumed : sub (slot.size - padding) 0 ≡ done size = ground (arith, f.2, h) in
      let k = keep_padding-Kept self m pre post slot l t padding in
      let (link, u, n) = keep_padding padding (link_after head pre) slot.base self m in
      let runs =
        carve-whole size (link_after head pre) slot.base base self m padding (slot.size - padding)
          (slot.size - padding - size) gap rest_done left small consumed in
      (
        record u { stats = taken self.stats size },
        n,
        runs ∙ counted-done size self u n k.keeps free count,
        Seg-append n u.head (m slot.base).next none (pre ++ piece slot.base padding) post k.before
            k.after,
        refl,
      )

  pub carve-Carved :
      size ≤ self.stats.free_bytes
      → self.stats.alloc_count + 1 < usize_values
      → Carved self size
          (pre ++ (pieces slot size base padding ++ post))
          (carve size (link_after head pre) slot.base base self m)
  carve-Carved free count = elim (Bool-cases (ltb 0 (slot.size - padding - size))) [
    | inl e ↦
        rw (e, regroup (region (base + size) (slot.size - padding - size) ∷ []))
          (carve_large (ltb→lt 0 (slot.size - padding - size) e) free count)
    | inr e ↦ rw (e, regroup []) (carve_whole (ground (arith, e)) free count)
  ]
