-- ===== src/Mm/Heap/Place.antt =====
-- The free list after `insert_and_coalesce`.
use mathlib.Core.List.{append_assoc}
use avent.Base.{
  ℕ, ◌+◌, ◌<◌, Option, none, some, Outcome, done, panic, List, [], ◌∷◌, ◌++◌, length, length-append,
  All, All-mono, ◌≡◌, ◌≢◌, refl, sym, ap, subst, ◌∙◌, arith, ◌>>=◌, ◌⊎◌, inl, inr,
}
use avent.Mm.Vm.Region.{Region}
use avent.Mm.Blocks.{IsBlock, Ordered, Disjoint, glue, place}
use avent.Mm.Blocks.Pieces.{Disjoint-below, Disjoint-above, Ordered-right}
use avent.Mm.Blocks.Weld.{
  SplitAt, split_at, All-left, All-right, weld, snoc, weld-snoc, glue-IsBlock, place-weld,
  Ordered-IsBlock,
}
use avent.Mm.Heap.{
  free_block, Headers, put, HeapAllocator, head, next_of, merge_left, merge_right,
  insert_and_coalesce, block_align,
}
use avent.Mm.Heap.Chain.{
  Seg, Misses, Seg-put, Seg-same, Seg-append, Seg-split, link_after, prev_after, seek-done,
}
use avent.Mm.Heap.Insert.{
  merge_right-glue, merge_left-glue, Disjoint-Misses, glue-Misses, StartsAt-Seg, link_after-snoc,
  prev_after-snoc, placed, insert-placed,
}

-- The heap holds the list `xs` of free blocks.
abbrev pub Lists : HeapAllocator → Headers → List Region → Type 0
Lists self memory xs = Seg memory self.head xs none

-- A call returns, and leaves the list `xs` and the statistics.
abbrev Leaves : HeapAllocator → List Region → Outcome (HeapAllocator × Headers) → Type 0
Leaves self xs o =
    (t : HeapAllocator) × (n : Headers) × (o ≡ done (t, n)) × Lists t n xs × (t.stats ≡ self.stats)

-- Two steps in a row, and a third after them.
bind_join :
    {A B C : Type 0} (x : Outcome A) (f : A → Outcome B) (g : B → Outcome C) (b : B)
    → (x >>= f) ≡ done b
    → (x >>= λ a. f a >>= g) ≡ g b
bind_join panic f g b e = absurd (ground (arith, e))
bind_join (done a) f g b e = rw e refl

-- Headers that are the same but at `a` hold the same lists that miss `a`.
Seg-kept :
    (m n : Headers) (a : ℕ) (from to : Option ℕ) (xs : List Region)
    → ((b : ℕ) → b ≢ a → n b ≡ m b)
    → Misses a xs
    → Seg m from xs to
    → Seg n from xs to
Seg-kept m n a from to xs same apart s =
    Seg-same m n from to xs
      (All-mono (λ x. a ≢ x.base) (λ x. n x.base ≡ m x.base) xs
        (λ x h. same x.base (λ e. h (sym e))) apart)
      s

-- The two merges, for a block `r` that is linked in behind `y`.
both_merges :
    (m : Headers) (from mid : Option ℕ) (ys : List Region) (y r : Region) (post : List Region)
    → IsBlock block_align y
    → IsBlock block_align r
    → All (IsBlock block_align) post
    → y.base ≢ r.base
    → Misses y.base ys
    → Misses r.base ys
    → Misses y.base post
    → Misses r.base post
    → m r.base ≡ free_block r.size mid
    → m y.base ≡ free_block y.size (some r.base)
    → Seg m from ys (some y.base)
    → Seg m mid post none
    → (n : Headers) × ((merge_right m r.base r.size mid >>= λ m'.
          merge_left m' (some y.base) r.base)
        ≡ done n)
      × Seg n from (ys ++ glue y (glue r post)) none
both_merges m from mid ys y r post py pr q far own away clear apart at_r at_y front back =
    let (m1, e1, t1, same1) = merge_right-glue m r mid post pr q apart at_r back in
    let (m2, e2, t2, same2) =
      merge_left-glue m1 y r.base (glue r post) py (glue-IsBlock block_align r post pr q)
        (glue-Misses y.base r post far clear) (same1 y.base far ∙ at_y) t1 in
    let front1 = Seg-kept m m1 r.base from (some y.base) ys same1 away front in
    let front2 = Seg-kept m1 m2 y.base from (some y.base) ys same2 own front1 in
    (
      m2,
      rw (e1, e2) refl,
      Seg-append m2 from (some y.base) none ys (glue y (glue r post)) front2 t2,
    )

module _ (self : HeapAllocator) (m : Headers) (r : Region) (mid : Option ℕ) (post : List Region)
    (p : IsBlock block_align r) (q : All (IsBlock block_align) post) (apart : Misses r.base post)
    (s : Seg m mid post none) where
  placed_first : Leaves self (glue r post) (placed self m r head none mid)
  unfolding merge_left
  placed_first =
      let m1 = put m r.base (free_block r.size mid) in
      let at : m1 r.base ≡ free_block r.size mid = ground arith in
      let (n, e, t, same) =
        merge_right-glue m1 r mid post p q apart at (Seg-put m r.base _ mid none post apart s) in
      (record self { head = some r.base }, n, rw e refl, t, refl)

  placed_behind :
      (ys : List Region) (y : Region)
      → IsBlock block_align y
      → Misses y.base ys
      → Misses r.base (ys ++ y ∷ [])
      → Misses y.base post
      → Seg m self.head (ys ++ y ∷ []) mid
      → Leaves self
          (ys ++ glue y (glue r post))
          (placed self m r (next_of y.base) (some y.base) mid)
  placed_behind ys y py own away clear before =
      let away_y = All-right (λ x. r.base ≢ x.base) ys (y ∷ []) away in
      let away_ys = All-left (λ x. r.base ≢ x.base) ys (y ∷ []) away in
      let (mid_y, l, at_mid) = Seg-split m self.head mid ys (y ∷ []) before in
      let m1 = put m r.base (free_block r.size mid) in
      let m2 = put m1 y.base (free_block (m1 y.base).size (some r.base)) in
      let at_r : m2 r.base ≡ free_block r.size mid = ground (arith, away_y.0) in
      let at_y : m2 y.base ≡ free_block y.size (some r.base) = ground (arith, away_y.0, at_mid.1) in
      let keep =
        λ (from to : Option ℕ) (xs : List Region) (a : Misses y.base xs) (b : Misses r.base xs)
            (t : Seg m from xs to).
          Seg-put m1 y.base (free_block (m1 y.base).size (some r.base)) from to xs a
            (Seg-put m r.base (free_block r.size mid) from to xs b t) in
      let front = subst (λ (o : Option ℕ). Seg m self.head ys o) at_mid.0 l in
      let (n, e, t) =
        both_merges m2 self.head mid ys y r post py p q (λ h. away_y.0 (sym h)) own away_ys clear
          apart at_r at_y (keep self.head (some y.base) ys own away_ys front)
          (keep mid none post clear apart s) in
      (
        self,
        n,
        bind_join (merge_right m2 r.base r.size mid) (λ m'. merge_left m' (some y.base) r.base)
            (λ m'. done (self, m')) n e,
        t,
        refl,
      )

module _ (self : HeapAllocator) (m : Headers) (r : Region) (mid : Option ℕ)
    (p : IsBlock block_align r) where
  placed_last :
      (ys : List Region) (y : Region) (post : List Region)
      → Ordered block_align 0 (ys ++ y ∷ post)
      → Misses r.base (ys ++ y ∷ [])
      → Misses r.base post
      → Seg m self.head (ys ++ y ∷ []) mid
      → Seg m mid post none
      → Leaves self
          (ys ++ glue y (glue r post))
          (placed self m r (next_of y.base) (some y.base) mid)
  placed_last ys y post t away apart before behind =
      let blocks = Ordered-IsBlock block_align 0 (ys ++ y ∷ post) t in
      let (py, q) = All-right (IsBlock block_align) ys (y ∷ post) blocks in
      let pys = All-left (IsBlock block_align) ys (y ∷ post) blocks in
      let below = Disjoint-below block_align y y 0 ys post (omega arith) t in
      let above =
        Disjoint-above block_align y (y.base + y.size + 1) post (omega arith)
          (Ordered-right block_align 0 ys post y t) in
      placed_behind self m r mid post p q apart behind ys y py
        (Disjoint-Misses y ys py.filled pys below) away (Disjoint-Misses y post py.filled q above)
        before

  placed-weld :
      (pre post : List Region)
      → (pre ≡ []) ⊎ ((ys : List Region) × (y : Region) × (pre ≡ ys ++ y ∷ []))
      → Ordered block_align 0 (pre ++ post)
      → Misses r.base pre
      → Misses r.base post
      → Seg m self.head pre mid
      → Seg m mid post none
      → Leaves self
          (weld pre (glue r post))
          (placed self m r (link_after head pre) (prev_after none pre) mid)
  unfolding weld
  placed-weld pre post (inl e) t away apart before behind =
      subst
        (λ pre.
          Leaves self (weld pre (glue r post))
            (placed self m r (link_after head pre) (prev_after none pre) mid))
        (sym e)
        (placed_first self m r mid post p
          (Ordered-IsBlock block_align 0 post (subst (λ l. Ordered block_align 0 (l ++ post)) e t))
          apart behind)
  placed-weld pre post (inr (ys, y, e)) t away apart before behind =
      let ordered = subst (λ l. Ordered block_align 0 (l ++ post)) e t in
      let ends =
        placed_last ys y post
          (subst (Ordered block_align 0) (append_assoc ys (y ∷ []) post) ordered)
          (subst (Misses r.base) e away) apart (subst (λ l. Seg m self.head l mid) e before)
          behind in
      subst
        (λ pre.
          Leaves self (weld pre (glue r post))
            (placed self m r (link_after head pre) (prev_after none pre) mid))
        (sym e)
        (rw (weld-snoc ys (glue r post) y, link_after-snoc head ys y, prev_after-snoc none ys y)
          ends)

-- `insert_and_coalesce` puts the block in its place in the order.
pub insert_and_coalesce-place :
    (fuel : ℕ) (self : HeapAllocator) (m : Headers) (r : Region) (xs : List Region)
    → length xs < fuel
    → Lists self m xs
    → Ordered block_align 0 xs
    → IsBlock block_align r
    → Disjoint r xs
    → Leaves self (place r xs) (insert_and_coalesce fuel self m r.base r.size)
insert_and_coalesce-place fuel self m r xs f l t p d = at_split (split_at block_align r.base 0 xs t)
  where
    Goal : Type 0
    Goal = Leaves self (place r xs) (insert_and_coalesce fuel self m r.base r.size)

    at_split : SplitAt r.base xs → Goal
    at_split cut =
        let whole = cut.whole in
        let ordered = subst (Ordered block_align 0) whole t in
        let blocks = Ordered-IsBlock block_align 0 (cut.pre ++ cut.post) ordered in
        let (mid, before, behind) =
          Seg-split m self.head none cut.pre cut.post (subst (Lists self m) whole l) in
        let misses =
          Disjoint-Misses r (cut.pre ++ cut.post) p.filled blocks (subst (Disjoint r) whole d) in
        let long : length cut.pre < fuel =
          omega (arith, f, ap length whole, length-append cut.pre cut.post) in
        let (found, reads) =
          seek-done fuel r.base self m head none mid cut.pre long before cut.below
            (StartsAt-Seg m r.base mid cut.post behind cut.above) in
        let runs =
          insert-placed fuel self m r (link_after head cut.pre) (prev_after none cut.pre) mid found
            reads in
        let order =
          ap (place r) whole
          ∙ place-weld block_align 0 r cut.pre cut.post ordered cut.below cut.above in
        rw (runs, order)
          (placed-weld self m r mid p cut.pre cut.post (snoc cut.pre) ordered
            (All-left (λ x. r.base ≢ x.base) cut.pre cut.post misses)
            (All-right (λ x. r.base ≢ x.base) cut.pre cut.post misses) before behind)
