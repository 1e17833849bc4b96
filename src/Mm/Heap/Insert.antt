-- ===== src/Mm/Heap/Insert.antt =====
-- `insert_and_coalesce` puts a block in its place in the free list.
use avent.Base.Words.{add}
use avent.Base.{
  ℕ, ◌+◌, ◌≤◌, ◌<◌, Option, none, some, Outcome, done, ◌==◌, ==_iff, List, [], ◌∷◌, ◌++◌, All, ◌≡◌,
  ◌≢◌, refl, sym, ap, subst, ◌∙◌, arith, ◌>>=◌, inl, inr, Bool-cases,
}
use avent.Mm.Vm.Region.{Region}
use avent.Mm.Blocks.{IsBlock, Disjoint, glue}
use avent.Mm.Heap.{
  FreeBlock, free_block, Headers, put, HeapAllocator, Link, head, next_of, read_link, write_link,
  seek, merge_right, merge_left, insert_and_coalesce, block_align,
}
use avent.Mm.Heap.Chain.{Seg, Misses, Seg-put, link_after, prev_after, StartsAt}

-- A block whose header is in memory, merged with the list behind it.
pub merge_right-glue :
    (m : Headers) (r : Region) (next : Option ℕ) (post : List Region)
    → IsBlock block_align r
    → All (IsBlock block_align) post
    → Misses r.base post
    → m r.base ≡ free_block r.size next
    → Seg m next post none
    → (n : Headers) × (merge_right m r.base r.size next ≡ done n)
      × Seg n (some r.base) (glue r post) none
      × ((a : ℕ) → a ≢ r.base → n a ≡ m a)
unfolding merge_right
merge_right-glue m r next [] p q apart at s =
    (m, rw s refl, (refl, ap FreeBlock.size at, ap FreeBlock.next at ∙ s), λ a h. refl)
merge_right-glue m r next (x ∷ post) p q apart at s =
    let end_fits : add r.base r.size ≡ done (r.base + r.size) = ground (arith, p.bounded) in
    elim (Bool-cases (r.base + r.size == x.base)) [
      | inl e ↦
          let meets : r.base + r.size ≡ x.base = (==_iff (r.base + r.size) x.base).0 e in
          let sum : add r.size (m x.base).size ≡ done (r.size + x.size) =
            ground (arith, s.1, q.0.bounded) in
          let n = put m r.base (free_block (r.size + x.size) (m x.base).next) in
          let at_n : n r.base ≡ free_block (r.size + x.size) (m x.base).next = ground arith in
          rw e (
            n,
            rw (merge_right, s.0, end_fits, e, sum) refl,
            (
              refl,
              ap FreeBlock.size at_n,
              subst (λ (o : Option ℕ). Seg n o post none) (ap FreeBlock.next (sym at_n))
                  (Seg-put m r.base (free_block (r.size + x.size) (m x.base).next) (m x.base).next
                    none post apart.1 s.2),
            ),
            λ a h. ground arith,
          )
      | inr e ↦ rw e (
        m,
        rw (merge_right, s.0, end_fits, e) refl,
        (refl, ap FreeBlock.size at, (ap FreeBlock.next at ∙ s.0, s.1, s.2)),
        λ a h. refl,
      )
    ]

pub merge_left-glue :
    (m : Headers) (y : Region) (b : ℕ) (l : List Region)
    → IsBlock block_align y
    → All (IsBlock block_align) l
    → Misses y.base l
    → m y.base ≡ free_block y.size (some b)
    → Seg m (some b) l none
    → (n : Headers) × (merge_left m (some y.base) b ≡ done n)
      × Seg n (some y.base) (glue y l) none
      × ((a : ℕ) → a ≢ y.base → n a ≡ m a)
unfolding merge_left merge_right
merge_left-glue m y b l p q apart at s =
    let (n, e, t, same) = merge_right-glue m y (some b) l p q apart at s in
    (n, rw (merge_left, at) e, t, same)

pub Disjoint-Misses :
    (r : Region) (xs : List Region)
    → 0 < r.size
    → All (IsBlock block_align) xs
    → Disjoint r xs
    → Misses r.base xs
Disjoint-Misses r [] p q d = tt
Disjoint-Misses r (x ∷ xs) p q d = (
  (λ e. elim (d.0) [ inl a ↦ omega (arith, a, e, p) | inr a ↦ omega (arith, a, e, q.0.filled) ]),
  Disjoint-Misses r xs p q.1 d.1,
)

pub glue-Misses :
    (a : ℕ) (r : Region) (post : List Region) → a ≢ r.base → Misses a post → Misses a (glue r post)
glue-Misses a r [] h k = (h, tt)
glue-Misses a r (x ∷ post) h k = ground arith

pub StartsAt-Seg :
    (m : Headers) (b : ℕ) (mid : Option ℕ) (post : List Region)
    → Seg m mid post none
    → All (λ x. b ≤ x.base) post
    → StartsAt b mid
StartsAt-Seg m b mid [] s h = rw s tt
StartsAt-Seg m b mid (x ∷ post) s h = rw s.0 h.0

pub link_after-snoc :
    (link : Link) (ys : List Region) (y : Region) → link_after link (ys ++ y ∷ []) ≡ next_of y.base
link_after-snoc link [] y = refl
link_after-snoc link (x ∷ ys) y = link_after-snoc (next_of x.base) ys y

pub prev_after-snoc :
    (prev : Option ℕ) (ys : List Region) (y : Region) → prev_after prev (ys ++ y ∷ []) ≡ some y.base
prev_after-snoc prev [] y = refl
prev_after-snoc prev (x ∷ ys) y = prev_after-snoc (some x.base) ys y

-- `insert_and_coalesce` once the place is found.
abbrev pub placed :
    HeapAllocator
    → Headers
    → Region
    → Link
    → Option ℕ
    → Option ℕ
    → Outcome (HeapAllocator × Headers)
placed self memory r link prev next_block =
    let memory = put memory r.base (free_block r.size next_block) in
    let (self, memory) = write_link link (some r.base) self memory in
    merge_right memory r.base r.size next_block >>= λ memory.
    merge_left memory prev r.base >>= λ memory. done (self, memory)

pub insert-placed :
    (fuel : ℕ) (self : HeapAllocator) (m : Headers) (r : Region) (link : Link) (prev mid : Option ℕ)
    → seek fuel r.base self m head none ≡ done (link, prev)
    → read_link link self m ≡ mid
    → insert_and_coalesce fuel self m r.base r.size ≡ placed self m r link prev mid
unfolding insert_and_coalesce
insert-placed fuel self m r link prev mid e f =
    rw (insert_and_coalesce, e) (ap (placed self m r link prev) f)
