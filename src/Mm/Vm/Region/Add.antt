-- ===== src/Mm/Vm/Region/Add.antt =====
-- `add_region` puts a region in its place among the free ones.
use mathlib.Core.List.{append_assoc}
use avent.Base.{
  ℕ, ◌+◌, ◌-◌, ◌%◌, ◌<◌, true, false, ◌||◌, Outcome, done, ltb, ◌==◌, if◌then◌else◌, List, [], ◌∷◌,
  ◌++◌, length, length-append, All, ◌≡◌, refl, sym, ap, subst, ◌∙◌, arith, inl, inr, ◌>>=◌,
}
use avent.Mm.Addr.{page_size}
use avent.Mm.Vm.Region.{
  Region, RegionAllocator, capacity, Result, ok, err, tracker_full, insert_at, merge_pair,
  try_merge_at, partition_point, add_region,
}
use avent.Mm.Blocks.Weld.{
  Ordered-IsBlock, All-right, All-left, weld, snoc, weld-snoc, glue-head, glue-IsBlock, place-weld,
}
use avent.Mm.Vm.Region.View.{Shows, insert_at-Shows, insert_at_full}
use avent.Mm.Vm.Region.Spec.{
  IsRegion, Tidy, Disjoint, holds, covers, glue, place, place-Ordered, place-covers,
}
use avent.Mm.Vm.Region.Merge.{merge_pair-Shows, is_aligned-eq-page}
use avent.Mm.Vm.Region.Weld.{partition_point-split}

-- The merge with the region on the right.
merge_right :
    (self : RegionAllocator) (pre post : List Region) (r : Region)
    → IsRegion r
    → All IsRegion post
    → Shows self (pre ++ r ∷ post)
    → (t : RegionAllocator) × ((if ltb (length pre + 1) self.len
          then merge_pair self (length pre)
          else done self)
        ≡ done t)
      × Shows t (pre ++ glue r post)
merge_right self pre [] r p q v =
    let last : ltb (length pre + 1) self.len ≡ false =
      ground (arith, v.counted, length-append pre (r ∷ [])) in
    (self, rw last refl, v)
merge_right self pre (b ∷ bs) r p q v =
    let more : ltb (length pre + 1) self.len ≡ true =
      ground (arith, v.counted, length-append pre (r ∷ b ∷ bs)) in
    let (t, out, w) = merge_pair-Shows self pre bs r b p q.0 v in (t, rw more out, w)

-- The merge of a region with the last one before it.
abbrev MergesLeft : RegionAllocator → List Region → List Region → Type 0
unfolding weld
MergesLeft self l pre =
    All IsRegion pre
    → Shows self (pre ++ l)
    → (t : RegionAllocator) × ((if ltb 0 (length pre)
          then merge_pair self (length pre - 1)
          else done self)
        ≡ done t)
      × Shows t (weld pre l)

merge_left_last :
    (self : RegionAllocator) (pre gs : List Region) (y g : Region)
    → IsRegion g
    → MergesLeft self (g ∷ gs) (pre ++ y ∷ [])
unfolding MergesLeft
merge_left_last self pre gs y g q p v =
    let size : length (pre ++ y ∷ []) ≡ length pre + 1 = length-append pre (y ∷ []) in
    let some_left : ltb 0 (length pre + 1) ≡ true = ground arith in
    let before : length pre + 1 - 1 ≡ length pre = omega arith in
    let split = append_assoc pre (y ∷ []) (g ∷ gs) in
    let w : Shows self (pre ++ y ∷ g ∷ gs) = subst (λ l. Shows self l) split v in
    let (t, out, z) = merge_pair-Shows self pre gs y g (All-right IsRegion pre (y ∷ []) p).0 q w in
    (t, rw (size, some_left, before) out, subst (λ l. Shows t l) (sym (weld-snoc pre (g ∷ gs) y)) z)

merge_left :
    (self : RegionAllocator) (pre gs : List Region) (g : Region)
    → IsRegion g
    → MergesLeft self (g ∷ gs) pre
unfolding weld MergesLeft
merge_left self pre gs g q = elim (snoc pre) [
  | inl empty ↦ subst (MergesLeft self (g ∷ gs)) (sym empty) (λ p v. (self, refl, v))
  | inr (ys, y, s) ↦ subst (MergesLeft self (g ∷ gs)) (sym s) (merge_left_last self ys gs y g q)
]

try_merge_at-Shows :
    (self : RegionAllocator) (pre post : List Region) (r : Region)
    → All IsRegion pre
    → IsRegion r
    → All IsRegion post
    → Shows self (pre ++ r ∷ post)
    → (t : RegionAllocator) × (try_merge_at self (length pre) ≡ done t)
      × Shows t (weld pre (glue r post))
unfolding try_merge_at MergesLeft
try_merge_at-Shows self pre post r a p q v =
    let (t, out, w) = merge_right self pre post r p q v in
    let (g, gs, e, b) = glue-head r post in
    let good : All IsRegion (g ∷ gs) = subst (All IsRegion) e (glue-IsBlock page_size r post p q) in
    let left : MergesLeft t (glue r post) pre =
      subst (λ l. MergesLeft t l pre) (sym e) (merge_left t pre gs g good.0) in
    let (u, out', w') = left a w in (u, rw out out', w')

-- `add_region` once the place is known.
abbrev added_at : RegionAllocator → Region → ℕ → Outcome (RegionAllocator × Result (Unit {0}))
added_at self r n = insert_at self n r >>= λ x. elim x.1 [
  | err e ↦ done (x.0, err e)
  | ok _ ↦ try_merge_at x.0 n >>= λ t. done (t, ok tt)
]

add_region-valid :
    (self : RegionAllocator) (r : Region) (n : ℕ)
    → IsRegion r
    → partition_point self.slots r.base 0 self.len ≡ n
    → add_region self r ≡ added_at self r n
unfolding add_region
add_region-valid self r n p at =
    let b : (r.base % page_size == 0) ≡ true = rw p.base_aligned refl in
    let s : (r.size % page_size == 0) ≡ true = rw p.size_aligned refl in
    let known : add_region self r ≡ added_at self r (partition_point self.slots r.base 0 self.len) =
      rw (is_aligned-eq-page r.base, b, s) refl in
    known ∙ ap (added_at self r) at

module _ (self : RegionAllocator) (xs : List Region) (r : Region) (shows : Shows self xs)
    (tidy : Tidy 0 xs) (valid : IsRegion r) where
  -- With the free regions in order and apart, and a slot free, a region of whole pages that is apart
  -- from them is added: the slots then hold `place r xs`, in which it is merged with the regions it
  -- meets; they are in order and apart again, and the free addresses are those from before and its own.
  pub add_region-place :
      Disjoint r xs
      → length xs < capacity
      → (t : RegionAllocator) × (add_region self r ≡ done (t, ok tt))
        × Shows t (place r xs)
        × Tidy 0 (place r xs)
        × ((a : ℕ) → covers (place r xs) a ≡ holds r a || covers xs a)
  add_region-place apart room =
      let (s, p) = partition_point-split self.slots r.base 0 0 xs shows.lists tidy in
      let regions = subst (All IsRegion) s.whole (Ordered-IsBlock page_size 0 xs tidy) in
      let shows' : Shows self (s.pre ++ s.post) = subst (Shows self) s.whole shows in
      let room' : length (s.pre ++ s.post) < capacity =
        subst (λ l. length l < capacity) s.whole room in
      let (t, out, v) = insert_at-Shows self s.pre s.post r shows' room' in
      let (u, out', v') =
        try_merge_at-Shows t s.pre s.post r (All-left IsRegion s.pre s.post regions) valid
          (All-right IsRegion s.pre s.post regions) v in
      let same : place r xs ≡ weld s.pre (glue r s.post) =
        ap (place r) s.whole
        ∙ place-weld page_size 0 r s.pre s.post (subst (Tidy 0) s.whole tidy) s.below s.above in
      let at =
        subst (λ k. partition_point self.slots r.base 0 k ≡ 0 + length s.pre) (sym shows.counted)
          p in
      let done_so = add_region-valid self r (length s.pre) valid (at ∙ omega arith) in
      (
        u,
        done_so ∙ rw (out, out') refl,
        subst (Shows u) (sym same) v',
        place-Ordered page_size 0 r xs (omega arith) valid apart tidy,
        λ a. place-covers page_size 0 r xs a valid apart tidy,
      )

  -- With the free regions in order and apart and all slots taken, `add_region` of whole pages gives `TrackerFull` and changes nothing, also where the region
  -- would merge with one of them.
  pub add_region_full : length xs ≡ capacity → add_region self r ≡ done (self, err tracker_full)
  add_region_full full =
      let (s, p) = partition_point-split self.slots r.base 0 0 xs shows.lists tidy in
      let shows' : Shows self (s.pre ++ s.post) = subst (Shows self) s.whole shows in
      let full' : length (s.pre ++ s.post) ≡ capacity =
        subst (λ l. length l ≡ capacity) s.whole full in
      let at =
        subst (λ k. partition_point self.slots r.base 0 k ≡ 0 + length s.pre) (sym shows.counted)
          p in
      let done_so = add_region-valid self r (length s.pre) valid (at ∙ omega arith) in
      done_so ∙ rw (insert_at_full self s.pre s.post r shows' full') refl
