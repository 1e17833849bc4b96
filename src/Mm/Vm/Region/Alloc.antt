-- ===== src/Mm/Vm/Region/Alloc.antt =====
-- What `alloc` promises: an aligned block out of the free addresses, or the error that says that
-- there is none.
use avent.Base.Words.{usize_values, is_power_of_two}
use avent.Base.{
  ℕ, ◌+◌, ◌-◌, ◌%◌, ◌<◌, true, false, ◌||◌, Option, none, some, done, ltb, ◌==◌, List, ◌∷◌, ◌++◌,
  length, length-append, ◌≤◌, All, ◌≡◌, refl, sym, ap, subst, ◌∙◌, arith, ◌⊎◌, inl, inr, Bool-cases,
  ltb→lt, ltb→le,
}
use avent.Mm.Addr.{page_size}
use avent.Mm.Addr.Virt.{VirtAddr}
use avent.Mm.Vm.Region.{
  Region, RegionAllocator, ok, err, tracker_full, out_of_virtual_memory, region, capacity,
  find_slot, carve, alloc, free,
}
use avent.Mm.Blocks.Weld.{Ordered-IsBlock, All-right}
use avent.Mm.Vm.Region.View.{Shows}
use avent.Mm.Vm.Region.Spec.{place, IsRegion, Tidy, Disjoint, holds, covers}
use avent.Mm.Vm.Region.Add.{add_region_full, add_region-place}
use avent.Mm.Vm.Region.Fit.{Found, find_slot-Found}
use avent.Mm.Blocks.Pieces.{HasNoRoom, pieces, piece, length-piece}
use avent.Mm.Blocks.Taken.{taken-IsBlock, taken-Ordered, taken-Disjoint, taken-covers}
use avent.Mm.Vm.Region.Carve.{carve-Shows}

-- The allocator with the block taken out.
pub record Allocated (self : RegionAllocator) (xs : List Region) (size align : ℕ) : Type 0 where
  pub after : RegionAllocator
  pub left : List Region
  pub base : VirtAddr
  pub out : alloc self size align ≡ done (after, ok (region base size))
  pub aligned : base % align ≡ 0
  pub valid : IsRegion (region base size)
  pub shows : Shows after left
  pub tidy : Tidy 0 left
  pub apart : Disjoint (region base size) left
  pub taken : (a : ℕ) → covers xs a ≡ (holds (region base size) a || covers left a)
  pub grows : length left ≤ length xs + 1

-- At most two regions in the place of one.
length-splice :
    (pre post : List Region) (slot : Region) (ps : List Region)
    → length ps ≤ 2
    → length (pre ++ (ps ++ post)) ≤ length (pre ++ slot ∷ post) + 1
length-splice pre post slot ps h = omega (
  arith,
  length-append pre (ps ++ post),
  length-append ps post,
  length-append pre (slot ∷ post),
  h,
)

length-pieces : (slot : Region) (size base padding : ℕ) → length (pieces slot size base padding) ≤ 2
length-pieces slot size base padding =
    let first = piece slot.base padding in
    let second = piece (base + size) (slot.size - padding - size) in
    ground (
      arith,
      length-append first second,
      length-piece slot.base padding,
      length-piece (base + size) (slot.size - padding - size),
    )

module _ (self : RegionAllocator) (xs : List Region) (size align : ℕ) (shows : Shows self xs)
    (tidy : Tidy 0 xs) (p : is_power_of_two align ≡ true) (s : 0 < size)
    (small : size < usize_values) (pages : size % page_size ≡ 0)
    (aligns : align % page_size ≡ 0) where
  -- `alloc` of valid arguments goes on to the search.
  pub alloc-searches :
      (o : Option (ℕ × VirtAddr × ℕ))
      → find_slot self.slots size align 0 self.len ≡ done o
      → alloc self size align ≡ (elim o [
        | none ↦ done (self, err out_of_virtual_memory)
        | some (slot_idx, aligned_base, padding) ↦ carve self size slot_idx aligned_base padding
      ])
  unfolding alloc
  alloc-searches o e =
      let full : (size == 0) ≡ false = ground (arith, s) in
      let whole : (size % page_size == 0) ≡ true = rw pages refl in
      let even : (align % page_size == 0) ≡ true = rw aligns refl in
      rw (full, whole, p, even, e) refl

  pub taken_from :
      (f : Found size align p s small xs)
      → (0 < f.padding → f.padding + size < f.slot.size → length xs < capacity)
      → find_slot self.slots size align 0 self.len ≡ done (some (length f.pre, f.base, f.padding))
      → Allocated self xs size align
  taken_from f room e =
      let block = region f.base size in
      let tidy' : Tidy 0 (f.pre ++ f.slot ∷ f.post) = subst (Tidy 0) f.whole tidy in
      let regions : All IsRegion (f.slot ∷ f.post) =
        All-right IsRegion f.pre (f.slot ∷ f.post) (Ordered-IsBlock page_size 0 _ tidy') in
      let ps = pieces f.slot size f.base f.padding in
      let (t, out, v) =
        carve-Shows f.slot size align f.base f.padding regions.0 f.fits s pages aligns self f.pre
          f.post (subst (Shows self) f.whole shows)
          (λ h k. subst (λ l. length l < capacity) f.whole (room h k)) in
      record {
        after = t;
        left = f.pre ++ (ps ++ f.post);
        base = f.base;
        out = alloc-searches (some (length f.pre, f.base, f.padding)) e ∙ out;
        aligned = f.fits.1;
        valid =
            taken-IsBlock page_size f.pre f.post f.slot size align f.base f.padding tidy' f.fits s
              pages aligns;
        shows = v;
        tidy =
            taken-Ordered page_size f.pre f.post f.slot size align f.base f.padding tidy' f.fits s
              pages aligns;
        apart =
            taken-Disjoint page_size f.pre f.post f.slot size align f.base f.padding tidy' f.fits s
              pages aligns;
        taken = λ a.
            ap (λ l. covers l a) f.whole
            ∙ taken-covers page_size f.pre f.post f.slot size align f.base f.padding tidy' f.fits s
                pages aligns a;
        grows =
            rw f.whole
              (length-splice f.pre f.post f.slot ps (length-pieces f.slot size f.base f.padding));
      }

  -- With the free regions in order and apart and a slot free, `alloc` of a size in whole pages and an
  -- alignment that is a power of two in whole pages returns: either an aligned block, which is taken
  -- out of the free addresses, nothing else is, and the regions left are in order, apart, and apart from it; or
  -- `OutOfVirtualMemory`, nothing changed, and no free region has room for an aligned block.
  pub alloc-Allocated :
      length xs < capacity
      → Allocated self xs size align
        ⊎ ((alloc self size align ≡ done (self, err out_of_virtual_memory))
            × All (HasNoRoom size align) xs)
  alloc-Allocated room =
      elim (find_slot-Found size align p s small self.slots 0 xs shows.lists
        (Ordered-IsBlock page_size 0 xs tidy)) [
          | inl (e, h) ↦ inr (alloc-searches none (rw shows.counted e), h)
          | inr (f, e) ↦
              let at : 0 + length f.pre ≡ length f.pre = omega arith in
              inl (taken_from f (λ h k. room) (rw shows.counted (rw at at e)))
        ]

-- What it is to have the block back: `free` returns `Ok`, the regions are in order and apart, and the
-- free addresses are those of `xs`.
abbrev pub GivenBack : RegionAllocator → List Region → Region → Type 0
GivenBack self xs block =
    (t : RegionAllocator) × (ys : List Region) × (free self block ≡ done (t, ok tt))
    × Shows t ys
    × Tidy 0 ys
    × ((i : ℕ) → covers ys i ≡ covers xs i)

-- A block that `alloc` gave, freed at once, goes back: the free addresses are those from before the
-- `alloc`. Only if the `alloc` left all slots taken, `free` gives `TrackerFull` and changes nothing.
pub free_gives_back :
    (self : RegionAllocator) (xs : List Region) (size align : ℕ) (a : Allocated self xs size align)
    → ((length a.left < capacity) × GivenBack a.after xs (region a.base size))
      ⊎ ((length a.left ≡ capacity)
          × (free a.after (region a.base size) ≡ done (a.after, err tracker_full)))
unfolding free
free_gives_back self xs size align a =
    let block = region a.base size in
    elim (Bool-cases (ltb (length a.left) capacity)) [
      | inl e ↦
          let room = ltb→lt (length a.left) capacity e in
          let (t, out, v, tidy, all) =
            add_region-place a.after a.left block a.shows a.tidy a.valid a.apart room in
          inl (room, (t, place block a.left, out, v, tidy, λ i. all i ∙ sym (a.taken i)))
      | inr e ↦
          let full : length a.left ≡ capacity =
            omega (arith, ltb→le (length a.left) capacity e, a.shows.fits) in
          inr (full, add_region_full a.after a.left block a.shows a.tidy a.valid full)
    ]
