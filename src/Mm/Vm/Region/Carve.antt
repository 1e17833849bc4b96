-- ===== src/Mm/Vm/Region/Carve.antt =====
-- `alloc`: the slot found is taken out, and the parts that the block leaves go back.
use mathlib.Core.List.{append_assoc}
use avent.Base.Words.{usize_values, add, sub}
use avent.Base.{
  ℕ, suc, ◌+◌, ◌-◌, ◌%◌, ◌≤◌, ◌<◌, true, done, ltb, lt→ltb, ltb→lt, if◌then◌else◌, List, ◌∷◌, ◌++◌,
  length, length-append, ◌≡◌, refl, sym, ap, subst, ◌∙◌, arith, inl, inr, Bool-cases,
}
use avent.Mm.Addr.{page_size}
use avent.Mm.Addr.Virt.{VirtAddr}
use avent.Mm.Vm.Region.{Region, RegionAllocator, ok, region, capacity, give_back, carve, remove_at}
use avent.Mm.Vm.Region.View.{Shows, insert_at-Shows, remove_at-Shows}
use avent.Mm.Vm.Region.Spec.{IsRegion}
use avent.Mm.Vm.Region.Merge.{new_region-done}
use avent.Mm.Blocks.Pieces.{
  FitsAt, piece, pieces, length-piece, head-IsBlock, tail-IsBlock, block-IsBlock,
}

pub give_back-Shows :
    (self : RegionAllocator) (pre post : List Region) (base : VirtAddr) (size : ℕ)
    → (0 < size → IsRegion (region base size))
    → Shows self (pre ++ post)
    → (0 < size → length (pre ++ post) < capacity)
    → (t : RegionAllocator) × (give_back self (length pre) base size ≡ done t)
      × Shows t (pre ++ (piece base size ++ post))
unfolding give_back
give_back-Shows self pre post base size p v room = elim (Bool-cases (ltb 0 size)) [
  | inl e ↦
      let (t, out, w) =
        insert_at-Shows self pre post (region base size) v (room (ltb→lt 0 size e)) in
      rw e (t, rw (new_region-done (region base size) (p (ltb→lt 0 size e)), out) refl, w)
  | inr e ↦ rw e (self, refl, v)
]

module _ (slot : Region) (size align : ℕ) (base : VirtAddr) (padding : ℕ) (p : IsRegion slot)
    (f : FitsAt size align slot base padding) (s : 0 < size) (pages : size % page_size ≡ 0)
    (aligns : align % page_size ≡ 0) where
  pub head-IsRegion : 0 < padding → IsRegion (region slot.base padding)
  head-IsRegion = head-IsBlock page_size slot size align base padding p f s pages aligns

  pub tail-IsRegion :
      0 < slot.size - padding - size → IsRegion (region (base + size) (slot.size - padding - size))
  tail-IsRegion = tail-IsBlock page_size slot size align base padding p f s pages aligns

  pub block-IsRegion : IsRegion (region base size)
  block-IsRegion = block-IsBlock page_size slot size align base padding p f s pages aligns

  -- The size of the tail, and the base that `carve` gives it.
  tail : ℕ
  tail = slot.size - padding - size

  pub tail_base : VirtAddr
  tail_base = if ltb 0 (slot.size - padding - size) then base + size else 0

  pub tail_base-done :
      (if ltb 0 (slot.size - padding - size) then add base size else done 0) ≡ done tail_base
  unfolding tail_base
  tail_base-done = elim (Bool-cases (ltb 0 (slot.size - padding - size))) [
    | inl e ↦
        let small : ltb (base + size) usize_values ≡ true =
          lt→ltb _ _ (omega (arith, p.bounded, f.2, f.0)) in
        rw (e, small) refl
    | inr e ↦ rw e refl
  ]

  pub tail_base-IsRegion :
      0 < slot.size - padding - size → IsRegion (region tail_base (slot.size - padding - size))
  unfolding tail_base
  tail_base-IsRegion h = rw (lt→ltb 0 (slot.size - padding - size) h) (tail-IsRegion h)

  piece-tail_base :
      piece tail_base (slot.size - padding - size)
      ≡ piece (base + size) (slot.size - padding - size)
  unfolding tail_base
  piece-tail_base = elim (Bool-cases (ltb 0 (slot.size - padding - size))) [
    | inl e ↦ rw e refl
    | inr e ↦ rw e refl
  ]

  -- The calls of `carve` in their order.
  carve-done :
      (self t u z : RegionAllocator) (n : ℕ)
      → remove_at self n ≡ done (t, slot)
      → give_back t n slot.base padding ≡ done u
      → give_back u (n + (if ltb 0 padding then 1 else 0)) tail_base (slot.size - padding - size)
        ≡ done z
      → carve self size n base padding ≡ done (z, ok (region base size))
  unfolding carve
  carve-done self t u z n out out1 out2 =
      let rest : sub slot.size padding ≡ done (slot.size - padding) = ground (arith, f.2) in
      let left : sub (slot.size - padding) size ≡ done (slot.size - padding - size) =
        ground (arith, f.2) in
      rw
        (
          out,
          out1,
          rest,
          left,
          tail_base-done,
          out2,
          new_region-done (region base size) block-IsRegion,
        )
        refl

  -- A slot more is wanted only where something is left both before and after the block.
  pub carve-Shows :
      (self : RegionAllocator) (pre post : List Region)
      → Shows self (pre ++ slot ∷ post)
      → (0 < padding → padding + size < slot.size → length (pre ++ slot ∷ post) < capacity)
      → (t : RegionAllocator) × (carve self size (length pre) base padding
          ≡ done (t, ok (region base size)))
        × Shows t (pre ++ (pieces slot size base padding ++ post))
  unfolding carve
  carve-Shows self pre post v room =
      let head = piece slot.base padding in
      let tail = slot.size - padding - size in
      let size_before : length (pre ++ slot ∷ post) ≡ length pre + suc (length post) =
        length-append pre (slot ∷ post) in
      let (t, out, w) = remove_at-Shows self pre post slot v in
      let room1 : length (pre ++ post) < capacity =
        omega (arith, v.fits, size_before, length-append pre post) in
      let (u, out1, w1) =
        give_back-Shows t pre post slot.base padding head-IsRegion w (λ h. room1) in
      let w1' : Shows u ((pre ++ head) ++ post) =
        subst (Shows u) (sym (append_assoc pre head post)) w1 in
      let at : length (pre ++ head) ≡ length pre + (if ltb 0 padding then 1 else 0) =
        length-append pre head ∙ ap (λ k. length pre + k) (length-piece slot.base padding) in
      let short : (if ltb 0 padding then 1 else 0) ≤ 1 = ground arith in
      let room2 : 0 < tail → length ((pre ++ head) ++ post) < capacity = λ h.
        elim (Bool-cases (ltb 0 padding)) [
          | inl e ↦ omega (
            arith,
            room (ltb→lt 0 padding e) (omega (arith, h)),
            size_before,
            at,
            short,
            length-append (pre ++ head) post,
          )
          | inr e ↦
              let none_before : length (pre ++ head) ≡ length pre + 0 = at ∙ rw e refl in
              omega (arith, v.fits, size_before, none_before, length-append (pre ++ head) post)
        ] in
      let (z, out2, w2) =
        give_back-Shows u (pre ++ head) post tail_base tail tail_base-IsRegion w1' room2 in
      let out2' : give_back u (length pre + (if ltb 0 padding then 1 else 0)) tail_base tail
          ≡ done z =
        subst (λ k. give_back u k tail_base tail ≡ done z) at out2 in
      let w2' : Shows z ((pre ++ head) ++ (piece (base + size) tail ++ post)) =
        subst (λ q. Shows z ((pre ++ head) ++ (q ++ post))) piece-tail_base w2 in
      let joined : (pre ++ head) ++ (piece (base + size) tail ++ post)
          ≡ pre ++ (pieces slot size base padding ++ post) =
        append_assoc pre head _
        ∙ ap (λ q. pre ++ q) (sym (append_assoc head (piece (base + size) tail) post)) in
      (z, carve-done self t u z (length pre) out out1 out2', subst (Shows z) joined w2')
