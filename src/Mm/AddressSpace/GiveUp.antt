-- ===== src/Mm/AddressSpace/GiveUp.antt =====
-- Where a loop of the address space gives up: the pages mapped so far go, and the region goes back.
use avent.Base.Words.{usize_values}
use avent.Base.{
  ℕ, suc, ◌+◌, ◌*◌, ◌%◌, ◌<◌, ◌≤◌, false, some, Option, Outcome, done, ◌==◌, ==_iff, Bool-cases,
  inl, inr, List, [], ◌∷◌, ◌++◌, length, ◌≡◌, ◌≢◌, refl, sym, subst, ◌∙◌, ap, arith,
}
use avent.Mm.Addr.{page_size}
use avent.Mm.Addr.Virt.{VirtAddr}
use avent.Mm.Frame.{PhysFrame}
use avent.Mm.Allocator.Chain.{frame_of}
use avent.Mm.Vm.Region.{Region, RegionAllocator}
use avent.Mm.Vm.Region
use avent.Paging.Flags.{PageFlags}
use avent.Paging.Mapper.{Machine, Result, err}
use avent.Paging.Trait.{Mapper}
use avent.Mm.AddressSpace.{
  AddressSpace, AddressSpaceError, AllocKind, heap, kernel_vm, Platform, free_virt,
  free_virt_expect, region_allocator_for, with_region_allocator,
}
use avent.Mm.AddressSpace.Ranges.{rollback_range, give_up}
use avent.Mm.AddressSpace.Lawful.{Pages, put, Sound, IsLawful}
use avent.Mm.AddressSpace.Rollback.{mapped, Vacant, rollback_pages-RollsBack}

put-swap :
    (pages : Pages) (v w : VirtAddr) (p q : Option (PhysFrame × PageFlags))
    → v ≢ w
    → put (put pages v p) w q ≡ put (put pages w q) v p
put-swap pages v w p q n = λ j a. at a j
  where
    at : (a : VirtAddr) → put (put pages v p) w q a ≡ put (put pages w q) v p a
    at a = elim (Bool-cases (a == v)) [
      | inl e ↦ elim (Bool-cases (a == w)) [
        | inl f ↦ absurd (n (sym ((==_iff a v).0 e) ∙ (==_iff a w).0 f))
        | inr f ↦ rw (e, f) refl
      ]
      | inr e ↦ rw e refl
    ]

pub mapped-append :
    (base : ℕ) (flags : PageFlags) (pages : Pages) (is : List ℕ) (i : ℕ)
    → mapped base flags pages (is ++ (i ∷ []))
      ≡ put (mapped base flags pages is) (base + length is * page_size) (some (frame_of i, flags))
mapped-append base flags pages [] i = ap (λ v. put pages v (some (frame_of i, flags))) (omega arith)
mapped-append base flags pages (j ∷ is) i =
    let v = base + page_size + length is * page_size in
    let next : v ≡ base + suc (length is) * page_size = omega arith in
    ap (λ p. put p base (some (frame_of j, flags)))
      (mapped-append (base + page_size) flags pages is i)
    ∙ put-swap (mapped (base + page_size) flags pages is) v base _ _ (λ e. omega (arith, e))
    ∙ ap (λ w. put (mapped base flags pages (j ∷ is)) w (some (frame_of i, flags))) next

-- The pages from `base + length is * page_size` on are as they were.
pub mapped-above :
    (base w : ℕ) (flags : PageFlags) (pages : Pages) (is : List ℕ)
    → base + length is * page_size ≤ w
    → mapped base flags pages is w ≡ pages w
mapped-above base w flags pages [] h = refl
mapped-above base w flags pages (i ∷ is) h =
    ground (arith, mapped-above (base + page_size) w flags pages is (omega (arith, h)))

module _ (m : Mapper) where
  -- The address space with another mapper, and the region back in its pool.
  abbrev pub gave_back : AllocKind → RegionAllocator → AddressSpace m → m.Self → AddressSpace m
  gave_back kind t self mapper = with_region_allocator m (record self { mapper = mapper }) kind t

  pub pool-mapper :
      (k : AllocKind) (self : AddressSpace m) (mapper : m.Self)
      → region_allocator_for m (record self { mapper = mapper }) k ≡ region_allocator_for m self k
  unfolding region_allocator_for
  pool-mapper heap self mapper = refl
  pool-mapper kernel_vm self mapper = refl

module _ (m : Mapper) (L : IsLawful m) (r : Region) (kind : AllocKind) (flags : PageFlags)
    (pages : Pages) (total : ℕ) (aligned : r.base % page_size ≡ 0)
    (bounded : r.base + r.size < usize_values) (t : RegionAllocator) where
  -- The region can go back to its pool, which is `t` then.
  abbrev pub Frees : AddressSpace m → Type 0
  Frees self = Region.free (region_allocator_for m self kind) r ≡ done (t, Region.ok tt)

  -- The region is back in its pool, and no page is mapped any more.
  abbrev pub GivesUp :
      AddressSpace m
      → Platform
      → AddressSpaceError
      → Outcome (AddressSpace m × Platform × Result (Unit {0}) AddressSpaceError)
      → Type 0
  GivesUp self st e o =
      (mapper : m.Self) × (machine : Machine) × (o
        ≡ done (gave_back m kind t self mapper, record st { machine = machine }, err e))
      × Sound m L.Shows mapper machine pages [] total

  pub give_up-GivesUp :
      (is : List ℕ) (self : AddressSpace m) (st : Platform) (e : AddressSpaceError)
      → Frees self
      → st.locked ≡ false
      → length is * page_size ≤ r.size
      → Vacant pages r.base (length is)
      → Sound m L.Shows self.mapper st.machine (mapped r.base flags pages is) is total
      → GivesUp self st e (give_up m self st r kind (length is) e)
  unfolding give_up rollback_range free_virt_expect free_virt
  give_up-GivesUp is self st e f free fits vacant s =
      let start : r.base ≡ r.base + 0 * page_size = omega arith in
      let (mapper, machine, out, u) =
        rollback_pages-RollsBack m L r.base flags pages total aligned is 0 self st free
          (omega (arith, fits, bounded)) (subst (λ b. Vacant pages b (length is)) start vacant)
          (subst (λ b. Sound m L.Shows self.mapper st.machine (mapped b flags pages is) is total)
            start s) in
      (mapper, machine, rw (out, pool-mapper m kind self mapper, f) refl, u)
