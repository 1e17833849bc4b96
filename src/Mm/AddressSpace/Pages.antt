-- ===== src/Mm/AddressSpace/Pages.antt =====
-- The loop of `alloc_and_map`: every page is mapped to a fresh frame, or the loop gives up.
use avent.Base.Words.{usize_values}
use avent.Base.{
  ℕ, zero, suc, ◌+◌, ◌*◌, ◌%◌, ◌<◌, ◌≤◌, false, none, some, done, panic, inl, inr, ◌⊎◌, List, [],
  ◌∷◌, ◌++◌, length, length-append, ◌≡◌, refl, sym, subst, ◌∙◌, ap, arith,
}
use avent.Mm.Addr.{page_size}
use avent.Mm.Addr.Virt.{VirtAddr}
use avent.Mm.Allocator.Chain.{frame_of}
use avent.Mm.Vm.Region.{Region, RegionAllocator}
use avent.Mm.Vm.Region
use avent.Paging.Flags.{PageFlags, MapError}
use avent.Paging.Mapper.{Machine, ok, err}
use avent.Paging.Trait.{Mapper}
use avent.Mm.AddressSpace.{
  AddressSpace, out_of_physical_memory, map_error, AllocKind, Platform, map, try_allocate,
  free_virt, free_virt_expect, deallocate_owned,
}
use avent.Mm.AddressSpace.Ranges.{rollback_pages, rollback_range, give_up, map_pages}
use avent.Mm.AddressSpace.Lawful.{Pages, Sound, Scarce, IsLawful}
use avent.Mm.AddressSpace.Frames.{Sound-moved, deallocate_owned-Sound, try_allocate-Tries, Starved}
use avent.Mm.AddressSpace.Rollback.{mapped, Vacant, page_at-done, put_here}
use avent.Mm.AddressSpace.GiveUp.{
  mapped-append, mapped-above, Frees, gave_back, GivesUp, pool-mapper, give_up-GivesUp,
}

-- Why the loop may not return, with the frames `js` mapped: no frame is free for a page that is not the
-- first, and the rollback waits for the lock that the loop holds; or the mapper panics for want of a
-- frame for a table.
abbrev pub Stops : (m : Mapper) → IsLawful m → VirtAddr → PageFlags → Pages → ℕ → List ℕ → Type 0
Stops m L base flags pages total js =
    (mapper : m.Self) × (machine : Machine) × (((0 < length js)
        × Starved m L mapper machine (mapped base flags pages js) js total)
      ⊎ ((i : ℕ) × Scarce m L.Shows mapper machine (mapped base flags pages js) (i ∷ js) total))

module _ (m : Mapper) (L : IsLawful m) (r : Region) (kind : AllocKind) (flags : PageFlags)
    (pages : Pages) (total : ℕ) (aligned : r.base % page_size ≡ 0)
    (bounded : r.base + r.size < usize_values) (t : RegionAllocator) where
  -- What the loop comes to with `n` pages left, after the frames `is`: all pages are mapped; or it
  -- gives up at an error of the mapper, or because no frame is free for the first page; or it does
  -- not return.
  abbrev pub MapsPages : AddressSpace m → Platform → List ℕ → ℕ → Type 0
  MapsPages self st is n =
      let o = map_pages m self st r flags kind (length is) n in
      ((js : List ℕ) × (mapper : m.Self) × (machine : Machine) × (o
          ≡ done (record self { mapper = mapper }, record st { machine = machine }, ok tt))
        × (length js ≡ length is + n)
        × Sound m L.Shows mapper machine (mapped r.base flags pages js) js total)
      ⊎ ((e : MapError) × GivesUp m L r kind flags pages total aligned bounded t self st
            (map_error e) o)
      ⊎ (GivesUp m L r kind flags pages total aligned bounded t self st out_of_physical_memory o
          × (mapper : m.Self) × (machine : Machine) × Starved m L mapper machine pages [] total)
      ⊎ ((o ≡ panic)
          × (js : List ℕ) × (length js < length is + n)
          × Stops m L r.base flags pages total js)

  -- The arm `None`: without a page to unmap the loop gives up, and else it does not return.
  map_pages-Starved :
      (is : List ℕ) (n : ℕ) (self : AddressSpace m) (st : Platform)
      → Frees m L r kind flags pages total aligned bounded t self
      → st.locked ≡ false
      → try_allocate st ≡ done (st, none)
      → (length is + suc n) * page_size ≤ r.size
      → Vacant pages r.base (length is + suc n)
      → Starved m L self.mapper st.machine (mapped r.base flags pages is) is total
      → MapsPages self st is (suc n)
  unfolding map_pages give_up rollback_range rollback_pages free_virt_expect free_virt
      deallocate_owned
  map_pages-Starved [] n self st f free out fits vacant s =
      let at = page_at-done r.base 0 (omega (arith, bounded, fits)) in
      inr (
        inr (
          inl (
            (
              self.mapper,
              st.machine,
              rw (at, out, f)
                  (λ j. done (
                    gave_back m kind t self self.mapper,
                    record st { locked = sym free j },
                    err out_of_physical_memory,
                  )),
              s.0,
            ),
            self.mapper,
            st.machine,
            s,
          )))
  map_pages-Starved (i ∷ is) n self st f free out fits vacant s =
      let start : r.base ≡ r.base + 0 * page_size = omega arith in
      let v = r.base + 0 * page_size in
      let now = mapped r.base flags pages (i ∷ is) in
      let here : now v ≡ some (frame_of i, flags) =
        subst (λ w. now w ≡ some (frame_of i, flags)) start
          (put_here (mapped (r.base + page_size) flags pages is) r.base _) in
      let (mapper, machine, gone, t) =
        L.unmaps self.mapper st.machine now (i ∷ is) total v (frame_of i) flags s.0
          (omega (arith, aligned)) here in
      let first = page_at-done r.base 0 (omega (arith, bounded, fits)) in
      let at = page_at-done r.base (length (i ∷ is)) (omega (arith, bounded, fits)) in
      inr (
        inr (
          inr (
            rw (at, out, first, gone) refl,
            i ∷ is,
            omega arith,
            (self.mapper, st.machine, inl (omega arith, s)),
          )))

  -- The loop after one more page.
  goes_on :
      (is : List ℕ) (i n : ℕ) (self : AddressSpace m) (st : Platform) (mapper : m.Self)
      (machine : Machine)
      → map_pages m self st r flags kind (length is) (suc n)
        ≡ map_pages m
            (record self { mapper = mapper })
            (record st { machine = machine })
            r
            flags
            kind
            (length (is ++ (i ∷ [])))
            n
      → MapsPages
          (record self { mapper = mapper })
          (record st { machine = machine })
          (is ++ (i ∷ []))
          n
      → MapsPages self st is (suc n)
  goes_on is i n self st mapper machine e more =
      let len = length-append is (i ∷ []) in
      elim more [
        | inl (js, x, y, out, l, s) ↦ inl (js, x, y, e ∙ out, omega (arith, l, len), s)
        | inr (inl (c, (x, y, out, s))) ↦ inr (inl (c, (x, y, e ∙ out, s)))
        | inr (inr (inl ((x, y, out, s), a, b, starved))) ↦
            inr (inr (inl ((x, y, e ∙ out, s), a, b, starved)))
        | inr (inr (inr (out, js, q, stops))) ↦
            inr (inr (inr (e ∙ out, js, omega (arith, q, len), stops)))
      ]

  pub map_pages-MapsPages :
      (n : ℕ) (is : List ℕ) (self : AddressSpace m) (st : Platform)
      → Frees m L r kind flags pages total aligned bounded t self
      → st.locked ≡ false
      → (length is + n) * page_size ≤ r.size
      → Vacant pages r.base (length is + n)
      → flags < 64
      → ((k : ℕ) → k < length is + n → L.Reaches (r.base + k * page_size))
      → Sound m L.Shows self.mapper st.machine (mapped r.base flags pages is) is total
      → MapsPages self st is n
  unfolding map_pages map
  map_pages-MapsPages zero is self st f free fits vacant fl reach s =
      inl (is, self.mapper, st.machine, refl, omega arith, s)
  map_pages-MapsPages (suc n) is self st f free fits vacant fl reach s =
      elim (try_allocate-Tries m L self.mapper st _ is total free s) [
        | inl (out, starved) ↦ map_pages-Starved is n self st f free out fits vacant starved
        | inr (i, machine, got, s1) ↦
            let v = r.base + length is * page_size in
            let now = mapped r.base flags pages is in
            let at = page_at-done r.base (length is) (omega (arith, fits, bounded)) in
            let st1 = record st { machine = machine } in
            let back_to =
              λ (x : m.Self). ap (λ a. Region.free a r) (pool-mapper m kind self x) ∙ f in
            elim (L.maps self.mapper machine now is total v i flags s1 fl (omega (arith, aligned))
              (reach (length is) (omega arith))
              (mapped-above r.base v flags pages is (omega arith)
                ∙ vacant (length is) (omega arith))) [
                  | inl (mapper, machine2, out, s2) ↦
                      let len : length (is ++ (i ∷ [])) ≡ length is + 1 =
                        omega (arith, length-append is (i ∷ [])) in
                      let s3 = Sound-moved m L mapper machine2 _ i is total s2 in
                      let more =
                        map_pages-MapsPages n (is ++ (i ∷ [])) (record self { mapper = mapper })
                          (record st { machine = machine2 }) (back_to mapper) free
                          (omega (arith, fits, len)) (λ k l. vacant k (omega (arith, l, len))) fl
                          (λ k l. reach k (omega (arith, l, len)))
                          (subst (λ p. Sound m L.Shows mapper machine2 p (is ++ (i ∷ [])) total)
                            (sym (mapped-append r.base flags pages is i)) s3) in
                      goes_on is i n self st mapper machine2 (rw (at, got, out, len) refl) more
                  | inr (inl (mapper, machine2, e, out, s2)) ↦
                      let (machine3, back, s3) =
                        deallocate_owned-Sound m L mapper (record st { machine = machine2 }) now i
                          is total free s2 in
                      let (mapper4, machine4, gone, s4) =
                        give_up-GivesUp m L r kind flags pages total aligned bounded t is
                          (record self { mapper = mapper }) (record st { machine = machine3 })
                          (map_error e) (back_to mapper) free (omega (arith, fits))
                          (λ k l. vacant k (omega (arith, l))) s3 in
                      inr (inl (e, (mapper4, machine4, rw (at, got, out, back) gone, s4)))
                  | inr (inr (out, scarce)) ↦ inr (
                      inr (
                        inr (
                          rw (at, got, out) refl,
                          is,
                          omega arith,
                          (self.mapper, machine, inr (i, scarce)),
                        )))
                ]
      ]
