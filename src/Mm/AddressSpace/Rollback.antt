-- ===== src/Mm/AddressSpace/Rollback.antt =====
-- The rollback: pages that were mapped one after the other are unmapped, and their frames go back.
use avent.Base.Words.{usize_values}
use avent.Base.{
  ℕ, suc, ◌+◌, ◌*◌, ◌%◌, ◌<◌, false, none, some, Option, done, ◌==◌, ==_iff, Bool-cases, inl, inr,
  List, [], ◌∷◌, length, ◌≡◌, refl, sym, subst, ◌∙◌, ap, arith,
}
use avent.Mm.Addr.{page_size}
use avent.Mm.Addr.Virt.{VirtAddr}
use avent.Mm.Frame.{PhysFrame}
use avent.Mm.Allocator.Chain.{frame_of}
use avent.Paging.Flags.{PageFlags}
use avent.Paging.Mapper.{Machine}
use avent.Paging.Trait.{Mapper}
use avent.Mm.AddressSpace.{AddressSpace, Platform, page_at}
use avent.Mm.AddressSpace.Ranges.{rollback_pages}
use avent.Mm.AddressSpace.Lawful.{Pages, put, Sound, IsLawful}
use avent.Mm.AddressSpace.Frames.{deallocate_owned-Sound}

-- `pages` with the frames mapped one after the other from `base` on.
abbrev pub mapped : VirtAddr → PageFlags → Pages → List ℕ → Pages
mapped base flags pages [] = pages
mapped base flags pages (i ∷ is) =
    put (mapped (base + page_size) flags pages is) base (some (frame_of i, flags))

-- The `n` pages from `base` on are not mapped.
abbrev pub Vacant : Pages → VirtAddr → ℕ → Type 0
Vacant pages base n = (k : ℕ) → k < n → pages (base + k * page_size) ≡ none

pub page_at-done :
    (base i : ℕ)
    → base + i * page_size < usize_values
    → page_at base i ≡ done (base + i * page_size)
unfolding page_at
page_at-done base i h = ground (arith, h)

pub mapped-below :
    (base w : ℕ) (flags : PageFlags) (pages : Pages) (is : List ℕ)
    → w < base
    → mapped base flags pages is w ≡ pages w
mapped-below base w flags pages [] h = refl
mapped-below base w flags pages (i ∷ is) h =
    ground (arith, mapped-below (base + page_size) w flags pages is (omega (arith, h)))

pub put-put :
    (pages : Pages) (v : VirtAddr) (p : Option (PhysFrame × PageFlags))
    → pages v ≡ none
    → put (put pages v p) v none ≡ pages
put-put pages v p h = λ j w. at w j
  where
    at : (w : VirtAddr) → put (put pages v p) v none w ≡ pages w
    at w = elim (Bool-cases (w == v)) [
      | inl e ↦ rw e (sym h ∙ ap pages (sym ((==_iff w v).0 e)))
      | inr e ↦ rw e refl
    ]

pub put_here :
    (pages : Pages) (v : VirtAddr) (p : Option (PhysFrame × PageFlags)) → put pages v p v ≡ p
put_here pages v p = rw ((==_iff v v).1 refl) refl

pub Vacant-first : (pages : Pages) (base n : ℕ) → Vacant pages base (suc n) → pages base ≡ none
Vacant-first pages base n h =
    let at : base + 0 * page_size ≡ base = omega arith in
    subst (λ v. pages v ≡ none) at (h 0 (omega arith))

pub Vacant-rest :
    (pages : Pages) (base n : ℕ) → Vacant pages base (suc n) → Vacant pages (base + page_size) n
Vacant-rest pages base n h k l =
    let at : base + (k + 1) * page_size ≡ base + page_size + k * page_size = omega arith in
    subst (λ v. pages v ≡ none) at (h (k + 1) (omega (arith, l)))

module _ (m : Mapper) (L : IsLawful m) (base : VirtAddr) (flags : PageFlags) (pages : Pages)
    (total : ℕ) (aligned : base % page_size ≡ 0) where
  -- What a rollback from page `i` on comes to.
  abbrev pub RollsBack : AddressSpace m → Platform → ℕ → ℕ → Type 0
  RollsBack self st i n =
      (mapper : m.Self) × (machine : Machine) × (rollback_pages m self st base i n
        ≡ done (record self { mapper = mapper }, record st { machine = machine }))
      × Sound m L.Shows mapper machine pages [] total

  pub rollback_pages-RollsBack :
      (is : List ℕ) (i : ℕ) (self : AddressSpace m) (st : Platform)
      → st.locked ≡ false
      → base + (i + length is) * page_size < usize_values
      → Vacant pages (base + i * page_size) (length is)
      → Sound m L.Shows self.mapper st.machine
          (mapped (base + i * page_size) flags pages is)
          is
          total
      → RollsBack self st i (length is)
  unfolding rollback_pages
  rollback_pages-RollsBack [] i self st free small vacant s = (self.mapper, st.machine, refl, s)
  rollback_pages-RollsBack (f ∷ is) i self st free small vacant s =
      let v = base + i * page_size in
      let rest = mapped (v + page_size) flags pages is in
      let here : mapped v flags pages (f ∷ is) v ≡ some (frame_of f, flags) = put_here rest v _ in
      let (mapper, machine, out, t) =
        L.unmaps self.mapper st.machine (mapped v flags pages (f ∷ is)) (f ∷ is) total v
          (frame_of f) flags s (omega (arith, aligned)) here in
      let (machine2, back, u) =
        deallocate_owned-Sound m L mapper (record st { machine = machine }) _ f is total free t in
      let next : v + page_size ≡ base + (i + 1) * page_size = omega arith in
      let empty : rest v ≡ none =
        mapped-below (v + page_size) v flags pages is (omega arith)
        ∙ Vacant-first pages v (length is) vacant in
      let w = subst (λ p. Sound m L.Shows mapper machine2 p is total) (put-put rest v _ empty) u in
      let (mapper3, machine3, more, x) =
        rollback_pages-RollsBack is (i + 1) (record self { mapper = mapper })
          (record st { machine = machine2 }) free (omega (arith, small))
          (subst (λ b. Vacant pages b (length is)) next (Vacant-rest pages v (length is) vacant))
          (subst (λ b. Sound m L.Shows mapper machine2 (mapped b flags pages is) is total) next
            w) in
      (mapper3, machine3, rw (page_at-done base i (omega (arith, small)), out, back) more, x)
