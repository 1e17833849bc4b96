-- ===== src/Mm/AddressSpace/Unmap.antt =====
-- The loop of `unmap_and_dealloc`: every page goes, and the first error is kept.
use avent.Base.Words.{usize_values}
use avent.Base.{
  ℕ, suc, ◌+◌, ◌*◌, ◌%◌, ◌<◌, Bool, true, false, none, some, Option, done, inl, inr, ◌⊎◌, List, [],
  ◌∷◌, length, ◌≡◌, refl, subst, ◌∙◌, arith,
}
use avent.Mm.Addr.{page_size}
use avent.Mm.Addr.Virt.{VirtAddr}
use avent.Mm.Allocator.Chain.{frame_of}
use avent.Paging.Flags.{PageFlags, UnmapError}
use avent.Paging.Mapper.{Machine}
use avent.Paging.Trait.{Mapper}
use avent.Mm.AddressSpace.{AddressSpace, AddressSpaceError, unmap_error, Platform, keep_first}
use avent.Mm.AddressSpace.Ranges.{unmap_pages}
use avent.Mm.AddressSpace.Lawful.{Pages, put, Sound, IsLawful}
use avent.Mm.AddressSpace.Frames.{deallocate_owned-Sound}
use avent.Mm.AddressSpace.Rollback.{
  Vacant, Vacant-first, Vacant-rest, page_at-done, put_here, put-put,
}

-- `pages` with what the pages from `base` on hold: a frame, or nothing.
abbrev pub filled : VirtAddr → PageFlags → Pages → List (Option ℕ) → Pages
filled base flags pages [] = pages
filled base flags pages (none ∷ spots) = filled (base + page_size) flags pages spots
filled base flags pages (some i ∷ spots) =
    put (filled (base + page_size) flags pages spots) base (some (frame_of i, flags))

-- The frames among them.
abbrev pub frames_of : List (Option ℕ) → List ℕ
frames_of [] = []
frames_of (none ∷ spots) = frames_of spots
frames_of (some i ∷ spots) = i ∷ frames_of spots

-- Is every page mapped?
abbrev pub all_filled : List (Option ℕ) → Bool
all_filled [] = true
all_filled (none ∷ spots) = false
all_filled (some i ∷ spots) = all_filled spots

filled-below :
    (base w : ℕ) (flags : PageFlags) (pages : Pages) (spots : List (Option ℕ))
    → w < base
    → filled base flags pages spots w ≡ pages w
filled-below base w flags pages [] h = refl
filled-below base w flags pages (none ∷ spots) h =
    filled-below (base + page_size) w flags pages spots (omega (arith, h))
filled-below base w flags pages (some i ∷ spots) h =
    ground (arith, filled-below (base + page_size) w flags pages spots (omega (arith, h)))

keep_first_once :
    (first : Option AddressSpaceError) (e f : AddressSpaceError)
    → keep_first (keep_first first e) f ≡ keep_first first e
keep_first_once none e f = refl
keep_first_once (some x) e f = refl

-- The error that is kept: none but the first one so far, if all pages are mapped.
abbrev pub Keeps : Option AddressSpaceError → Option AddressSpaceError → Bool → Type 0
Keeps first last whole =
    ((whole ≡ true) × (last ≡ first))
    ⊎ ((whole ≡ false) × (e : UnmapError) × (last ≡ keep_first first (unmap_error e)))

Keeps-refused :
    (first last : Option AddressSpaceError) (e : UnmapError) (whole : Bool)
    → Keeps (keep_first first (unmap_error e)) last whole
    → Keeps first last false
Keeps-refused first last e whole (inl (w, out)) = inr (refl, e, out)
Keeps-refused first last e whole (inr (w, f, out)) =
    inr (refl, e, out ∙ keep_first_once first (unmap_error e) (unmap_error f))

pub Keeps-whole :
    (first last : Option AddressSpaceError) (whole : Bool)
    → whole ≡ true
    → Keeps first last whole
    → last ≡ first
Keeps-whole first last true e (inl (w, out)) = out
Keeps-whole first last true e (inr (w, f, out)) = cc
Keeps-whole first last false e k = cc

-- A predicate on the pages from page `i` on holds of the first and from the next on.
rest_reach :
    (base i n : ℕ) (P : VirtAddr → Type 0)
    → ((k : ℕ) → k < suc n → P (base + (i + k) * page_size))
    → P (base + i * page_size) × ((k : ℕ) → k < n → P (base + (i + 1 + k) * page_size))
rest_reach base i n P h =
    let first : base + (i + 0) * page_size ≡ base + i * page_size = omega arith in
    (
      subst P first (h 0 (omega arith)),
      λ k l.
          let next : base + (i + (k + 1)) * page_size ≡ base + (i + 1 + k) * page_size =
            omega arith in
          subst P next (h (k + 1) (omega (arith, l))),
    )

module _ (m : Mapper) (L : IsLawful m) (base : VirtAddr) (flags : PageFlags) (pages : Pages)
    (total : ℕ) (aligned : base % page_size ≡ 0) where
  abbrev pub UnmapsPages :
      AddressSpace m → Platform → Option AddressSpaceError → ℕ → List (Option ℕ) → Type 0
  UnmapsPages self st first i spots =
      (mapper : m.Self) × (machine : Machine) × (last : Option AddressSpaceError) × (unmap_pages m
          self st base first i (length spots)
        ≡ done (record self { mapper = mapper }, record st { machine = machine }, last))
      × Sound m L.Shows mapper machine pages [] total
      × Keeps first last (all_filled spots)

  pub unmap_pages-UnmapsPages :
      (spots : List (Option ℕ)) (i : ℕ) (self : AddressSpace m) (st : Platform)
      (first : Option AddressSpaceError)
      → st.locked ≡ false
      → base + (i + length spots) * page_size < usize_values
      → Vacant pages (base + i * page_size) (length spots)
      → ((k : ℕ) → k < length spots → L.Reaches (base + (i + k) * page_size))
      → Sound m L.Shows self.mapper st.machine
          (filled (base + i * page_size) flags pages spots)
          (frames_of spots)
          total
      → UnmapsPages self st first i spots
  unfolding unmap_pages
  unmap_pages-UnmapsPages [] i self st first free small vacant reach s =
      (self.mapper, st.machine, first, refl, s, inl (refl, refl))
  unmap_pages-UnmapsPages (none ∷ spots) i self st first free small vacant reach s =
      let v = base + i * page_size in
      let rest = filled (v + page_size) flags pages spots in
      let next : v + page_size ≡ base + (i + 1) * page_size = omega arith in
      let empty : rest v ≡ none =
        filled-below (v + page_size) v flags pages spots (omega arith)
        ∙ Vacant-first pages v (length spots) vacant in
      let (mapper, machine, e, out, t) =
        L.refuses self.mapper st.machine rest (frames_of spots) total v s (omega (arith, aligned))
          (rest_reach base i (length spots) L.Reaches reach).0 empty in
      let (mapper2, machine2, last, more, u, k) =
        unmap_pages-UnmapsPages spots (i + 1) (record self { mapper = mapper })
          (record st { machine = machine }) (keep_first first (unmap_error e)) free
          (omega (arith, small))
          (subst (λ b. Vacant pages b (length spots)) next
            (Vacant-rest pages v (length spots) vacant))
          (rest_reach base i (length spots) L.Reaches reach).1
          (subst
            (λ b.
              Sound m L.Shows mapper machine (filled b flags pages spots) (frames_of spots) total)
            next t) in
      (
        mapper2,
        machine2,
        last,
        rw (page_at-done base i (omega (arith, small)), out) more,
        u,
        Keeps-refused first last e (all_filled spots) k,
      )
  unmap_pages-UnmapsPages (some f ∷ spots) i self st first free small vacant reach s =
      let v = base + i * page_size in
      let rest = filled (v + page_size) flags pages spots in
      let next : v + page_size ≡ base + (i + 1) * page_size = omega arith in
      let empty : rest v ≡ none =
        filled-below (v + page_size) v flags pages spots (omega arith)
        ∙ Vacant-first pages v (length spots) vacant in
      let (mapper, machine, out, t) =
        L.unmaps self.mapper st.machine (filled v flags pages (some f ∷ spots))
          (f ∷ frames_of spots) total v (frame_of f) flags s (omega (arith, aligned))
          (put_here rest v _) in
      let (machine2, back, u) =
        deallocate_owned-Sound m L mapper (record st { machine = machine }) _ f (frames_of spots)
          total free t in
      let w =
        subst (λ p. Sound m L.Shows mapper machine2 p (frames_of spots) total)
          (put-put rest v _ empty) u in
      let (mapper3, machine3, last, more, x, k) =
        unmap_pages-UnmapsPages spots (i + 1) (record self { mapper = mapper })
          (record st { machine = machine2 }) first free (omega (arith, small))
          (subst (λ b. Vacant pages b (length spots)) next
            (Vacant-rest pages v (length spots) vacant))
          (rest_reach base i (length spots) L.Reaches reach).1
          (subst
            (λ b.
              Sound m L.Shows mapper machine2 (filled b flags pages spots) (frames_of spots) total)
            next w) in
      (
        mapper3,
        machine3,
        last,
        rw (page_at-done base i (omega (arith, small)), out, back) more,
        x,
        k,
      )
