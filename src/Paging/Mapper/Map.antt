-- ===== src/Paging/Mapper/Map.antt =====
-- `map` and `remap` against `translate`.
use avent.Base.{
  panic, none, found_cases, ℕ, ◌%◌, ◌^◌, ◌<◌, Bool, true, false, some, done, ◌≡◌, refl, sym, ap,
  ◌∙◌, ◌⊎◌, inl, inr, Bool-cases,
}
use avent.Mm.Addr.{page_size}
use avent.Mm.Addr.Phys.{PhysAddr}
use avent.Mm.Addr.Virt.{VirtAddr, is_aligned, is_canonical}
use avent.Mm.Allocator.{Memory, store}
use avent.Mm.Frame.{PhysFrame}
use avent.Paging.Flags.{PageFlags, MapError, already_mapped, UnmapError, not_mapped, huge_page}
use avent.Paging.Flags
use avent.Paging.Entry.{PageTableEntry, frame, is_present, is_huge}
use avent.Paging.Table.{two, three, four}
use avent.Paging.Mapper.{
  table_at_frame, PageTableMapper, Machine, ok, err, entry_at, walk, open_table, next_table,
  walk_or_create, map, translate, remap,
}
use avent.Paging.Mapper.Walk.{Leads, Tables, walk-Tables}
use avent.Paging.Mapper.Store.{store-present, Alike, walk-Alike, walk-fresh}
use avent.Paging.Mapper.Leaf.{
  held-bound, translate-leaf, translated, translate-Mapped, aligned-base, store-at, frame-aligned,
  stored-translate, made, made-on, made-small, made-frame,
}

open_level :
    (hhdm to : ℕ) (alloc : Bool) (st : Machine) (entry : ℕ)
    → Leads hhdm (st.memory entry) to
    → is_huge (st.memory entry) ≡ false
    → next_table hhdm alloc st entry ≡ done (st, ok to)
unfolding next_table open_table
open_level hhdm to alloc st entry l h = rw (l.on, h, l.to) refl

huge_level :
    (hhdm to : ℕ) (alloc : Bool) (st : Machine) (entry : ℕ)
    → Leads hhdm (st.memory entry) to
    → is_huge (st.memory entry) ≡ true
    → next_table hhdm alloc st entry ≡ done (st, err already_mapped)
unfolding next_table open_table
huge_level hhdm to alloc st entry l h = rw (l.on, h) refl

-- The entry of level 4 says huge page.
abbrev pub HugeAtTop : PageTableMapper → Memory → VirtAddr → Type 0
HugeAtTop self m virt =
    (l4 : ℕ) × (table_at_frame self.pml4 self.hhdm_offset ≡ done l4)
    × (is_huge (m (entry_at l4 four virt)) ≡ true)

-- The leaf entry of the address says huge page.
abbrev pub HugeAtLeaf : PageTableMapper → Memory → VirtAddr → Type 0
HugeAtLeaf self m virt =
    (leaf : ℕ) × (walk self m virt ≡ done (some leaf)) × (is_huge (m leaf) ≡ true)

-- Where the tables are there, `walk_or_create` changes nothing, and finds the leaf entry unless the entry
-- of level 4 says huge page, which `walk` does not test.
pub walk_or_create-Tables :
    (self : PageTableMapper) (st : Machine) (virt : VirtAddr) (leaf : ℕ) (alloc : Bool)
    → Tables self st.memory virt leaf
    → (walk_or_create self st virt alloc ≡ done (st, ok leaf))
      ⊎ ((walk_or_create self st virt alloc ≡ done (st, err already_mapped))
          × HugeAtTop self st.memory virt)
unfolding walk_or_create
walk_or_create-Tables self st virt leaf alloc t =
    let h = self.hhdm_offset in
    let e3 = open_level h t.l2 alloc st (entry_at t.l3 three virt) t.at3 t.small3 in
    let e2 = open_level h t.l1 alloc st (entry_at t.l2 two virt) t.at2 t.small2 in
    elim (Bool-cases (is_huge (st.memory (entry_at t.l4 four virt)))) [
      | inl big ↦
          let e4 = huge_level h t.l3 alloc st (entry_at t.l4 four virt) t.at4 big in
          inr (rw (t.root, e4) refl, (t.l4, t.root, big))
      | inr small ↦
          let e4 = open_level h t.l3 alloc st (entry_at t.l4 four virt) t.at4 small in
          inl (rw (t.root, e4, e3, e2) (ap (λ l. done (st, ok l)) (sym t.last)))
    ]

-- A write to an entry that is not present keeps every translation.
fresh-translate :
    (self : PageTableMapper) (m : Memory) (at : ℕ) (v : PageTableEntry)
    → is_present (m at) ≡ false
    → (virt : VirtAddr) (to : PhysAddr × PageFlags) → translate self m virt ≡ done (some to)
    → translate self (store m at v) virt ≡ done (some to)
fresh-translate self m at v off virt to e =
    let d = translate-Mapped self m virt to e in
    let t = walk-Tables self m virt d.leaf d.walks in
    let n = store m at v in
    let same : n d.leaf ≡ m d.leaf = store-present m at d.leaf v off d.on in
    translate-leaf self n virt d.leaf d.held (walk-fresh self m virt d.leaf t at v off)
      (ap is_present same ∙ d.on) (ap frame same ∙ d.has)
    ∙ ap (λ w. done (translated d.held w virt)) same
    ∙ ap done d.gives

-- A translation is the same after a write, if there was one.
abbrev pub IsKept : PageTableMapper → Memory → Memory → VirtAddr → Type 0
IsKept self m n virt =
    (translate self m virt ≡ panic)
    ⊎ (translate self m virt ≡ done none)
    ⊎ (translate self n virt ≡ translate self m virt)

fresh-IsKept :
    (self : PageTableMapper) (m : Memory) (at : ℕ) (v : PageTableEntry)
    → is_present (m at) ≡ false
    → (virt : VirtAddr) → IsKept self m (store m at v) virt
fresh-IsKept self m at v off virt = elim (found_cases (translate self m virt)) [
  | inl e ↦ inl e
  | inr (inl e) ↦ inr (inl e)
  | inr (inr (to, e)) ↦ inr (inr (fresh-translate self m at v off virt to e ∙ sym e))
]

-- For a page-aligned canonical address whose tables are there, a page-aligned frame below 2 ^ 52 and page
-- flags below 64: `map` gives the frame back with `AlreadyMapped` and changes nothing, and then the leaf
-- entry is present or the entry of level 4 says huge page; or the leaf entry was not present, it
-- returns `Ok`, after it `translate` of the address gives the base of the frame and the flags
-- with `READ` added, and an address that had a translation has the same.
pub map-translate :
    (self : PageTableMapper) (st : Machine) (virt : VirtAddr) (leaf : ℕ) (f : PhysFrame)
    (pf : PageFlags) (other : VirtAddr)
    → is_aligned virt page_size ≡ done true
    → is_canonical virt ≡ true
    → walk self st.memory virt ≡ done (some leaf)
    → f.base < 2 ^ 52
    → f.base % page_size ≡ 0
    → pf < 64
    → ((map self st virt f pf ≡ done (st, err (f, already_mapped)))
        × ((is_present (st.memory leaf) ≡ true) ⊎ HugeAtTop self st.memory virt))
      ⊎ ((is_present (st.memory leaf) ≡ false)
          × ((n : Memory) × (map self st virt f pf ≡ done (record st { memory = n }, ok virt))
              × (translate self n virt ≡ done (some (f.base, Flags.or pf Flags.read)))
              × IsKept self st.memory n other))
unfolding map
map-translate self st virt leaf f pf other a c w inside aligned p =
    let t = walk-Tables self st.memory virt leaf w in
    elim (walk_or_create-Tables self st virt leaf true t) [
      | inr (refused, top) ↦ inl (rw (a, c, refused) refl, inr top)
      | inl found ↦ elim (Bool-cases (is_present (st.memory leaf))) [
        | inl on ↦ inl (rw (a, c, found, on) refl, inl on)
        | inr off ↦
            let v = made f pf inside aligned p in
            let n = store st.memory leaf v in
            inr (
              off,
              (
                n,
                rw (a, c, found, off) refl,
                stored-translate self n virt leaf f pf inside aligned p a
                    (walk-fresh self st.memory virt leaf t leaf v off) (store-at st.memory leaf v),
                fresh-IsKept self st.memory leaf v off other,
              ),
            )
      ]
    ]

-- For a page-aligned address that `translate` takes to `to` and page flags below 64: `remap` changes nothing
-- and gives `NotMapped`, and then the entry of level 4 says huge page, or `HugePage`, and then the leaf entry
-- does; or it returns `Ok`, and after it `translate` of the address gives the same
-- physical address and the new flags with `READ` added.
pub remap-translate :
    (self : PageTableMapper) (st : Machine) (virt : VirtAddr) (to : PhysAddr × PageFlags)
    (pf : PageFlags)
    → is_aligned virt page_size ≡ done true
    → translate self st.memory virt ≡ done (some to)
    → pf < 64
    → ((remap self st virt pf ≡ done (st, err not_mapped)) × HugeAtTop self st.memory virt)
      ⊎ ((remap self st virt pf ≡ done (st, err huge_page)) × HugeAtLeaf self st.memory virt)
      ⊎ ((n : Memory) × (remap self st virt pf ≡ done (record st { memory = n }, ok virt))
          × (translate self n virt ≡ done (some (to.0, Flags.or pf Flags.read))))
unfolding remap
remap-translate self st virt to pf a e p =
    let d = translate-Mapped self st.memory virt to e in
    let t = walk-Tables self st.memory virt d.leaf d.walks in
    elim (walk_or_create-Tables self st virt d.leaf false t) [
      | inr (refused, top) ↦ inl (rw (a, refused) refl, top)
      | inl found ↦ elim (Bool-cases (is_huge (st.memory d.leaf))) [
        | inl big ↦ inr (inl (rw (a, found, d.on, big) refl, (d.leaf, d.walks, big)))
        | inr small ↦
            let f = d.held in
            let base = aligned-base virt f (st.memory d.leaf) to a d.gives in
            let inside = held-bound virt f (st.memory d.leaf) to a d.gives in
            let aligned = frame-aligned (st.memory d.leaf) f d.has in
            let v = made f pf inside aligned p in
            let n = store st.memory d.leaf v in
            let alike : Alike v (st.memory d.leaf) = (
              made-on f pf inside aligned p ∙ sym d.on,
              made-small f pf inside aligned p ∙ sym small,
              made-frame f pf inside aligned p ∙ sym d.has,
            ) in
            inr (
              inr (
                n,
                rw (a, found, d.on, small, d.has) refl,
                stored-translate self n virt d.leaf f pf inside aligned p a
                      (walk-Alike self st.memory virt d.leaf t d.leaf v alike)
                      (store-at st.memory d.leaf v)
                    ∙ ap (λ b. done (some (b, Flags.or pf Flags.read))) (sym base),
              ))
      ]
    ]
