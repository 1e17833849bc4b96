-- ===== src/Paging/Mapper/Unmap.antt =====
-- `unmap` against `translate`.
use avent.Base.{ℕ, true, false, none, some, done, ◌≡◌, refl, ap, ◌∙◌, subst, inl, inr, Bool-cases}
use avent.Mm.Addr.{page_size}
use avent.Mm.Addr.Phys.{PhysAddr}
use avent.Mm.Addr.Virt.{VirtAddr, is_aligned}
use avent.Mm.Allocator.{Memory, store}
use avent.Mm.Frame.{frame_at}
use avent.Paging.Flags.{PageFlags}
use avent.Paging.Entry.{is_present, is_huge, frame, flags, empty}
use avent.Paging.Table.{PageTableLevel, one, two, three, four}
use avent.Paging.Mapper.{PageTableMapper, Machine, ok, entry_at, unmap_level, unmap, translate}
use avent.Paging.Mapper.Walk.{Leads, walk-Tables}
use avent.Paging.Mapper.Store.{walk-cleared}
use avent.Paging.Mapper.Leaf.{translate-Mapped, aligned-base, store-at}

pub unmap_level-four :
    (hhdm : ℕ) (m : Memory) (table to : ℕ) (virt : VirtAddr)
    → Leads hhdm (m (entry_at table four virt)) to
    → unmap_level hhdm m table four virt ≡ done (ok to)
unfolding unmap_level
unmap_level-four hhdm m table to virt l =
    elim (Bool-cases (is_huge (m (entry_at table four virt)))) [
      | inl h ↦ rw (l.on, h, l.to) refl
      | inr h ↦ rw (l.on, h, l.to) refl
    ]

pub unmap_level-small :
    (hhdm : ℕ) (m : Memory) (table to : ℕ) (level : PageTableLevel) (virt : VirtAddr)
    → Leads hhdm (m (entry_at table level virt)) to
    → is_huge (m (entry_at table level virt)) ≡ false
    → unmap_level hhdm m table level virt ≡ done (ok to)
unfolding unmap_level
unmap_level-small hhdm m table to level virt l h = rw (l.on, h, l.to) refl

-- For a page-aligned address that `translate` takes to `to`: `unmap` returns the frame at the physical
-- address of `to`, keeps the frame allocator, and after it `translate` of the address gives none.
pub unmap-translate :
    (self : PageTableMapper) (st : Machine) (virt : VirtAddr) (to : PhysAddr × PageFlags)
    → is_aligned virt page_size ≡ done true
    → translate self st.memory virt ≡ done (some to)
    → (n : Memory) × (unmap self st virt
        ≡ done (record st { memory = n }, ok (frame_at to.0, virt)))
      × (translate self n virt ≡ done none)
unfolding unmap translate is_present flags
unmap-translate self st virt to a e =
    let d = translate-Mapped self st.memory virt to e in
    let t = walk-Tables self st.memory virt d.leaf d.walks in
    let h = self.hhdm_offset in
    let e4 = unmap_level-four h st.memory t.l4 t.l3 virt t.at4 in
    let e3 = unmap_level-small h st.memory t.l3 t.l2 three virt t.at3 t.small3 in
    let e2 = unmap_level-small h st.memory t.l2 t.l1 two virt t.at2 t.small2 in
    let on = subst (λ k. is_present (st.memory k) ≡ true) t.last d.on in
    let has = subst (λ k. frame (st.memory k) ≡ done (some d.held)) t.last d.has in
    let leaf = entry_at t.l1 one virt in
    let same : to.0 ≡ d.held.base = aligned-base virt d.held (st.memory d.leaf) to a d.gives in
    let n = store st.memory leaf empty in
    let reads : n d.leaf ≡ empty = ap n t.last ∙ store-at st.memory leaf empty in
    let off : is_present (n d.leaf) ≡ false = ap is_present reads in
    let gone : translate self n virt ≡ done none =
      elim (walk-cleared self st.memory virt d.leaf t leaf) [
        | inl none_left ↦ rw none_left refl
        | inr still ↦ rw (still, off) refl
      ] in
    (n, rw (a, t.root, e4, e3, e2, on, has, same) refl, gone)
