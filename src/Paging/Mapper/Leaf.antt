-- ===== src/Paging/Mapper/Leaf.antt =====
-- The leaf entry behind a translation, and entries made of a frame and flags.
use avent.Base.{
  sym, ℕ, ◌-◌, ◌%◌, ◌^◌, ◌<◌, bit_and, true, false, Option, none, some, done, done_injective,
  some_or_none, ◌==◌, ==_iff, ◌≡◌, refl, ap, ◌∙◌, subst, inl, inr, arith, Bool-cases,
}
use avent.Base.Words
use avent.Mm.Addr.{page_size}
use avent.Mm.Addr.Phys.{PhysAddr}
use avent.Mm.Addr.Phys
use avent.Mm.Addr.Virt.{VirtAddr, is_aligned}
use avent.Mm.Allocator.{Memory, store}
use avent.Mm.Addr.Align.{is_aligned-eq-mod}
use avent.Mm.Frame
use avent.Mm.Frame.{PhysFrame, frame_at}
use avent.Paging.Flags.{PageFlags, MapError, already_mapped, UnmapError, not_mapped, huge_page}
use avent.Paging.Flags
use avent.Paging.Entry.{
  phys_mask, PageTableEntry, is_present, is_huge, frame, flags, empty, entry_flags_from_page_flags,
  page_flags_from_entry_flags,
}
use avent.Paging.Entry
use avent.Paging.Entry.Fields.{new-fields}
use avent.Paging.Entry.Convert.{entry_flags-fields, page_flags-entry_flags}
use avent.Paging.Mapper.{PageTableMapper, and_then, walk, translate}
use avent.Paging.Mapper.Walk.{and_then-some, some_injective}

abbrev pub with_flags : Option PhysAddr → PageFlags → Option (PhysAddr × PageFlags)
with_flags o fl = elim o [ none ↦ none | some phys ↦ some (phys, fl) ]

-- What `translate` makes of the frame and the entry.
abbrev pub translated : PhysFrame → PageTableEntry → VirtAddr → Option (PhysAddr × PageFlags)
translated f e virt =
    with_flags (Phys.checked_add f.base (bit_and virt (page_size - 1)))
      (page_flags_from_entry_flags (flags e))

-- The leaf entry behind a translation.
pub record Mapped (self : PageTableMapper) (m : Memory) (virt : VirtAddr)
    (to : PhysAddr × PageFlags) : Type 0 where
  pub leaf : ℕ
  pub held : PhysFrame
  pub walks : walk self m virt ≡ done (some leaf)
  pub on : is_present (m leaf) ≡ true
  pub has : frame (m leaf) ≡ done (some held)
  pub gives : translated held (m leaf) virt ≡ some to

pub translate-Mapped :
    (self : PageTableMapper) (m : Memory) (virt : VirtAddr) (to : PhysAddr × PageFlags)
    → translate self m virt ≡ done (some to)
    → Mapped self m virt to
unfolding translate
translate-Mapped self m virt to e =
    let (leaf, walks, e1) = and_then-some (walk self m virt) _ to e in
    elim (Bool-cases (is_present (m leaf))) [
      | inl on ↦
          let e2 : and_then (frame (m leaf)) (λ f. done (translated f (m leaf) virt))
              ≡ done (some to) =
            rw on at e1 in
          let (f, has, e3) =
            and_then-some (frame (m leaf)) (λ f. done (translated f (m leaf) virt)) to e2 in
          record {
            leaf = leaf;
            held = f;
            walks = walks;
            on = on;
            has = has;
            gives = done_injective (translated f (m leaf) virt) (some to) e3;
          }
      | inr off ↦ absurd (some_or_none (done none) to (rw off at e1) refl)
    ]

pub first_of :
    (o : Option PhysAddr) (fl : PageFlags) (to : PhysAddr × PageFlags)
    → with_flags o fl ≡ some to
    → o ≡ some to.0
first_of none fl to e = absurd (some_or_none (done none) to (ap done e) refl)
first_of (some p) fl to e =
    ap some (ap (λ (q : PhysAddr × PageFlags). q.0) (some_injective (p, fl) to e))

pub checked_add_zero : (b p : PhysAddr) → Phys.checked_add b 0 ≡ some p → p ≡ b
checked_add_zero b p e = ground (arith, e)

pub offset_zero :
    (virt : VirtAddr) → is_aligned virt page_size ≡ done true → bit_and virt (page_size - 1) ≡ 0
unfolding is_aligned Words.is_power_of_two
offset_zero virt a = (==_iff (bit_and virt (page_size - 1)) 0).0 (done_injective _ _ a)

-- An aligned address has offset 0, so the translation is the base of the frame.
pub aligned-base :
    (virt : VirtAddr) (f : PhysFrame) (e : PageTableEntry) (to : PhysAddr × PageFlags)
    → is_aligned virt page_size ≡ done true
    → translated f e virt ≡ some to
    → to.0 ≡ f.base
aligned-base virt f e to a g = checked_add_zero f.base to.0 (
    first_of (Phys.checked_add f.base 0) (page_flags_from_entry_flags (flags e)) to (
      subst
        (λ k.
          with_flags (Phys.checked_add f.base k) (page_flags_from_entry_flags (flags e)) ≡ some to)
        (offset_zero virt a) g))

pub translate-leaf :
    (self : PageTableMapper) (m : Memory) (virt : VirtAddr) (leaf : ℕ) (f : PhysFrame)
    → walk self m virt ≡ done (some leaf)
    → is_present (m leaf) ≡ true
    → frame (m leaf) ≡ done (some f)
    → translate self m virt ≡ done (translated f (m leaf) virt)
unfolding translate
translate-leaf self m virt leaf f e on has = rw (translate, e, on, has) refl

pub store-at : (m : Memory) (at v : ℕ) → store m at v at ≡ v
store-at m at v = ground arith

-- An entry made of an aligned frame below 2 ^ 52 and the flags of page flags.
module _ (f : PhysFrame) (pf : PageFlags) (inside : f.base < 2 ^ 52)
    (aligned : f.base % page_size ≡ 0) (p : pf < 64) where
  abbrev pub made : PageTableEntry
  made = Entry.new f (entry_flags_from_page_flags pf)

  pub made-flags : flags made ≡ entry_flags_from_page_flags pf
  made-flags =
      let (small, apart, on, huge) = entry_flags-fields pf p in
      (new-fields f (entry_flags_from_page_flags pf) inside aligned small apart).0

  pub made-frame : frame made ≡ done (some f)
  made-frame =
      let (small, apart, on, huge) = entry_flags-fields pf p in
      (new-fields f (entry_flags_from_page_flags pf) inside aligned small apart).1 on

  pub made-on : is_present made ≡ true
  unfolding is_present
  made-on = rw made-flags (entry_flags-fields pf p).2

  pub made-small : is_huge made ≡ false
  unfolding is_huge
  made-small = rw made-flags (entry_flags-fields pf p).3

  -- What `translate` reads from such an entry, for an aligned address.
  pub made-translated :
      (virt : VirtAddr)
      → is_aligned virt page_size ≡ done true
      → translated f made virt ≡ some (f.base, Flags.or pf Flags.read)
  made-translated virt a =
      let zero_offset = offset_zero virt a in
      let sum : Phys.checked_add f.base 0 ≡ some f.base = ground (arith, inside) in
      ap (λ k. with_flags (Phys.checked_add f.base k) (page_flags_from_entry_flags (flags made)))
        zero_offset
      ∙ ap (λ o. with_flags o (page_flags_from_entry_flags (flags made))) sum
      ∙ ap (λ fl. with_flags (some f.base) (page_flags_from_entry_flags fl)) made-flags
      ∙ ap (λ fl. with_flags (some f.base) fl) (page_flags-entry_flags pf p)

pub from_base-aligned :
    (b : PhysAddr) (f : PhysFrame)
    → Frame.from_base page_size b ≡ done (some f)
    → f.base % page_size ≡ 0
unfolding Frame.from_base Words.is_power_of_two
from_base-aligned b f h = elim (Bool-cases (b % page_size == 0)) [
  | inl e ↦
      let found : done (some (frame_at b)) ≡ done (some f) =
        rw (is_aligned-eq-mod b page_size refl, e) at h in
      let same =
        some_injective (frame_at b) f (done_injective (some (frame_at b)) (some f) found) in
      subst (λ (g : PhysFrame). g.base % page_size ≡ 0) same ((==_iff (b % page_size) 0).0 e)
  | inr e ↦
      absurd (some_or_none (done none) f (rw (is_aligned-eq-mod b page_size refl, e) at h) refl)
]

pub frame-aligned :
    (e : PageTableEntry) (f : PhysFrame) → frame e ≡ done (some f) → f.base % page_size ≡ 0
unfolding frame
frame-aligned e f h = elim (Bool-cases (is_present e)) [
  | inl on ↦ from_base-aligned (bit_and e phys_mask) f (rw on at h)
  | inr off ↦ absurd (some_or_none (done none) f (rw off at h) refl)
]

-- A translation is below 2 ^ 52.
pub translated-bound :
    (o : Option PhysAddr) (fl : PageFlags) (b : PhysAddr) (to : PhysAddr × PageFlags)
    → Phys.checked_add b 0 ≡ o
    → with_flags o fl ≡ some to
    → b < 2 ^ 52
translated-bound none fl b to e g = absurd (some_or_none (done none) to (ap done g) refl)
translated-bound (some q) fl b to e g = ground (arith, e)

-- The frame behind a translation of an aligned address is below 2 ^ 52.
pub held-bound :
    (virt : VirtAddr) (f : PhysFrame) (e : PageTableEntry) (to : PhysAddr × PageFlags)
    → is_aligned virt page_size ≡ done true
    → translated f e virt ≡ some to
    → f.base < 2 ^ 52
held-bound virt f e to a g =
    translated-bound (Phys.checked_add f.base 0) (page_flags_from_entry_flags (flags e)) f.base to
      refl
      (ap (λ k. with_flags (Phys.checked_add f.base k) (page_flags_from_entry_flags (flags e)))
          (sym (offset_zero virt a))
        ∙ g)

-- Where a walk ends at an entry made of the frame and flags, `translate` gives them.
pub stored-translate :
    (self : PageTableMapper) (n : Memory) (virt : VirtAddr) (leaf : ℕ) (f : PhysFrame)
    (pf : PageFlags) (inside : f.base < 2 ^ 52) (aligned : f.base % page_size ≡ 0) (p : pf < 64)
    → is_aligned virt page_size ≡ done true
    → walk self n virt ≡ done (some leaf)
    → n leaf ≡ made f pf inside aligned p
    → translate self n virt ≡ done (some (f.base, Flags.or pf Flags.read))
stored-translate self n virt leaf f pf inside aligned p a w reads =
    translate-leaf self n virt leaf f w (ap is_present reads ∙ made-on f pf inside aligned p)
      (ap frame reads ∙ made-frame f pf inside aligned p)
    ∙ ap (λ e. done (translated f e virt)) reads
    ∙ ap done (made-translated f pf inside aligned p virt a)
