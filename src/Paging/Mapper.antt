-- ===== src/Paging/Mapper.antt =====
-- eira/src/arch/x86_64/paging/mapper.rs: the walk through four levels of tables in physical memory, and
-- the calls of the `Mapper` trait. A table is the address of its first entry in the direct map, a
-- reference to an entry is the entry's address, and an `OwnedFrame` is its frame.
pub mod Leaf
pub mod Map
pub mod Unmap
pub mod Store
pub mod Walk
use avent.Base.Words.{add}
use avent.Base.{
  ℕ, ◌+◌, ◌-◌, ◌*◌, ◌%◌, bit_and, Bool, true, false, not, ◌&&◌, ◌||◌, Option, none, some, Outcome,
  done, ◌>>=◌, leb, ltb, ◌==◌, if◌then◌else◌,
}
use avent.Mm.Addr.{page_size}
use avent.Mm.Addr.Phys.{PhysAddr}
use avent.Mm.Addr.Phys
use avent.Mm.Addr.Virt.{VirtAddr}
use avent.Mm.Addr.Virt
use avent.Mm.Frame.{PhysFrame}
use avent.Mm.Allocator.{Memory, store}
use avent.Mm.Init.{FrameAllocator, allocate}
use avent.Paging.Flags.{
  PageFlags, MapError, already_mapped, frame_allocation_failed, UnmapError, not_mapped, huge_page,
}
use avent.Paging.Flags
use avent.Paging.Entry.{
  PageTableEntry, is_present, is_huge, frame, flags, empty, entry_flags_from_page_flags,
  page_flags_from_entry_flags,
}
use avent.Paging.Entry
use avent.Paging.Table.{PageTableLevel, one, two, three, four, index_of, entry_count}

-- `Result`
pub data Result (A E : Type 0) : Type 0 where
  ok : A → Result A E
  err : E → Result A E

abbrev pub TlbFlush : Type 0
TlbFlush = VirtAddr

pub record PageTableMapper : Type 0 where
  pub pml4 : PhysFrame
  pub hhdm_offset : ℕ

-- The frame allocator and the memory, which the calls share.
pub record Machine : Type 0 where
  pub frames : FrameAllocator
  pub memory : Memory

abbrev pub phys_to_virt : PhysAddr → ℕ → Outcome ℕ
phys_to_virt phys hhdm = add phys hhdm

abbrev pub table_at_frame : PhysFrame → ℕ → Outcome ℕ
table_at_frame f hhdm = phys_to_virt f.base hhdm

-- The address of the entry of a table for `virt`; an entry has 8 bytes.
abbrev pub entry_at : ℕ → PageTableLevel → VirtAddr → ℕ
entry_at table level virt = table + 8 * index_of level virt

-- `PageTable::zero` of the table in memory.
abbrev pub zero_table : Memory → ℕ → Memory
zero_table memory table a =
    if leb table a && ltb a (table + 8 * entry_count) && ((a - table) % 8 == 0)
    then empty
    else memory a

-- The frame of the entry, if it has one.
abbrev pub frame_table : PageTableEntry → ℕ → Outcome (Option ℕ)
frame_table e hhdm = do
  f ← frame e
  elim f [ none ↦ done none | some f ↦ do table ← table_at_frame f hhdm; done (some table) ]

-- One level of `walk`: the table behind the entry. The entry of level 4 is not tested for `is_huge`.
unfoldable pub walk_level : ℕ → Memory → ℕ → PageTableLevel → VirtAddr → Outcome (Option ℕ)
walk_level hhdm memory table level virt =
    let e = memory (entry_at table level virt) in
    if not (is_present e) || (is_huge e && not (elim level [ four ↦ true | _ ↦ false ]))
    then done none
    else frame_table e hhdm

-- `?` on the `Option` that a call returns.
abbrev pub and_then {ℓ κ} :
    {A : Type ℓ} {B : Type κ} → Outcome (Option A) → (A → Outcome (Option B)) → Outcome (Option B)
and_then o f = o >>= λ a. elim a [ none ↦ done none | some b ↦ f b ]

unfoldable pub walk : PageTableMapper → Memory → VirtAddr → Outcome (Option ℕ)
walk self memory virt = do
  let hhdm = self.hhdm_offset
  l4 ← table_at_frame self.pml4 hhdm
  and_then (walk_level hhdm memory l4 four virt) (λ l3.
      and_then (walk_level hhdm memory l3 three virt) (λ l2.
        and_then (walk_level hhdm memory l2 two virt) (λ l1. done (some (entry_at l1 one virt)))))

-- The table behind an entry that is present.
unfoldable pub open_table : ℕ → PageTableEntry → Outcome (Result ℕ MapError)
open_table hhdm e = if is_huge e then done (err already_mapped) else do
  table ← frame_table e hhdm
  done (elim table [ none ↦ err frame_allocation_failed | some t ↦ ok t ])

-- The macro `next_table!` of `walk_or_create`.
unfoldable pub next_table : ℕ → Bool → Machine → ℕ → Outcome (Machine × Result ℕ MapError)
next_table hhdm alloc st entry =
    if is_present (st.memory entry)
    then (do found ← open_table hhdm (st.memory entry); done (st, found))
    else if not alloc
    then done (st, err frame_allocation_failed)
    else do
      (frames, frame) ← allocate st.frames st.memory
      ptr ← phys_to_virt frame.base hhdm
      let memory = zero_table st.memory ptr
      let e = Entry.new frame (Entry.or (Entry.or Entry.present Entry.writable) Entry.user)
      let memory = store memory entry e
      found ← open_table hhdm e
      done (record { frames = frames; memory = memory }, found)

-- `?` on the `Result` of `next_table!`.
abbrev pub and_next :
    Outcome (Machine × Result ℕ MapError)
    → (Machine → ℕ → Outcome (Machine × Result ℕ MapError))
    → Outcome (Machine × Result ℕ MapError)
and_next o f = o >>= λ r. elim r.1 [ err e ↦ done (r.0, err e) | ok table ↦ f r.0 table ]

unfoldable pub walk_or_create :
    PageTableMapper → Machine → VirtAddr → Bool → Outcome (Machine × Result ℕ MapError)
walk_or_create self st virt alloc = do
  let hhdm = self.hhdm_offset
  l4 ← table_at_frame self.pml4 hhdm
  and_next (next_table hhdm alloc st (entry_at l4 four virt)) (λ st l3.
      and_next (next_table hhdm alloc st (entry_at l3 three virt)) (λ st l2.
        and_next (next_table hhdm alloc st (entry_at l2 two virt))
          (λ st l1. done (st, ok (entry_at l1 one virt)))))

unfoldable pub map :
    PageTableMapper
    → Machine
    → VirtAddr
    → PhysFrame
    → PageFlags
    → Outcome (Machine × Result TlbFlush (PhysFrame × MapError))
map self st virt frame flags = do
  aligned ← Virt.is_aligned virt page_size
  if not aligned || not (Virt.is_canonical virt)
      then done (st, err (frame, MapError.unaligned_address))
      else do
        (st, leaf) ← walk_or_create self st virt true
        elim leaf [
          | err e ↦ done (st, err (frame, e))
          | ok leaf ↦
              if is_present (st.memory leaf)
              then done (st, err (frame, already_mapped))
              else done (
                record st {
                  memory =
                      store st.memory leaf (Entry.new frame (entry_flags_from_page_flags flags));
                },
                ok virt,
              )
        ]

-- One level of `unmap`: the table behind the entry. The entry of level 4 is not tested for `is_huge`.
unfoldable pub unmap_level :
    ℕ → Memory → ℕ → PageTableLevel → VirtAddr → Outcome (Result ℕ UnmapError)
unmap_level hhdm memory table level virt =
    let e = memory (entry_at table level virt) in
    if not (is_present e)
    then done (err not_mapped)
    else if is_huge e && not (elim level [ four ↦ true | _ ↦ false ])
    then done (err huge_page)
    else do table ← frame_table e hhdm; done (elim table [ none ↦ err not_mapped | some t ↦ ok t ])

-- `?` on the `Result` of a level of `unmap`.
abbrev pub and_unmap :
    Machine
    → Outcome (Result ℕ UnmapError)
    → (ℕ → Outcome (Machine × Result (PhysFrame × TlbFlush) UnmapError))
    → Outcome (Machine × Result (PhysFrame × TlbFlush) UnmapError)
and_unmap st o f = o >>= λ r. elim r [ err e ↦ done (st, err e) | ok table ↦ f table ]

unfoldable pub unmap :
    PageTableMapper
    → Machine
    → VirtAddr
    → Outcome (Machine × Result (PhysFrame × TlbFlush) UnmapError)
unmap self st virt = do
  aligned ← Virt.is_aligned virt page_size
  if not aligned then done (st, err UnmapError.unaligned_address) else do
    let hhdm = self.hhdm_offset
    l4 ← table_at_frame self.pml4 hhdm
    and_unmap st (unmap_level hhdm st.memory l4 four virt) (λ l3.
        and_unmap st (unmap_level hhdm st.memory l3 three virt) (λ l2.
          and_unmap st (unmap_level hhdm st.memory l2 two virt) (λ l1.
            let leaf = entry_at l1 one virt in
            if not (is_present (st.memory leaf)) then done (st, err not_mapped) else do
              f ← frame (st.memory leaf)
              elim f [
                | none ↦ done (st, err not_mapped)
                | some f ↦ done (record st { memory = store st.memory leaf empty }, ok (f, virt))
              ])))

unfoldable pub translate :
    PageTableMapper → Memory → VirtAddr → Outcome (Option (PhysAddr × PageFlags))
translate self memory virt = and_then (walk self memory virt) (λ leaf.
    if not (is_present (memory leaf))
    then done none
    else and_then (frame (memory leaf)) (λ f.
      let page_offset = bit_and virt (page_size - 1) in
      done (elim (Phys.checked_add f.base page_offset) [
        | none ↦ none
        | some phys ↦ some (phys, page_flags_from_entry_flags (flags (memory leaf)))
      ])))

unfoldable pub remap :
    PageTableMapper
    → Machine
    → VirtAddr
    → PageFlags
    → Outcome (Machine × Result TlbFlush UnmapError)
remap self st virt new_flags = do
  aligned ← Virt.is_aligned virt page_size
  if not aligned then done (st, err UnmapError.unaligned_address) else do
    (st, leaf) ← walk_or_create self st virt false
    elim leaf [
      | err e ↦ done (st, err not_mapped)
      | ok leaf ↦
          if not (is_present (st.memory leaf))
          then done (st, err not_mapped)
          else if is_huge (st.memory leaf)
          then done (st, err huge_page)
          else do
            f ← frame (st.memory leaf)
            elim f [
              | none ↦ done (st, err not_mapped)
              | some f ↦ done (
                record st {
                  memory =
                      store st.memory leaf (Entry.new f (entry_flags_from_page_flags new_flags));
                },
                ok virt,
              )
            ]
    ]
