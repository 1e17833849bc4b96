-- ===== src/Mm/AddressSpace/Tree.antt =====
-- The page tables of x86_64 as the mapper of an address space, on tables that are there: the tree of
-- tables that leads to the leaf entries of some addresses, and which pages it shows.
pub mod Stores
pub mod Calls
use avent.Base.{
  ℕ, ◌+◌, ◌*◌, ◌%◌, ◌^◌, ◌<◌, true, false, none, some, Option, done, List, Fresh, ◌≡◌, ◌≢◌,
}
use avent.Mm.Addr.{page_size}
use avent.Mm.Addr.Virt.{VirtAddr, is_canonical}
use avent.Mm.Frame.{PhysFrame}
use avent.Mm.Allocator.{Memory}
use avent.Paging.Flags.{PageFlags}
use avent.Paging.Entry.{PageTableEntry, is_present, is_huge, entry_flags_from_page_flags}
use avent.Paging.Entry
use avent.Paging.Table.{one, two, three, four, index_of}
use avent.Paging.Mapper.{PageTableMapper, table_at_frame, entry_at}
use avent.Paging.Mapper.Walk.{Leads}
use avent.Mm.AddressSpace.Lawful.{Pages}

-- The frame of the root, and of the table of each level behind each address that is reached. A leaf
-- table is no table of another level, and its addresses have the indices in common that lead to it.
pub record Tree : Type 1 where
  pub Reaches : VirtAddr → Type 0
  pub root : ℕ
  pub l3 : VirtAddr → ℕ
  pub l2 : VirtAddr → ℕ
  pub l1 : VirtAddr → ℕ
  pub canonical : (v : VirtAddr) → Reaches v → is_canonical v ≡ true
  pub aligned : (v : VirtAddr) → Reaches v → v % page_size ≡ 0
  pub apart :
      (v w : VirtAddr) → Reaches v → Reaches w → (root ≢ l1 w) × (l3 v ≢ l1 w) × (l2 v ≢ l1 w)
  pub shared :
      (v w : VirtAddr)
      → Reaches v
      → Reaches w
      → l1 v ≡ l1 w
      → (index_of four v ≡ index_of four w)
        × (index_of three v ≡ index_of three w)
        × (index_of two v ≡ index_of two w)

-- The address of the table in a frame.
abbrev pub table_of : ℕ → ℕ → ℕ
table_of hhdm j = j * page_size + hhdm

-- What a leaf entry is for a page.
abbrev pub IsLeaf : Option (PhysFrame × PageFlags) → PageTableEntry → Type 0
IsLeaf none e = is_present e ≡ false
IsLeaf (some (frame, flags)) e =
    (frame.base < 2 ^ 52)
    × (frame.base % page_size ≡ 0)
    × (flags < 64)
    × (e ≡ Entry.new frame (entry_flags_from_page_flags flags))

-- An entry leads to the table in the frame, and is no huge page.
abbrev pub LeadsTo : ℕ → PageTableEntry → ℕ → Type 0
LeadsTo hhdm e j = Leads hhdm e (table_of hhdm j) × (is_huge e ≡ false)

-- The tree is in memory, in frames of the list, and its leaf entries are those of the pages.
pub record IsTree (t : Tree) (self : PageTableMapper) (memory : Memory) (hhdm : ℕ) (tables : List ℕ)
    (pages : Pages) : Type 0 where
  pub same_hhdm : self.hhdm_offset ≡ hhdm
  pub at_root : table_at_frame self.pml4 hhdm ≡ done (table_of hhdm t.root)
  pub at4 :
      (v : VirtAddr)
      → t.Reaches v
      → LeadsTo hhdm (memory (entry_at (table_of hhdm t.root) four v)) (t.l3 v)
  pub at3 :
      (v : VirtAddr)
      → t.Reaches v
      → LeadsTo hhdm (memory (entry_at (table_of hhdm (t.l3 v)) three v)) (t.l2 v)
  pub at2 :
      (v : VirtAddr)
      → t.Reaches v
      → LeadsTo hhdm (memory (entry_at (table_of hhdm (t.l2 v)) two v)) (t.l1 v)
  pub leaves :
      (v : VirtAddr)
      → t.Reaches v
      → IsLeaf (pages v) (memory (entry_at (table_of hhdm (t.l1 v)) one v))
  pub within : (v : VirtAddr) (p : PhysFrame × PageFlags) → pages v ≡ some p → t.Reaches v
  pub owned :
      (v : VirtAddr)
      → t.Reaches v
      → (¬ Fresh t.root tables)
        × (¬ Fresh (t.l3 v) tables)
        × (¬ Fresh (t.l2 v) tables)
        × (¬ Fresh (t.l1 v) tables)
