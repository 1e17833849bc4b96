-- ===== src/Paging/Entry.antt =====
-- eira/src/arch/x86_64/paging/entry.rs: the entries of a page table and their flags.
pub mod Fields
pub mod Convert
use avent.Base.{
  ℕ, ◌-◌, ◌^◌, bit_and, bit_or, Bool, not, Option, none, Outcome, done, ◌==◌, if◌then◌else◌,
}
use avent.Mm.Addr.{page_size}
use avent.Mm.Frame
use avent.Mm.Frame.{PhysFrame}
use avent.Paging.Flags
use avent.Paging.Flags.{PageFlags}

-- `!` of a `u64`
abbrev pub complement : ℕ → ℕ
complement a = 2 ^ 64 - 1 - a

-- PHYS_MASK
abbrev pub phys_mask : ℕ
phys_mask = 4503599627366400

abbrev pub EntryFlags : Type 0
EntryFlags = ℕ

-- PRESENT
abbrev pub present : EntryFlags
present = 1

-- WRITABLE
abbrev pub writable : EntryFlags
writable = 2

-- USER
abbrev pub user : EntryFlags
user = 4

-- WRITE_THROUGH
abbrev pub write_through : EntryFlags
write_through = 8

-- CACHE_DISABLE
abbrev pub cache_disable : EntryFlags
cache_disable = 16

-- ACCESSED
abbrev pub accessed : EntryFlags
accessed = 32

-- DIRTY
abbrev pub dirty : EntryFlags
dirty = 64

-- HUGE_PAGE
abbrev pub huge_page : EntryFlags
huge_page = 128

-- GLOBAL
abbrev pub global : EntryFlags
global = 256

-- NO_EXECUTE
abbrev pub no_execute : EntryFlags
no_execute = 9223372036854775808

abbrev pub contains : EntryFlags → EntryFlags → Bool
contains self other = bit_and self other == other

abbrev pub is_empty : EntryFlags → Bool
is_empty self = self == 0

abbrev pub or : EntryFlags → EntryFlags → EntryFlags
or self other = bit_or self other

abbrev pub without : EntryFlags → EntryFlags → EntryFlags
without self other = bit_and self (complement other)

-- `ef |= flag`, if the test holds.
abbrev pub or_if : Bool → EntryFlags → EntryFlags → EntryFlags
or_if test ef flag = if test then or ef flag else ef

unfoldable pub entry_flags_from_page_flags : PageFlags → EntryFlags
entry_flags_from_page_flags pf =
    let ef = present in
    let ef = or_if (Flags.contains pf Flags.write) ef writable in
    let ef = or_if (Flags.contains pf Flags.user) ef user in
    let ef = or_if (Flags.contains pf Flags.uncached) ef cache_disable in
    let ef = or_if (Flags.contains pf Flags.global) ef global in
    or_if (not (Flags.contains pf Flags.execute)) ef no_execute

unfoldable pub page_flags_from_entry_flags : EntryFlags → PageFlags
page_flags_from_entry_flags ef =
    let pf = Flags.read in
    let pf = or_if (contains ef writable) pf Flags.write in
    let pf = or_if (contains ef user) pf Flags.user in
    let pf = or_if (contains ef cache_disable) pf Flags.uncached in
    let pf = or_if (contains ef global) pf Flags.global in
    or_if (not (contains ef no_execute)) pf Flags.execute

abbrev pub PageTableEntry : Type 0
PageTableEntry = ℕ

-- EMPTY, and what `clear` stores.
abbrev pub empty : PageTableEntry
empty = 0

unfoldable pub flags : PageTableEntry → EntryFlags
flags self = bit_and self (complement phys_mask)

unfoldable pub is_present : PageTableEntry → Bool
is_present self = contains (flags self) present

unfoldable pub is_huge : PageTableEntry → Bool
is_huge self = contains (flags self) huge_page

unfoldable pub frame : PageTableEntry → Outcome (Option PhysFrame)
frame self =
    if not (is_present self) then done none else Frame.from_base page_size (bit_and self phys_mask)

unfoldable pub new : PhysFrame → EntryFlags → PageTableEntry
new f fl = bit_or (bit_and f.base phys_mask) fl
