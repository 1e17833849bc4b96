-- ===== src/Paging/Table.antt =====
-- eira/src/arch/x86_64/paging/table.rs: the levels of the page tables, and a table of 512 entries.
use avent.Base.Bits.{bit_and_mask}
use avent.Base.{
  ℕ, ◌+◌, ◌-◌, ◌*◌, ◌/◌, ◌%◌, ◌^◌, ◌<◌, bit_and, Bool, true, false, Option, none, some, Outcome,
  done, assert, ◌>>◌, ltb, List, length, get_or, set, replicate, map, ◌≡◌, arith,
}
use avent.Mm.Addr.Virt.{VirtAddr, is_canonical}
use avent.Paging.Entry.{PageTableEntry, empty}

-- ENTRY_COUNT
abbrev pub entry_count : ℕ
entry_count = 512

pub data PageTableLevel : Type 0 where
  one two three four : PageTableLevel

-- `self as u32`
abbrev pub number : PageTableLevel → ℕ
number one = 1
number two = 2
number three = 3
number four = 4

abbrev pub next : PageTableLevel → Option PageTableLevel
next four = some three
next three = some two
next two = some one
next one = none

abbrev pub is_leaf : PageTableLevel → Bool
is_leaf one = true
is_leaf _ = false

abbrev pub index_shift : PageTableLevel → ℕ
index_shift self = 12 + (number self - 1) * 9

unfoldable pub index_of : PageTableLevel → VirtAddr → ℕ
index_of self virt = bit_and (virt / 2 ^ index_shift self) 511

pub record PageTable : Type 0 where
  pub entries : List PageTableEntry

-- `PageTable::new`
abbrev pub new : PageTable
new = record { entries = replicate entry_count empty }

abbrev pub zero_all : PageTable → PageTable
zero_all self = record { entries = map (λ e. empty) self.entries }

unfoldable pub entry : PageTable → ℕ → Outcome PageTableEntry
entry self index = do
  assert (ltb index (length self.entries))
  done (get_or self.entries index empty)

-- A store through `entry_mut`.
unfoldable pub entry_mut : PageTable → ℕ → PageTableEntry → Outcome PageTable
entry_mut self index e = do
  assert (ltb index (length self.entries))
  done (record { entries = set self.entries index e })

index_of-mod : (l : PageTableLevel) (a : ℕ) → index_of l a ≡ a / 2 ^ index_shift l % 512
unfolding index_of
index_of-mod l a = bit_and_mask 9 (a / 2 ^ index_shift l)

pub index_of-lt : (l : PageTableLevel) (a : VirtAddr) → index_of l a < entry_count
index_of-lt l a = rw (index_of-mod l a) (omega arith)

-- The four indices and the offset in the page, each shifted to its place, add up to the low 48 bits
-- of the address.
pub indices-low_bits :
    (a : VirtAddr)
    → a % 2 ^ 48
      ≡ index_of four a * 2 ^ 39
        + index_of three a * 2 ^ 30
        + index_of two a * 2 ^ 21
        + index_of one a * 2 ^ 12
        + a % 2 ^ 12
indices-low_bits a =
    omega (arith, index_of-mod four a, index_of-mod three a, index_of-mod two a, index_of-mod one a)

-- Canonical addresses with the same index at each level and the same offset in the page are the same.
pub indices-injective :
    (a b : VirtAddr)
    → is_canonical a ≡ true
    → is_canonical b ≡ true
    → ((l : PageTableLevel) → index_of l a ≡ index_of l b)
    → a % 2 ^ 12 ≡ b % 2 ^ 12
    → a ≡ b
unfolding is_canonical
indices-injective a b p q h o =
    let low : a % 2 ^ 48 ≡ b % 2 ^ 48 =
      omega (arith, indices-low_bits a, indices-low_bits b, h one, h two, h three, h four) in
    ground (arith, p, q, low)
