-- ===== src/Paging/Flags.antt =====
-- `PageFlags` and the errors of eira/src/mm/paging/mod.rs. A set of flags is a number below 256.
use avent.Base.{ℕ, ◌-◌, bit_and, bit_or, Bool, ◌==◌}

abbrev pub PageFlags : Type 0
PageFlags = ℕ

-- READ
abbrev pub read : PageFlags
read = 1

-- WRITE
abbrev pub write : PageFlags
write = 2

-- EXECUTE
abbrev pub execute : PageFlags
execute = 4

-- USER
abbrev pub user : PageFlags
user = 8

-- UNCACHED
abbrev pub uncached : PageFlags
uncached = 16

-- GLOBAL
abbrev pub global : PageFlags
global = 32

abbrev pub empty : PageFlags
empty = 0

abbrev pub kernel_data : PageFlags
kernel_data = bit_or (bit_or read write) global

abbrev pub kernel_code : PageFlags
kernel_code = bit_or (bit_or read execute) global

abbrev pub user_data : PageFlags
user_data = bit_or (bit_or read write) user

abbrev pub user_code : PageFlags
user_code = bit_or (bit_or read execute) user

abbrev pub contains : PageFlags → PageFlags → Bool
contains self other = bit_and self other == other

abbrev pub is_empty : PageFlags → Bool
is_empty self = self == 0

abbrev pub or : PageFlags → PageFlags → PageFlags
or self other = bit_or self other

-- `!` of a `u8`
abbrev pub without : PageFlags → PageFlags → PageFlags
without self other = bit_and self (255 - other)

pub data MapError : Type 0 where
  already_mapped frame_allocation_failed unaligned_address : MapError

pub data UnmapError : Type 0 where
  not_mapped unaligned_address huge_page : UnmapError
