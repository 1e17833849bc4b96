-- ===== src/Mm/Addr/Phys.antt =====
-- `PhysAddr` of eira/src/mm/addr.rs.
use avent.Base.Words
use avent.Base.Words.{complement, is_power_of_two}
use avent.Base.{
  ℕ, ◌-◌, ◌^◌, bit_and, Bool, Option, none, some, Outcome, done, assert, ◌>>◌, leb, ◌==◌,
  if◌then◌else◌,
}

abbrev pub PhysAddr : Type 0
PhysAddr = ℕ

-- PhysAddr::MAX
abbrev pub max_addr : PhysAddr
max_addr = 2 ^ 52 - 1

abbrev pub new : ℕ → Option PhysAddr
new addr = if leb addr max_addr then some addr else none

unfoldable pub new_truncate : ℕ → PhysAddr
new_truncate addr = bit_and addr max_addr

unfoldable pub is_aligned : PhysAddr → ℕ → Outcome Bool
is_aligned self align = do assert (is_power_of_two align); done (bit_and self (align - 1) == 0)

unfoldable pub align_down : PhysAddr → ℕ → Outcome PhysAddr
align_down self align = do
  assert (is_power_of_two align)
  done (bit_and self (complement (align - 1)))

unfoldable pub align_up : PhysAddr → ℕ → Outcome (Option PhysAddr)
align_up self align = do
  assert (is_power_of_two align)
  let mask = align - 1
  done (elim (Words.checked_add self mask) [
    | some v ↦ new (bit_and v (complement mask))
    | none ↦ none
  ])

abbrev pub checked_add : PhysAddr → ℕ → Option PhysAddr
checked_add self rhs = elim (Words.checked_add self rhs) [ some v ↦ new v | none ↦ none ]

abbrev pub checked_sub : PhysAddr → ℕ → Option PhysAddr
checked_sub self rhs = elim (Words.checked_sub self rhs) [ some v ↦ some v | none ↦ none ]
