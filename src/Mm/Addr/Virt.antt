-- ===== src/Mm/Addr/Virt.antt =====
-- `VirtAddr` of eira/src/mm/addr.rs.
use avent.Base.Words
use avent.Base.Words.{complement, is_power_of_two, usize_values}
use avent.Base.{
  ℕ, ◌+◌, ◌-◌, ◌*◌, ◌/◌, ◌%◌, ◌^◌, bit_and, Bool, ◌||◌, Option, none, some, Outcome, done, assert,
  ◌>>◌, ltb, ◌==◌, if◌then◌else◌,
}

abbrev pub VirtAddr : Type 0
VirtAddr = ℕ

unfoldable pub is_canonical : ℕ → Bool
is_canonical addr = let top = addr / 2 ^ 47 in top == 0 || top == 2 ^ 17 - 1

unfoldable pub new : ℕ → Option VirtAddr
unfolding is_canonical
new addr = if is_canonical addr then some addr else none

-- `as isize >> 16`: the vacated bits copy the sign bit.
abbrev pub arithmetic_shift_16 : ℕ → ℕ
arithmetic_shift_16 x = if ltb x (2 ^ 63) then x / 2 ^ 16 else x / 2 ^ 16 + (2 ^ 64 - 2 ^ 48)

unfoldable pub new_canonical : ℕ → VirtAddr
new_canonical addr = arithmetic_shift_16 (addr * 2 ^ 16 % usize_values)

unfoldable pub is_aligned : VirtAddr → ℕ → Outcome Bool
is_aligned self align = do assert (is_power_of_two align); done (bit_and self (align - 1) == 0)

unfoldable pub align_down : VirtAddr → ℕ → Outcome VirtAddr
align_down self align = do
  assert (is_power_of_two align)
  done (new_canonical (bit_and self (complement (align - 1))))

unfoldable pub align_up : VirtAddr → ℕ → Outcome (Option VirtAddr)
align_up self align = do
  assert (is_power_of_two align)
  let mask = align - 1
  done (elim (Words.checked_add self mask) [
    | some v ↦ some (new_canonical (bit_and v (complement mask)))
    | none ↦ none
  ])
