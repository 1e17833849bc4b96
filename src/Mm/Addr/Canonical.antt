-- ===== src/Mm/Addr/Canonical.antt =====
-- Canonical virtual addresses: what `new_canonical` and `align_up` keep, and where they leave the
-- half of the address space that they start in.
use avent.Base.Words.{
  is_power_of_two, power_le, round_down, round_down_mod, multiples_close, power_pos, usize_values,
}
use avent.Base.Bits.{pow-mod-pow}
use native.Mathlib.Nat.{mod-lt, le_antisymm}
use avent.Base.{
  ℕ, ◌+◌, ◌-◌, ◌%◌, ◌^◌, ◌≤◌, ◌<◌, true, Option, some, Outcome, done, ltb, if◌then◌else◌, ◌≡◌, refl,
  arith, lt→ltb,
}
use avent.Mm.Addr.Virt.{VirtAddr, is_canonical, new, new_canonical, align_up}

pub new_canonical_value :
    (a : ℕ)
    → a < usize_values
    → new_canonical a
      ≡ (if ltb (a % 2 ^ 48) (2 ^ 47) then a % 2 ^ 48 else a % 2 ^ 48 + (2 ^ 64 - 2 ^ 48))
unfolding new_canonical
new_canonical_value a h = ground arith

-- From a word `new_canonical` gives a canonical word with the same low 48 bits, and it leaves a word
-- that `new` accepts as it is.
new_canonical_lem :
    (a : ℕ)
    → a < usize_values
    → (is_canonical (new_canonical a) ≡ true)
      × (new_canonical a % 2 ^ 48 ≡ a % 2 ^ 48)
      × (new_canonical a < usize_values)
      × (new a ≡ some a → new_canonical a ≡ a)
unfolding is_canonical new
new_canonical_lem a h = ground (arith, new_canonical_value a h)

-- For a power of two up to 2 ^ 46, an address of the lower half that has no multiple at or above it
-- in that half rounds up to the first address of the upper half.
align_up_crosses :
    (a align k : ℕ)
    → k ≤ 46
    → align ≡ 2 ^ k
    → is_power_of_two align ≡ true
    → a < 2 ^ 47
    → 2 ^ 47 < a + align
    → align_up a align ≡ done (some (2 ^ 64 - 2 ^ 47))
unfolding align_up
align_up_crosses a align k hk e p hi lo = rw p (
    rw (lt→ltb (a + (align - 1)) usize_values fits)
      (rw (round_down (a + (align - 1)) align fits p) (rw at_end top)))
  where
    fits : a + (align - 1) < usize_values
    fits = omega (arith, power_le align p)

    v : ℕ
    v = a + (align - 1) - (a + (align - 1)) % align

    multiple : v % align ≡ 0
    multiple = round_down_mod (a + (align - 1)) align (power_pos align p)

    half : 2 ^ 47 % align ≡ 0
    half = rw e (pow-mod-pow 47 k (omega arith))

    near : (v < 2 ^ 47 + align) × (2 ^ 47 < v + align)
    near = omega (arith, power_pos align p, mod-lt (a + (align - 1)) (power_pos align p))

    at_end : v ≡ 2 ^ 47
    at_end =
        le_antisymm (multiples_close align (2 ^ 47) v half multiple near.0)
          (multiples_close align v (2 ^ 47) multiple half near.1)

    top :
        ◌≡◌ {A = Outcome (Option VirtAddr)}
          (done (some (new_canonical (2 ^ 47))))
          (done (some (2 ^ 64 - 2 ^ 47)))
    top = unfold new_canonical in refl
