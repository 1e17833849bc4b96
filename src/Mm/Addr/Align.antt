-- ===== src/Mm/Addr/Align.antt =====
-- Rounding of physical addresses: what `align_down`, `align_up` and `is_aligned` compute.
use native.Mathlib.Nat.{mod-lt}
use avent.Base.Words.{
  is_power_of_two, power_pos, power_le, round_down_mod, multiples_close, round_down, low_part,
  usize_values,
}
use avent.Base.{
  ℕ, ◌+◌, ◌-◌, ◌%◌, ◌≤◌, ◌<◌, true, Option, none, some, done, ◌≡◌, lt→ltb, leb→le, leb→lt,
  Bool-cases, inl, inr, leb, ◌==◌, arith,
}
use avent.Mm.Addr.Phys.{max_addr, new, align_up, align_down, is_aligned}

-- `r` is the least multiple of `align` from `addr` on, or `none` where no address is one.
abbrev pub IsLeastAbove : ℕ → ℕ → Option ℕ → Type 0
IsLeastAbove addr align none = (v : ℕ) → v % align ≡ 0 → addr ≤ v → max_addr < v
IsLeastAbove addr align (some v) =
    (v % align ≡ 0) × (addr ≤ v) × (v ≤ max_addr) × (v < addr + align)

pub align_down-eq-sub :
    (addr align : ℕ)
    → addr < usize_values
    → is_power_of_two align ≡ true
    → align_down addr align ≡ done (addr - addr % align)
unfolding align_down
align_down-eq-sub addr align b p = rw p (rw (round_down addr align b p))

pub is_aligned-eq-mod :
    (addr align : ℕ)
    → is_power_of_two align ≡ true
    → is_aligned addr align ≡ done (addr % align == 0)
unfolding is_aligned
is_aligned-eq-mod addr align p = rw p (rw (low_part addr align p))

-- What `align_up` rounds to, before the check against `MAX`.
abbrev pub rounded : ℕ → ℕ → ℕ
rounded addr align = let v = addr + (align - 1) in v - v % align

module _ (addr align : ℕ) (valid : addr ≤ max_addr) (p : is_power_of_two align ≡ true) where
  pub align_up-eq-new : align_up addr align ≡ done (new (rounded addr align))
  unfolding align_up
  align_up-eq-new = rw p (
      rw (lt→ltb (addr + (align - 1)) usize_values (omega (arith, power_le align p)))
        (rw (round_down (addr + (align - 1)) align (omega (arith, power_le align p)) p)))

  -- The result of `align_up`.
  pub up : Option ℕ
  up = new (rounded addr align)

  -- For a valid address and a power of two, `align_up` gives the least multiple of `align` that is
  -- not below the address, or `None` exactly where every such multiple exceeds `MAX`.
  align_up-IsLeastAbove : (align_up addr align ≡ done up) × IsLeastAbove addr align up
  unfolding up
  align_up-IsLeastAbove = (align_up-eq-new, least)
    where
      v : ℕ
      v = rounded addr align

      multiple : v % align ≡ 0
      multiple = round_down_mod (addr + (align - 1)) align (power_pos align p)

      below : v < addr + align
      below = omega (arith, power_pos align p)

      close : (w : ℕ) → w % align ≡ 0 → addr ≤ w → v ≤ w
      close w m h = multiples_close align w v m multiple (omega (arith, below))

      above : addr ≤ v
      above = omega (arith, power_pos align p, mod-lt (addr + (align - 1)) (power_pos align p))

      least : IsLeastAbove addr align (new v)
      least = elim (Bool-cases (leb v max_addr)) [
        | inl e ↦ rw e (multiple, above, leb→le _ _ e, below)
        | inr e ↦ rw e (λ w m h. omega (arith, leb→lt v max_addr e, close w m h))
      ]
