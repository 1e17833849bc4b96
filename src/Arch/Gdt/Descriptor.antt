-- ===== src/Arch/Gdt/Descriptor.antt =====
-- What the processor reads out of a system descriptor, and that `set_tss` writes it.
use avent.Base.Bits.{bit_and_mask, or_shift, or_zero}
use avent.Base.Words.{usize_values}
use avent.Base.{ℕ, ◌+◌, ◌-◌, ◌*◌, ◌/◌, ◌%◌, ◌^◌, ◌<◌, ◌≡◌, arith}
use avent.Arch.Gdt.{Gdt, set_tss, tss_size}

abbrev pub descriptor_base : ℕ → ℕ → ℕ
descriptor_base low high =
    low / 2 ^ 16 % 2 ^ 24 + low / 2 ^ 56 % 2 ^ 8 * 2 ^ 24 + high % 2 ^ 32 * 2 ^ 32

abbrev pub descriptor_limit : ℕ → ℕ
descriptor_limit low = low % 2 ^ 16 + low / 2 ^ 48 % 2 ^ 4 * 2 ^ 16

-- Type and S bit, DPL, and P bit.
abbrev pub descriptor_access : ℕ → ℕ
descriptor_access low = low / 2 ^ 40 % 2 ^ 8

-- The lower word as a sum of its fields.
tss_low-sum :
    (self : Gdt) (base : ℕ)
    → (set_tss self base).tss_low
      ≡ 103 + base % 2 ^ 24 * 2 ^ 16 + 9 * 2 ^ 40 + 2 ^ 47 + base / 2 ^ 24 % 2 ^ 8 * 2 ^ 56
unfolding set_tss
tss_low-sum self base =
    let low = base % 2 ^ 24 in
    let mid = base / 2 ^ 24 % 2 ^ 8 in
    let x1 = 103 + low * 2 ^ 16 in
    let x2 = x1 + 9 * 2 ^ 40 in
    let x3 = x2 + 1 * 2 ^ 47 in
    let shifted_low : low * 2 ^ 16 % usize_values ≡ low * 2 ^ 16 = omega arith in
    let shifted_mid : mid * 2 ^ 56 % usize_values ≡ mid * 2 ^ 56 = omega arith in
    rw
      (
        bit_and_mask 24 base,
        bit_and_mask 8 (base / 2 ^ 24),
        shifted_low,
        shifted_mid,
        or_shift 16 103 low (omega arith),
        or_zero x1,
        or_shift 40 x1 9 (omega arith),
        or_shift 47 x2 1 (omega arith),
        or_zero x3,
        or_shift 56 x3 mid (omega arith),
      )
      (omega arith)

-- The descriptor that `set_tss` writes has the address of the segment as its base, the size less one as
-- its limit, and is an available 64-bit task state segment, present, for level 0.
pub set_tss-fields :
    (self : Gdt) (base : ℕ)
    → base < usize_values
    → (descriptor_base (set_tss self base).tss_low (set_tss self base).tss_high ≡ base)
      × (descriptor_limit (set_tss self base).tss_low ≡ tss_size - 1)
      × (descriptor_access (set_tss self base).tss_low ≡ 128 + 9)
unfolding set_tss
set_tss-fields self base h =
    let low = (set_tss self base).tss_low in
    (
      omega (arith, h, tss_low-sum self base),
      omega (arith, h, tss_low-sum self base),
      omega (arith, h, tss_low-sum self base),
    )
