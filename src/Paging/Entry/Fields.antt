-- ===== src/Paging/Entry/Fields.antt =====
-- The frame and the flags of an entry.
use avent.Base.Bits.{
  bit_ext, bit_at-and, bit_at-or, bit_at-not, bit_at-mask, bit_at-zero_of_eq, bit_and_high,
  bit_at_bound,
}
use avent.Base.Words.{is_power_of_two}
use avent.Base.{
  ℕ, ◌-◌, ◌%◌, ◌<◌, ◌^◌, bit_and, bit_or, true, false, none, some, done, ◌≡◌, refl, ◌∙◌, arith,
  ◌==◌,
}
use avent.Mm.Addr.{page_size}
use avent.Mm.Addr.Align.{is_aligned-eq-mod}
use avent.Mm.Frame.{PhysFrame, from_base}
use avent.Paging.Entry.{
  EntryFlags, phys_mask, complement, present, contains, new, flags, frame, is_present,
}

-- Within the mask the frame is left, outside it the flags.
masked :
    (a f : ℕ)
    → f < 2 ^ 64
    → bit_and f phys_mask ≡ 0
    → (bit_and (bit_or (bit_and a phys_mask) f) phys_mask ≡ bit_and a phys_mask)
      × (bit_and (bit_or (bit_and a phys_mask) f) (complement phys_mask) ≡ f)
masked a f small apart = (
  bit_ext _ _ (λ i. omega (
    arith,
    bit_at-and i (bit_or (bit_and a phys_mask) f) phys_mask,
    bit_at-or i (bit_and a phys_mask) f,
    bit_at-and i a phys_mask,
    bit_at-and i f phys_mask,
    bit_at-zero_of_eq i (bit_and f phys_mask) apart,
  )),
  bit_ext _ _ (λ i. omega (
    arith,
    bit_at-and i (bit_or (bit_and a phys_mask) f) (complement phys_mask),
    bit_at-or i (bit_and a phys_mask) f,
    bit_at-and i a phys_mask,
    bit_at-and i f phys_mask,
    bit_at-zero_of_eq i (bit_and f phys_mask) apart,
    bit_at-not 64 i phys_mask (omega arith),
    bit_at-mask 64 i f small,
    bit_at_bound i a,
    bit_at_bound i f,
    bit_at_bound i phys_mask,
    bit_at_bound i (2 ^ 64 - 1),
  )),
)

module _ (f : PhysFrame) (fl : EntryFlags) (inside : f.base < 2 ^ 52)
    (aligned : f.base % page_size ≡ 0) (small : fl < 2 ^ 64)
    (apart : bit_and fl phys_mask ≡ 0) where
  address : bit_and f.base phys_mask ≡ f.base
  address = bit_and_high 52 12 f.base (omega arith) inside ∙ omega (arith, aligned)

  flags-new : flags (new f fl) ≡ fl
  unfolding flags new
  flags-new = (masked f.base fl small apart).1

  base-new : bit_and (new f fl) phys_mask ≡ f.base
  unfolding new
  base-new = (masked f.base fl small apart).0 ∙ address

  from_base-aligned : from_base page_size f.base ≡ done (some f)
  unfolding from_base is_power_of_two
  from_base-aligned =
      let even : (f.base % page_size == 0) ≡ true = rw aligned refl in
      rw (is_aligned-eq-mod f.base page_size refl, even) refl

  frame-new : contains fl present ≡ true → frame (new f fl) ≡ done (some f)
  unfolding frame is_present
  frame-new on = rw (flags-new, on, base-new) from_base-aligned

  frame_absent : contains fl present ≡ false → frame (new f fl) ≡ done none
  unfolding frame is_present
  frame_absent off = rw (flags-new, off) refl

  -- For a page-aligned frame below 2 ^ 52 and flags of 64 bits outside the address field: an entry
  -- made of them has these flags; if they say that it is present, it has this frame, and if not, none.
  pub new-fields :
      (flags (new f fl) ≡ fl)
      × (contains fl present ≡ true → frame (new f fl) ≡ done (some f))
      × (contains fl present ≡ false → frame (new f fl) ≡ done none)
  new-fields = (flags-new, frame-new, frame_absent)
