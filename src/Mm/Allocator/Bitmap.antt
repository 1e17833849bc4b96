-- ===== src/Mm/Allocator/Bitmap.antt =====
-- The bits of the bitmap: what `mark_allocated`, `mark_free` and `is_allocated` do to each frame's.
use native.Mathlib.Nat.{pow-le-pow_right}
use avent.Base.Bits.{bit_at, bit_at_bound, bit_at-set, bit_at-clear, and_bit_zero, and_bit_one}
use avent.Base.{
  ℕ, ◌-◌, ◌/◌, ◌%◌, ◌^◌, ◌<◌, bit_and, bit_or, List, length, get_or, set, get_or-set_self,
  get_or-set_ne, ◌==◌, if◌then◌else◌, ◌≡◌, arith, inl, inr, Bool-cases,
}
use avent.Mm.Addr.{page_size}
use avent.Mm.Frame.{PhysFrame, index}
use avent.Mm.Allocator.{BitmapAllocator, is_allocated}

-- The bit of the frame with index `i`.
abbrev pub bit_of : List ℕ → ℕ → ℕ
bit_of bitmap i = bit_at (i % 8) (get_or bitmap (i / 8) 0)

-- Writing byte `i / 8` changes that byte only.
byte-set :
    (bitmap : List ℕ) (i j v : ℕ)
    → i / 8 < length bitmap
    → get_or (set bitmap (i / 8) v) (j / 8) 0
      ≡ (if j / 8 == i / 8 then v else get_or bitmap (j / 8) 0)
byte-set bitmap i j v h = elim (Bool-cases (j / 8 == i / 8)) [
  | inl e ↦
      rw e
        (let same : j / 8 ≡ i / 8 = ground arith in rw same (get_or-set_self bitmap (i / 8) v 0 h))
  | inr e ↦ rw e (get_or-set_ne bitmap (i / 8) (j / 8) v 0 (ground arith))
]

pub bit_of-set :
    (bitmap : List ℕ) (i j : ℕ)
    → i / 8 < length bitmap
    → bit_of (set bitmap (i / 8) (bit_or (get_or bitmap (i / 8) 0) (2 ^ (i % 8)))) j
      ≡ (if j == i then 1 else bit_of bitmap j)
bit_of-set bitmap i j h =
    rw (byte-set bitmap i j (bit_or (get_or bitmap (i / 8) 0) (2 ^ (i % 8))) h)
      (ground (arith, bit_at-set (j % 8) (i % 8) (get_or bitmap (i / 8) 0)))

bit_fits : (i : ℕ) → 2 ^ (i % 8) < 2 ^ 8
bit_fits i = omega (arith, pow-le-pow_right {n = 2} (omega arith) {i = i % 8} {j = 7} (omega arith))

pub bit_of-clear :
    (bitmap : List ℕ) (i j : ℕ)
    → i / 8 < length bitmap
    → bit_of (set bitmap (i / 8) (bit_and (get_or bitmap (i / 8) 0) (2 ^ 8 - 1 - 2 ^ (i % 8)))) j
      ≡ (if j == i then 0 else bit_of bitmap j)
bit_of-clear bitmap i j h =
    rw (byte-set bitmap i j (bit_and (get_or bitmap (i / 8) 0) (2 ^ 8 - 1 - 2 ^ (i % 8))) h) (
      ground (
        arith,
        bit_at-clear 8 (j % 8) (i % 8) (get_or bitmap (i / 8) 0) (omega arith) (bit_fits i),
      ))

pub is_allocated-bit :
    (self : BitmapAllocator) (frame : PhysFrame)
    → index page_size frame / 8 < length self.bitmap
    → is_allocated self frame ≡ (bit_of self.bitmap (index page_size frame) == 1)
unfolding is_allocated
is_allocated-bit self frame h =
    let idx = index page_size frame in
    ground (
      arith,
      and_bit_zero (idx % 8) (get_or self.bitmap (idx / 8) 0),
      and_bit_one (idx % 8) (get_or self.bitmap (idx / 8) 0),
      bit_at_bound (idx % 8) (get_or self.bitmap (idx / 8) 0),
    )
