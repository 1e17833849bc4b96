-- ===== src/Base/Bits.antt =====
-- The bits of a number. Two numbers with the same bits are equal, so every law of the bitwise
-- operations reduces to a law of minimum and maximum.
use Prim.Native.Nat.{
  ℕ, zero, suc, ◌+◌, ◌-◌, ◌*◌, ◌/◌, ◌%◌, ◌^◌, ◌≤◌, ◌<◌, min, max, compare, Ordering, bit_and,
  bit_or, digits, bit_and-bitwise, bit_or-bitwise,
}
use mathlib.Core.Path.{◌≡◌, refl, ◌∙◌}
use native.Mathlib.Nat.{pow-suc, one-le-pow, mod-eq_of_lt, mod-le}
use native.Mathlib.Omega.{arith}

-- Bit `i`, counted from the lowest.
abbrev pub bit_at : ℕ → ℕ → ℕ
bit_at zero x = x % 2
bit_at (suc i) x = bit_at i (x / 2)

pub bit_at_bound : (i x : ℕ) → bit_at i x ≤ 1
bit_at_bound zero x = omega arith
bit_at_bound (suc i) x = bit_at_bound i (x / 2)

-- The recursion that the native operations stand for, at any fuel that is enough.
module _ (z : ℕ → ℕ) (f : ℕ → ℕ → ℕ) where
  enough : (n m a b : ℕ) → a ≤ n → a ≤ m → digits z f n a b ≡ digits z f m a b
  enough zero zero a b p q = refl
  enough zero (suc m) zero b p q = refl
  enough zero (suc m) (suc a) b p q = absurd (omega arith)
  enough (suc n) zero zero b p q = refl
  enough (suc n) zero (suc a) b p q = absurd (omega arith)
  enough (suc n) (suc m) zero b p q = refl
  enough (suc n) (suc m) (suc a) b p q =
      omega (arith, enough n m (suc a / 2) (b / 2) (omega arith) (omega arith))

and_low : (a b : ℕ) → bit_and a b ≡ bit_and (a / 2) (b / 2) * 2 + min (a % 2) (b % 2)
and_low zero b = omega (arith, bit_and-bitwise 0 b, bit_and-bitwise 0 (b / 2))
and_low (suc a) b = omega (
  arith,
  bit_and-bitwise (suc a) b,
  bit_and-bitwise (suc a / 2) (b / 2),
  enough (λ _. 0) min a (suc a / 2) (suc a / 2) (b / 2) (omega arith) (omega arith),
)

or_low : (a b : ℕ) → bit_or a b ≡ bit_or (a / 2) (b / 2) * 2 + max (a % 2) (b % 2)
or_low zero b = omega (arith, bit_or-bitwise 0 b, bit_or-bitwise 0 (b / 2))
or_low (suc a) b = omega (
  arith,
  bit_or-bitwise (suc a) b,
  bit_or-bitwise (suc a / 2) (b / 2),
  enough (λ y. y) max a (suc a / 2) (suc a / 2) (b / 2) (omega arith) (omega arith),
)

and_half : (a b : ℕ) → bit_and a b / 2 ≡ bit_and (a / 2) (b / 2)
and_half a b = omega (arith, and_low a b)

or_half : (a b : ℕ) → bit_or a b / 2 ≡ bit_or (a / 2) (b / 2)
or_half a b = omega (arith, or_low a b)

pub bit_at-and : (i a b : ℕ) → bit_at i (bit_and a b) ≡ min (bit_at i a) (bit_at i b)
bit_at-and zero a b = omega (arith, and_low a b)
bit_at-and (suc i) a b = rw (and_half a b) (bit_at-and i (a / 2) (b / 2))

pub bit_at-or : (i a b : ℕ) → bit_at i (bit_or a b) ≡ max (bit_at i a) (bit_at i b)
bit_at-or zero a b = omega (arith, or_low a b)
bit_at-or (suc i) a b = rw (or_half a b) (bit_at-or i (a / 2) (b / 2))

same_bits : (n a b : ℕ) → a ≤ n → b ≤ n → ((i : ℕ) → bit_at i a ≡ bit_at i b) → a ≡ b
same_bits zero a b p q h = omega arith
same_bits (suc n) a b p q h =
    omega (arith, h 0, same_bits n (a / 2) (b / 2) (omega arith) (omega arith) (λ i. h (suc i)))

pub bit_ext : (a b : ℕ) → ((i : ℕ) → bit_at i a ≡ bit_at i b) → a ≡ b
bit_ext a b h = same_bits (a + b) a b (omega arith) (omega arith) h

bit_at-zero : (i : ℕ) → bit_at i 0 ≡ 0
bit_at-zero zero = refl
bit_at-zero (suc i) = bit_at-zero i

and_zero : (a : ℕ) → bit_and a 0 ≡ 0
and_zero a = bit_ext (bit_and a 0) 0 (λ i. omega (arith, bit_at-and i a 0, bit_at-zero i))

pub or_zero : (a : ℕ) → bit_or a 0 ≡ a
or_zero a = bit_ext (bit_or a 0) a (λ i. omega (arith, bit_at-or i a 0, bit_at-zero i))

-- The complement within `w` bits: the bits below `w` are turned over, and none is set above.
pub bit_at-not :
    (w i m : ℕ) → m < 2 ^ w → bit_at i (2 ^ w - 1 - m) + bit_at i m ≡ bit_at i (2 ^ w - 1)
bit_at-not zero i zero h = rw (bit_at-zero i) refl
bit_at-not zero i (suc m) h = absurd (omega arith)
bit_at-not (suc w) zero m h = omega (arith, pow-suc 2 w, one-le-pow w 2)
bit_at-not (suc w) (suc i) m h =
    let top : (2 ^ suc w - 1) / 2 ≡ 2 ^ w - 1 = omega (arith, pow-suc 2 w, one-le-pow w 2) in
    let rest : (2 ^ suc w - 1 - m) / 2 ≡ 2 ^ w - 1 - m / 2 =
      omega (arith, pow-suc 2 w, one-le-pow w 2) in
    rw (top, rest) (bit_at-not w i (m / 2) (omega (arith, pow-suc 2 w)))

-- A word fits below all its bits' mask.
pub bit_at-mask : (w i x : ℕ) → x < 2 ^ w → bit_at i x ≤ bit_at i (2 ^ w - 1)
bit_at-mask w i x h = omega (arith, bit_at-not w i x h)

pub pow_pos : (k : ℕ) → 0 < 2 ^ k
pow_pos k = omega (arith, one-le-pow k 2)

mod_double : (a m : ℕ) → 0 < m → a % (m * 2) ≡ a / 2 % m * 2 + a % 2
mod_double a m h = grind arith

pub bit_and_mask : (k a : ℕ) → bit_and a (2 ^ k - 1) ≡ a % 2 ^ k
bit_and_mask zero a = omega (arith, and_zero a)
bit_and_mask (suc k) a =
    let half : (2 ^ suc k - 1) / 2 ≡ 2 ^ k - 1 = omega (arith, pow-suc 2 k, one-le-pow k 2) in
    let odd : (2 ^ suc k - 1) % 2 ≡ 1 = omega (arith, pow-suc 2 k, one-le-pow k 2) in
    and_low a (2 ^ suc k - 1)
    ∙ rw (half, odd, bit_and_mask k (a / 2), pow-suc 2 k, mod_double a (2 ^ k) (pow_pos k))
        (omega arith)

-- Masking off the low `k` bits of a word of `w` bits rounds it down.
pub bit_and_high : (w k x : ℕ) → k ≤ w → x < 2 ^ w → bit_and x (2 ^ w - 2 ^ k) ≡ x - x % 2 ^ k
bit_and_high w zero x h b = omega (arith, bit_and_mask w x, mod-eq_of_lt b)
bit_and_high zero (suc k) x h b = absurd (omega arith)
bit_and_high (suc w) (suc k) x h b =
    let p = pow-suc 2 w in
    let q = pow-suc 2 k in
    let half : (2 ^ suc w - 2 ^ suc k) / 2 ≡ 2 ^ w - 2 ^ k = omega (arith, p, q) in
    let even : (2 ^ suc w - 2 ^ suc k) % 2 ≡ 0 = omega (arith, p, q) in
    and_low x (2 ^ suc w - 2 ^ suc k)
    ∙ rw
        (
          half,
          even,
          bit_and_high w k (x / 2) (omega arith) (omega (arith, p)),
          q,
          mod_double x (2 ^ k) (pow_pos k),
        )
        (omega (arith, mod-le (x / 2) (2 ^ k)))

-- A single bit, `1 << i`.
pub bit_at-pow : (j i : ℕ) → bit_at j (2 ^ i) ≡ elim (compare j i) [ Ordering.eq ↦ 1 | _ ↦ 0 ]
bit_at-pow zero zero = refl
bit_at-pow (suc j) zero = ground (arith, bit_at-zero j)
bit_at-pow zero (suc i) = ground (arith, pow-suc 2 i)
bit_at-pow (suc j) (suc i) =
    let half : 2 ^ suc i / 2 ≡ 2 ^ i = omega (arith, pow-suc 2 i) in
    rw half (ground (arith, bit_at-pow j i))

-- A power of two is a multiple of each smaller one.
pub pow-mod-pow : (j k : ℕ) → k ≤ j → 2 ^ j % 2 ^ k ≡ 0
pow-mod-pow j zero h = omega arith
pow-mod-pow zero (suc k) h = absurd (omega arith)
pow-mod-pow (suc j) (suc k) h =
    let half : 2 ^ suc j / 2 ≡ 2 ^ j = omega (arith, pow-suc 2 j) in
    let even : 2 ^ suc j % 2 ≡ 0 = omega (arith, pow-suc 2 j) in
    rw (pow-suc 2 k, mod_double (2 ^ suc j) (2 ^ k) (pow_pos k), half, even)
      (omega (arith, pow-mod-pow j k (omega arith)))

pub bit_at-ones : (w i : ℕ) → i < w → bit_at i (2 ^ w - 1) ≡ 1
bit_at-ones zero i h = absurd (omega arith)
bit_at-ones (suc w) zero h = omega (arith, pow-suc 2 w, one-le-pow w 2)
bit_at-ones (suc w) (suc i) h =
    let half : (2 ^ suc w - 1) / 2 ≡ 2 ^ w - 1 = omega (arith, pow-suc 2 w, one-le-pow w 2) in
    rw half (bit_at-ones w i (omega arith))

pub bit_at-zero_of_eq : (i x : ℕ) → x ≡ 0 → bit_at i x ≡ 0
bit_at-zero_of_eq i x h = rw h (bit_at-zero i)

-- Testing a single bit.
pub and_bit_zero : (i x : ℕ) → bit_at i x ≡ 0 → bit_and x (2 ^ i) ≡ 0
and_bit_zero i x h =
    bit_ext (bit_and x (2 ^ i)) 0
      (λ j. ground (arith, bit_at-and j x (2 ^ i), bit_at-pow j i, bit_at-zero j, same_place j))
  where
    same_place : (j : ℕ) → j ≡ i → bit_at j x ≡ 0
    same_place j e = rw e h

pub and_bit_one : (i x : ℕ) → bit_and x (2 ^ i) ≡ 0 → bit_at i x ≡ 0
and_bit_one i x h = ground (
  arith,
  bit_at-zero_of_eq i (bit_and x (2 ^ i)) h,
  bit_at-and i x (2 ^ i),
  bit_at-pow i i,
  bit_at_bound i x,
)

-- `x | 1 << i`
pub bit_at-set :
    (j i x : ℕ)
    → bit_at j (bit_or x (2 ^ i)) ≡ elim (compare j i) [ Ordering.eq ↦ 1 | _ ↦ bit_at j x ]
bit_at-set j i x = ground (arith, bit_at-or j x (2 ^ i), bit_at-pow j i, bit_at_bound j x)

-- `x & !(1 << i)` in a word of `w` bits.
pub bit_at-clear :
    (w j i x : ℕ)
    → j < w
    → 2 ^ i < 2 ^ w
    → bit_at j (bit_and x (2 ^ w - 1 - 2 ^ i))
      ≡ elim (compare j i) [ Ordering.eq ↦ 0 | _ ↦ bit_at j x ]
bit_at-clear w j i x h fits = ground (
  arith,
  bit_at-and j x (2 ^ w - 1 - 2 ^ i),
  bit_at-not w j (2 ^ i) fits,
  bit_at-ones w j h,
  bit_at-pow j i,
  bit_at_bound j x,
)

-- Fields that do not overlap: `x` below bit `k`, and `y` from it on.
pub or_shift : (k x y : ℕ) → x < 2 ^ k → bit_or x (y * 2 ^ k) ≡ x + y * 2 ^ k
or_shift zero x y h =
    let none_set : x ≡ 0 = omega (arith, h) in
    let plain : y * 2 ^ 0 ≡ y = omega arith in
    rw (none_set, plain)
      (bit_ext (bit_or 0 y) y (λ i. omega (arith, bit_at-or i 0 y, bit_at-zero i)) ∙ omega arith)
or_shift (suc k) x y h =
    let whole : y * 2 ^ suc k ≡ y * 2 ^ k * 2 = rw (pow-suc 2 k) (omega arith) in
    let half : y * 2 ^ k * 2 / 2 ≡ y * 2 ^ k = omega arith in
    let less : x / 2 < 2 ^ k = omega (arith, h, pow-suc 2 k) in
    let upper = or_half x (y * 2 ^ k * 2) in
    let lower = or_low x (y * 2 ^ k * 2) in
    rw whole (omega (arith, (rw half at upper), lower, or_shift k (x / 2) y less))
