-- ===== src/Base/Words.antt =====
-- `usize` of a 64-bit target: checked arithmetic, the overflow checks of the dev profile, `!`, and
-- `is_power_of_two`.
use Prim.Native.Nat.{ℕ, zero, suc, ◌+◌, ◌-◌, ◌*◌, ◌%◌, ◌^◌, ◌≤◌, ◌<◌, bit_and}
use mathlib.Core.Path.{◌≡◌}
use mathlib.Core.Logic.{inl, inr}
use mathlib.Core.Bool.{Bool, true, false, ◌||◌}
use mathlib.Core.Option.{Option, none, some}
use native.Mathlib.Omega.{arith}
use native.Mathlib.Nat.{pow-le-pow_right}
use avent.Base.Tests.{ltb, ◌==◌, ==_iff, if◌then◌else◌, Bool-cases}
use avent.Base.Panics.{Outcome, done, panic}
use avent.Base.Bits.{bit_and_mask, bit_and_high, pow_pos}

-- The number of values of `usize`.
abbrev pub usize_values : ℕ
usize_values = 2 ^ 64

abbrev pub usize_max : ℕ
usize_max = 2 ^ 64 - 1

abbrev pub checked_add : ℕ → ℕ → Option ℕ
checked_add a b = if ltb (a + b) usize_values then some (a + b) else none

abbrev pub checked_sub : ℕ → ℕ → Option ℕ
checked_sub a b = if ltb a b then none else some (a - b)

abbrev pub checked_mul : ℕ → ℕ → Option ℕ
checked_mul a b = if ltb (a * b) usize_values then some (a * b) else none

-- `a + b`, `a - b` and `a * b` with overflow checks.
abbrev pub add : ℕ → ℕ → Outcome ℕ
add a b = if ltb (a + b) usize_values then done (a + b) else panic

abbrev pub sub : ℕ → ℕ → Outcome ℕ
sub a b = if ltb a b then panic else done (a - b)

abbrev pub mul : ℕ → ℕ → Outcome ℕ
mul a b = if ltb (a * b) usize_values then done (a * b) else panic

-- `!a`
abbrev pub complement : ℕ → ℕ
complement a = usize_max - a

-- Some power of two below `2 ^ n` equals `a`.
pub is_power_below : ℕ → ℕ → Bool
is_power_below zero a = false
is_power_below (suc n) a = a == 2 ^ n || is_power_below n a

unfoldable pub is_power_of_two : ℕ → Bool
unfolding is_power_below
is_power_of_two a = is_power_below 64 a

power_below_exponent : (n a : ℕ) → is_power_below n a ≡ true → (k : ℕ) × (k < n) × (a ≡ 2 ^ k)
unfolding is_power_below
power_below_exponent zero a h = cc
power_below_exponent (suc n) a h = elim (Bool-cases (a == 2 ^ n)) [
  | inl e ↦ (n, omega arith, (==_iff a (2 ^ n)).0 e)
  | inr e ↦ let (k, p, q) = power_below_exponent n a (rw e at h) in (k, omega arith, q)
]

-- A power of two has its exponent below 64.
pub power_exponent : (a : ℕ) → is_power_of_two a ≡ true → (k : ℕ) × (k < 64) × (a ≡ 2 ^ k)
unfolding is_power_of_two
power_exponent a h = power_below_exponent 64 a h

pub power_pos : (a : ℕ) → is_power_of_two a ≡ true → 0 < a
power_pos a h = let (k, p, q) = power_exponent a h in rw q (pow_pos k)

-- `x & !(a - 1)` rounds down to a multiple of `a`.
pub round_down :
    (x a : ℕ)
    → x < usize_values
    → is_power_of_two a ≡ true
    → bit_and x (complement (a - 1)) ≡ x - x % a
round_down x a hx h =
    let (k, p, q) = power_exponent a h in
    let mask : usize_max - (2 ^ k - 1) ≡ 2 ^ 64 - 2 ^ k = omega (arith, pow_pos k) in
    rw (q, mask) (bit_and_high 64 k x (omega arith) hx)

-- `x & (a - 1)` is the remainder by `a`.
pub low_part : (x a : ℕ) → is_power_of_two a ≡ true → bit_and x (a - 1) ≡ x % a
low_part x a h = let (k, p, q) = power_exponent a h in rw q (bit_and_mask k x)

pub power_le : (a : ℕ) → is_power_of_two a ≡ true → a ≤ 2 ^ 63
power_le a h =
    let (k, p, q) = power_exponent a h in
    rw q (pow-le-pow_right {n = 2} (omega arith) {i = k} {j = 63} (omega arith))

pub round_down_mod : (x a : ℕ) → 0 < a → (x - x % a) % a ≡ 0
round_down_mod x a h = grind arith

-- A multiple of `a` less than `a` above another is not above it.
pub multiples_close : (a v w : ℕ) → v % a ≡ 0 → w % a ≡ 0 → w < v + a → w ≤ v
multiples_close a v w p q h = grind arith
