-- ===== src/Mm/Blocks/Count.antt =====
-- How many blocks of a list hold an address.
use avent.Base.{
  ℕ, ◌+◌, ◌≤◌, ◌<◌, max, Bool, true, false, ◌||◌, ltb, ltb→le, if◌then◌else◌, List, [], ◌∷◌, ◌++◌,
  All, ◌≡◌, refl, ap, arith, inl, inr, Bool-cases,
}
use avent.Mm.Vm.Region.{Region}
use avent.Mm.Blocks.{IsBlock, Ordered, Apart, Disjoint, holds, covers}

abbrev pub once : Bool → ℕ
once b = if b then 1 else 0

abbrev pub count : List Region → ℕ → ℕ
count [] a = 0
count (x ∷ xs) a = once (holds x a) + count xs a

pub count-append : (xs ys : List Region) (a : ℕ) → count (xs ++ ys) a ≡ count xs a + count ys a
count-append [] ys a = omega arith
count-append (x ∷ xs) ys a = omega (arith, count-append xs ys a)

-- An address below the list is not in it.
pub covers-below :
    (u lo : ℕ) (xs : List Region) (a : ℕ) → a < lo → Ordered u lo xs → covers xs a ≡ false
covers-below u lo [] a h t = refl
covers-below u lo (x ∷ xs) a h t =
    let rest = covers-below u (x.base + x.size + 1) xs a (omega (arith, t.0)) t.2 in
    let outside : holds x a ≡ false = ground (arith, t.0) in rw (outside, rest) refl

-- Blocks in order hold an address at most once.
pub count-covers :
    (u lo : ℕ) (xs : List Region) (a : ℕ) → Ordered u lo xs → count xs a ≡ once (covers xs a)
count-covers u lo [] a t = refl
count-covers u lo (x ∷ xs) a t =
    let rest = count-covers u (x.base + x.size + 1) xs a t.2 in
    elim (Bool-cases (holds x a)) [
      | inl e ↦
          let inside : a < x.base + x.size + 1 = ground (arith, e) in
          rw (rest, covers-below u (x.base + x.size + 1) xs a inside t.2, e) refl
      | inr e ↦ rw (e, rest) (omega arith)
    ]

Disjoint-covers :
    (r : Region) (xs : List Region) (a : ℕ) → Disjoint r xs → holds r a ≡ true → covers xs a ≡ false
Disjoint-covers r [] a d h = refl
Disjoint-covers r (x ∷ xs) a d h =
    let rest = Disjoint-covers r xs a d.1 h in
    let outside : holds x a ≡ false = elim (d.0) [
      | inl e ↦ ground (arith, e, h)
      | inr e ↦ ground (arith, e, h)
    ] in
    rw (outside, rest) refl

-- A block apart from blocks in order adds to what they hold.
pub count-union :
    (u : ℕ) (r : Region) (xs ys : List Region) (a : ℕ)
    → Ordered u 0 xs
    → Ordered u 0 ys
    → Disjoint r xs
    → covers ys a ≡ (holds r a || covers xs a)
    → count ys a ≡ once (holds r a) + count xs a
count-union u r xs ys a t v d e = elim (Bool-cases (holds r a)) [
  | inl h ↦
      let outside = Disjoint-covers r xs a d h in
      rw (count-covers u 0 ys a v, count-covers u 0 xs a t, e, h, outside) refl
  | inr h ↦ rw (count-covers u 0 ys a v, count-covers u 0 xs a t, e, h) (omega arith)
]

-- A block that holds no address of the list is apart from its blocks.
pub count-Disjoint :
    (u : ℕ) (r : Region) (xs : List Region)
    → 0 < r.size
    → All (IsBlock u) xs
    → ((a : ℕ) → once (holds r a) + count xs a ≤ 1)
    → Disjoint r xs
count-Disjoint u r [] s p h = tt
count-Disjoint u r (x ∷ xs) s p h = (apart, count-Disjoint u r xs s p.1 (λ a. omega (arith, h a)))
  where
    apart : Apart r x
    apart = elim (Bool-cases (ltb x.base (r.base + r.size))) [
      | inl e ↦ elim (Bool-cases (ltb r.base (x.base + x.size))) [
        | inl f ↦
            let in_r : holds r (max r.base x.base) ≡ true = ground (arith, e, s) in
            let in_x : holds x (max r.base x.base) ≡ true = ground (arith, f, p.0.filled) in
            absurd (omega (arith, h (max r.base x.base), ap once in_r, ap once in_x))
        | inr f ↦ inr (ltb→le r.base (x.base + x.size) f)
      ]
      | inr e ↦ inl (ltb→le x.base (r.base + r.size) e)
    ]
