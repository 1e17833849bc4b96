-- ===== src/Mm/Blocks.antt =====
-- Blocks of memory in order: lists of regions that do not meet, what they cover, and the place of
-- one more. `u` is the unit that bases and sizes are multiples of.
pub mod Canonical
pub mod Count
pub mod Pieces
pub mod Size
pub mod Taken
pub mod Weld
use native.Mathlib.Nat.{mod-eq-zero_of_dvd, dvd_of_mod-eq-zero, dvd-add, dvd-sub}
use avent.Base.Words.{usize_values}
use avent.Base.{
  ap, subst, ◌∙◌, ltb→lt, ltb→le, ==_iff, ℕ, ◌+◌, ◌-◌, ◌%◌, ◌≤◌, ◌<◌, Bool, true, false, ◌&&◌, ◌||◌,
  leb, ltb, ◌==◌, if◌then◌else◌, List, [], ◌∷◌, ◌≡◌, refl, arith, ◌⊎◌, inl, inr, Bool-cases,
}
use avent.Mm.Vm.Region.{Region, region}

-- The address is in the region.
abbrev pub holds : Region → ℕ → Bool
holds r a = leb r.base a && ltb a (r.base + r.size)

-- The address is in a region of the list.
abbrev pub covers : List Region → ℕ → Bool
covers [] a = false
covers (x ∷ xs) a = holds x a || covers xs a

-- A block of whole units, not empty, that ends below the top.
pub record IsBlock (u : ℕ) (r : Region) : Type 0 where
  pub base_aligned : r.base % u ≡ 0
  pub size_aligned : r.size % u ≡ 0
  pub filled : 0 < r.size
  pub bounded : r.base + r.size < usize_values

-- The blocks come in order from `lo` on, with a gap between each and the next.
abbrev pub Ordered : ℕ → ℕ → List Region → Type 0
Ordered u lo [] = Unit
Ordered u lo (x ∷ xs) = (lo ≤ x.base) × IsBlock u x × Ordered u (x.base + x.size + 1) xs

-- The two regions have no address in common.
abbrev pub Apart : Region → Region → Type 0
Apart r x = (r.base + r.size ≤ x.base) ⊎ (x.base + x.size ≤ r.base)

abbrev pub Disjoint : Region → List Region → Type 0
Disjoint r [] = Unit
Disjoint r (x ∷ xs) = Apart r x × Disjoint r xs

-- A region before the list, merged with the first if it ends there.
abbrev pub glue : Region → List Region → List Region
glue a [] = a ∷ []
glue a (b ∷ bs) =
    if a.base + a.size == b.base then region a.base (a.size + b.size) ∷ bs else a ∷ b ∷ bs

-- A region goes to its place in the order, and merges with its neighbours.
abbrev pub place : Region → List Region → List Region
place r [] = r ∷ []
place r (x ∷ xs) = if ltb x.base r.base then glue x (place r xs) else glue r (x ∷ xs)

or_swap : (a b c : Bool) → (a || (b || c)) ≡ (b || (a || c))
or_swap true true c = refl
or_swap true false c = refl
or_swap false true c = refl
or_swap false false c = refl

Apart-after : (r x : Region) → x.base < r.base → Apart r x → x.base + x.size ≤ r.base
Apart-after r x h (inl a) = omega (arith, a)
Apart-after r x h (inr a) = a

pub mod_sum : (u a b : ℕ) → a % u ≡ 0 → b % u ≡ 0 → (a + b) % u ≡ 0
mod_sum u a b p q =
    mod-eq-zero_of_dvd u (dvd-add u (dvd_of_mod-eq-zero u p) (dvd_of_mod-eq-zero u q))

pub mod_difference : (u a b : ℕ) → a % u ≡ 0 → b % u ≡ 0 → (a - b) % u ≡ 0
mod_difference u a b p q =
    mod-eq-zero_of_dvd u (dvd-sub u (dvd_of_mod-eq-zero u p) (dvd_of_mod-eq-zero u q))

module _ (u : ℕ) where
  pub Ordered-lower : (lo hi : ℕ) (xs : List Region) → lo ≤ hi → Ordered u hi xs → Ordered u lo xs
  Ordered-lower lo hi [] h t = tt
  Ordered-lower lo hi (x ∷ xs) h t = (omega (arith, t.0), t.1, t.2)

  pub merged-IsBlock :
      (a b : Region)
      → IsBlock u a
      → IsBlock u b
      → a.base + a.size ≡ b.base
      → IsBlock u (region a.base (a.size + b.size))
  merged-IsBlock a b p q e = record {
    base_aligned = p.base_aligned;
    size_aligned = mod_sum u a.size b.size p.size_aligned q.size_aligned;
    filled = omega (arith, p.filled);
    bounded = omega (arith, q.bounded);
  }

  Apart-before :
      (r x : Region) → IsBlock u x → r.base ≤ x.base → Apart r x → r.base + r.size ≤ x.base
  Apart-before r x q h (inl a) = a
  Apart-before r x q h (inr a) = omega (arith, a, q.filled)

  glue-covers :
      (a : Region) (bs : List Region) (i : ℕ)
      → Ordered u (a.base + a.size) bs
      → covers (glue a bs) i ≡ holds a i || covers bs i
  glue-covers a [] i t = refl
  glue-covers a (b ∷ bs) i t = ground (arith, t.0)

  glue-Ordered :
      (lo : ℕ) (a : Region) (bs : List Region)
      → lo ≤ a.base
      → IsBlock u a
      → Ordered u (a.base + a.size) bs
      → Ordered u lo (glue a bs)
  glue-Ordered lo a [] h p t = (h, p, tt)
  glue-Ordered lo a (b ∷ bs) h p t = elim (Bool-cases (a.base + a.size == b.base)) [
    | inl e ↦
        let same : a.base + a.size ≡ b.base = (==_iff (a.base + a.size) b.base).0 e in
        let end : b.base + b.size + 1 ≡ a.base + (a.size + b.size) + 1 = omega arith in
        rw e (h, merged-IsBlock a b p t.1 same, subst (λ k. Ordered u k bs) end t.2)
    | inr e ↦
        let past : a.base + a.size + 1 ≤ b.base = ground (arith, t.0, e) in
        rw e (h, p, (past, t.1, t.2))
  ]

  pub place-Ordered :
      (lo : ℕ) (r : Region) (xs : List Region)
      → lo ≤ r.base
      → IsBlock u r
      → Disjoint r xs
      → Ordered u lo xs
      → Ordered u lo (place r xs)
  place-Ordered lo r [] h p d t = (h, p, tt)
  place-Ordered lo r (x ∷ xs) h p d t = elim (Bool-cases (ltb x.base r.base)) [
    | inl e ↦
        let after : x.base + x.size ≤ r.base = Apart-after r x (ltb→lt x.base r.base e) d.0 in
        rw e (
          glue-Ordered lo x (place r xs) t.0 t.1 (
            place-Ordered (x.base + x.size) r xs after p d.1
              (Ordered-lower _ _ xs (omega arith) t.2)))
    | inr e ↦
        let before : r.base + r.size ≤ x.base = Apart-before r x t.1 (ltb→le x.base r.base e) d.0 in
        rw e (glue-Ordered lo r (x ∷ xs) h p (before, t.1, t.2))
  ]

  pub place-covers :
      (lo : ℕ) (r : Region) (xs : List Region) (i : ℕ)
      → IsBlock u r
      → Disjoint r xs
      → Ordered u lo xs
      → covers (place r xs) i ≡ holds r i || covers xs i
  place-covers lo r [] i p d t = refl
  place-covers lo r (x ∷ xs) i p d t = elim (Bool-cases (ltb x.base r.base)) [
    | inl e ↦
        let after : x.base + x.size ≤ r.base = Apart-after r x (ltb→lt x.base r.base e) d.0 in
        let low = Ordered-lower _ _ xs (omega arith) t.2 in
        rw e (
          glue-covers x (place r xs) i (place-Ordered (x.base + x.size) r xs after p d.1 low)
          ∙ ap (λ c. holds x i || c) (place-covers (x.base + x.size + 1) r xs i p d.1 t.2)
          ∙ or_swap (holds x i) (holds r i) (covers xs i))
    | inr e ↦
        let before : r.base + r.size ≤ x.base = Apart-before r x t.1 (ltb→le x.base r.base e) d.0 in
        rw e (glue-covers r (x ∷ xs) i (before, t.1, t.2))
  ]
