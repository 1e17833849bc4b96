-- ===== src/Mm/Blocks/Size.antt =====
-- How many bytes a list of blocks holds.
use avent.Base.Words.{usize_values}
use avent.Base.{ℕ, ◌+◌, ◌-◌, ◌<◌, ltb, List, [], ◌∷◌, ◌++◌, ◌≡◌, refl, arith, inl, inr, Bool-cases}
use avent.Mm.Vm.Region.{Region}
use avent.Mm.Blocks.{Ordered, Ordered-lower, glue, place}
use avent.Mm.Blocks.Pieces.{FitsAt, piece, pieces}

abbrev pub bytes : List Region → ℕ
bytes [] = 0
bytes (x ∷ xs) = x.size + bytes xs

pub bytes-append : (xs ys : List Region) → bytes (xs ++ ys) ≡ bytes xs + bytes ys
bytes-append [] ys = omega arith
bytes-append (x ∷ xs) ys = omega (arith, bytes-append xs ys)

pub bytes-glue : (r : Region) (xs : List Region) → bytes (glue r xs) ≡ r.size + bytes xs
bytes-glue r [] = refl
bytes-glue r (x ∷ xs) = ground arith

pub bytes-place : (r : Region) (xs : List Region) → bytes (place r xs) ≡ r.size + bytes xs
bytes-place r [] = refl
bytes-place r (x ∷ xs) = elim (Bool-cases (ltb x.base r.base)) [
  | inl e ↦ rw e (omega (arith, bytes-glue x (place r xs), bytes-place r xs))
  | inr e ↦ rw e (bytes-glue r (x ∷ xs))
]

bytes-piece : (base size : ℕ) → bytes (piece base size) ≡ size
bytes-piece base size = ground arith

-- Taking a block out of a slot takes its bytes.
pub bytes-pieces :
    (pre post : List Region) (slot : Region) (size align base padding : ℕ)
    → FitsAt size align slot base padding
    → bytes (pre ++ slot ∷ post) ≡ size + bytes (pre ++ (pieces slot size base padding ++ post))
bytes-pieces pre post slot size align base padding f = omega (
  arith,
  f.2,
  bytes-append pre (slot ∷ post),
  bytes-append pre (pieces slot size base padding ++ post),
  bytes-append (pieces slot size base padding) post,
  bytes-append (piece slot.base padding) (piece (base + size) (slot.size - padding - size)),
  bytes-piece slot.base padding,
  bytes-piece (base + size) (slot.size - padding - size),
)

-- Blocks in order from `lo` on fit below the top.
pub bytes-bound :
    (u lo : ℕ) (xs : List Region)
    → lo < usize_values
    → Ordered u lo xs
    → lo + bytes xs < usize_values
bytes-bound u lo [] h t = omega arith
bytes-bound u lo (x ∷ xs) h t =
    let rest = Ordered-lower u (x.base + x.size) (x.base + x.size + 1) xs (omega arith) t.2 in
    omega (arith, t.0, bytes-bound u (x.base + x.size) xs t.1.bounded rest)
