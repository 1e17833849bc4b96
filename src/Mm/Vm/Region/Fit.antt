-- ===== src/Mm/Vm/Region/Fit.antt =====
-- The search for a slot: `fit` on one region, `find_slot` on all.
use native.Mathlib.Nat.{mod-lt}
use avent.Base.Bits.{pow-mod-pow}
use avent.Base.Words.{
  sub, complement, checked_add, usize_values, is_power_of_two, round_down, round_down_mod,
  power_pos, power_exponent, multiples_close,
}
use avent.Base.{
  bit_and, ℕ, suc, ◌+◌, ◌-◌, ◌%◌, ◌≤◌, ◌<◌, true, false, Option, none, some, Outcome, done, leb,
  ltb, le→ltb, ltb→lt, ltb→le, leb→le, leb→lt, if◌then◌else◌, List, [], ◌∷◌, ◌++◌, length, All, ◌≡◌,
  refl, ap, ◌∙◌, arith, ◌⊎◌, inl, inr, Bool-cases, ◌>>=◌,
}
use avent.Mm.Addr.Virt.{VirtAddr}
use avent.Mm.Vm.Region.{Region, fit, find_slot}
use avent.Mm.Vm.Region.View.{Lists}
use avent.Mm.Vm.Region.Spec.{IsRegion}
use avent.Mm.Blocks.Pieces.{HasNoRoom, FitsAt}

-- What a search says of one region.
abbrev pub IsFit : ℕ → ℕ → Region → Option (VirtAddr × ℕ) → Type 0
IsFit size align x none = HasNoRoom size align x
IsFit size align x (some (a, padding)) = FitsAt size align x a padding

pub size_divides : (align : ℕ) → is_power_of_two align ≡ true → usize_values % align ≡ 0
size_divides align p =
    let (k, h, q) = power_exponent align p in rw q (pow-mod-pow 64 k (omega arith))

-- `fit` once the base is aligned.
abbrev judged : Region → ℕ → VirtAddr → ℕ → Outcome (Option (VirtAddr × ℕ))
judged slot size aligned padding = elim (checked_add padding size) [
  | none ↦ done none
  | some total_needed ↦ done (if leb total_needed slot.size then some (aligned, padding) else none)
]

abbrev from_aligned : Region → ℕ → VirtAddr → Outcome (Option (VirtAddr × ℕ))
from_aligned slot size aligned =
    sub aligned slot.base >>= λ padding. judged slot size aligned padding

module _ (size align : ℕ) (p : is_power_of_two align ≡ true) (s : 0 < size)
    (small : size < usize_values) where
  pub fit-IsFit :
      (x : Region)
      → IsRegion x
      → (o : Option (VirtAddr × ℕ)) × (fit x size align ≡ done o) × IsFit size align x o
  unfolding fit
  fit-IsFit x q = elim (Bool-cases (ltb (x.base + (align - 1)) usize_values)) [
    | inl e ↦
        let top = x.base + (align - 1) in
        let v = top - top % align in
        let multiple : v % align ≡ 0 = round_down_mod top align (power_pos align p) in
        let above : x.base ≤ v = omega (arith, power_pos align p, mod-lt top (power_pos align p)) in
        let below : v < x.base + align = omega (arith, power_pos align p) in
        let rounds = round_down top align (ltb→lt top usize_values e) p in
        let small_sub : ltb v x.base ≡ false = le→ltb v x.base above in
        let least : (a : ℕ) → a % align ≡ 0 → x.base ≤ a → v ≤ a =
          λ a m h. multiples_close align a v m multiple (omega arith) in
        let opened : fit x size align ≡ from_aligned x size (bit_and top (complement (align - 1))) =
          rw (fit, e) refl in
        let padded : from_aligned x size v ≡ judged x size v (v - x.base) = rw small_sub refl in
        let known = opened ∙ ap (from_aligned x size) rounds ∙ padded in
        elim (Bool-cases (ltb (v - x.base + size) usize_values)) [
          | inl f ↦ elim (Bool-cases (leb (v - x.base + size) x.size)) [
            | inl g ↦ (
              some (v, v - x.base),
              known ∙ rw (judged, f, g) refl,
              (omega arith, multiple, leb→le (v - x.base + size) x.size g),
            )
            | inr g ↦ (
              none,
              known ∙ rw (judged, f, g) refl,
              λ a m h k. omega (arith, least a m h, leb→lt (v - x.base + size) x.size g),
            )
          ]
          | inr f ↦ (
            none,
            known ∙ rw (judged, f) refl,
            λ a m h k.
                omega (arith, least a m h, q.bounded, ltb→le (v - x.base + size) usize_values f),
          )
        ]
    | inr e ↦ (
      none,
      rw (fit, e) refl,
      λ a m h k.
          let up : usize_values ≤ x.base + (align - 1) = ltb→le _ _ e in
          let least : usize_values ≤ a =
            multiples_close align a usize_values m (size_divides align p)
              (omega (arith, power_pos align p)) in
          omega (arith, q.bounded),
    )
  ]

  -- The slots before the one found, and those after it.
  pub record Found (xs : List Region) : Type 0 where
    pub pre : List Region
    pub slot : Region
    pub post : List Region
    pub base : VirtAddr
    pub padding : ℕ
    pub whole : xs ≡ pre ++ slot ∷ post
    pub skipped : All (HasNoRoom size align) pre
    pub fits : FitsAt size align slot base padding

  -- For a size above 0 and an alignment that is a power of two, the search over slots that hold
  -- regions of whole pages returns: either the first slot with room for an aligned
  -- block, and such a block in it; or none, and no slot has room.
  pub find_slot-Found :
      (slots : ℕ → Region) (k : ℕ) (xs : List Region)
      → Lists slots k xs
      → All IsRegion xs
      → ((find_slot slots size align k (length xs) ≡ done none) × All (HasNoRoom size align) xs)
        ⊎ ((f : Found xs) × (find_slot slots size align k (length xs)
              ≡ done (some (k + length f.pre, f.base, f.padding))))
  unfolding find_slot
  find_slot-Found slots k [] l q = inl (refl, tt)
  find_slot-Found slots k (x ∷ xs) l q =
      let (o, e, h) = fit-IsFit x q.0 in
      let at : fit (slots k) size align ≡ done o = rw l.0 e in
      go o at h (find_slot-Found slots (k + 1) xs l.1 q.1)
    where
      go :
          (o : Option (VirtAddr × ℕ))
          → fit (slots k) size align ≡ done o
          → IsFit size align x o
          → ((find_slot slots size align (k + 1) (length xs) ≡ done none)
              × All (HasNoRoom size align) xs)
            ⊎ ((f : Found xs) × (find_slot slots size align (k + 1) (length xs)
                  ≡ done (some (k + 1 + length f.pre, f.base, f.padding))))
          → ((find_slot slots size align k (length (x ∷ xs)) ≡ done none)
              × All (HasNoRoom size align) (x ∷ xs))
            ⊎ ((f : Found (x ∷ xs)) × (find_slot slots size align k (length (x ∷ xs))
                  ≡ done (some (k + length f.pre, f.base, f.padding))))
      go none at h (inl (e, none_fit)) = inl (rw (find_slot, at) e, (h, none_fit))
      go none at h (inr (f, e)) =
          let step : k + 1 + length f.pre ≡ k + suc (length f.pre) = omega arith in
          inr (
            record {
              pre = x ∷ f.pre;
              slot = f.slot;
              post = f.post;
              base = f.base;
              padding = f.padding;
              whole = ap (λ l. x ∷ l) f.whole;
              skipped = (h, f.skipped);
              fits = f.fits;
            },
            rw (find_slot, at) (rw step at e),
          )
      go (some (a, padding)) at h rest =
          let step : k + 0 ≡ k = omega arith in
          inr (
            record {
              pre = [];
              slot = x;
              post = xs;
              base = a;
              padding = padding;
              whole = refl;
              skipped = tt;
              fits = h;
            },
            rw (find_slot, at, step) refl,
          )
