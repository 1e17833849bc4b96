-- ===== src/Mm/Blocks/Pieces.antt =====
-- What is left of a block when a smaller one is taken out of it, and lists of blocks in which one is
-- replaced by such pieces.
use native.Mathlib.Nat.{mod-mod_of_dvd, zero-mod, dvd_of_mod-eq-zero}
use avent.Base.{
  ℕ, ◌+◌, ◌-◌, ◌%◌, ◌≤◌, ◌<◌, true, false, Bool, ◌||◌, ltb, ltb→lt, if◌then◌else◌, List, [], ◌∷◌,
  ◌++◌, length, ◌≡◌, refl, sym, subst, ◌∙◌, arith, inl, inr, Bool-cases,
}
use avent.Mm.Vm.Region.{Region, region}
use avent.Mm.Blocks.{
  IsBlock, Ordered, Ordered-lower, Apart, Disjoint, holds, covers, mod_sum, mod_difference,
}

-- No aligned block of the size lies in the region.
abbrev pub HasNoRoom : ℕ → ℕ → Region → Type 0
HasNoRoom size align x = (a : ℕ) → a % align ≡ 0 → x.base ≤ a → a + size ≤ x.base + x.size → ⊥

-- The block lies in the region, `padding` past its start.
abbrev pub FitsAt : ℕ → ℕ → Region → ℕ → ℕ → Type 0
FitsAt size align x a padding = (a ≡ x.base + padding) × (a % align ≡ 0) × (padding + size ≤ x.size)

-- A part that is left over, unless it is empty.
abbrev pub piece : ℕ → ℕ → List Region
piece base size = if ltb 0 size then region base size ∷ [] else []

-- What is left of the slot around the block at `base`.
abbrev pub pieces : Region → ℕ → ℕ → ℕ → List Region
pieces slot size base padding =
    piece slot.base padding ++ piece (base + size) (slot.size - padding - size)

pub length-piece : (base : ℕ) (size : ℕ) → length (piece base size) ≡ (if ltb 0 size then 1 else 0)
length-piece base size = ground arith

pub multiple_of_unit : (u a align : ℕ) → a % align ≡ 0 → align % u ≡ 0 → a % u ≡ 0
multiple_of_unit u a align h k =
    sym (mod-mod_of_dvd u a (dvd_of_mod-eq-zero u k)) ∙ rw h (zero-mod u)

module _ (u : ℕ) (slot : Region) (size align base padding : ℕ) (p : IsBlock u slot)
    (f : FitsAt size align slot base padding) (s : 0 < size) (whole : size % u ≡ 0)
    (aligns : align % u ≡ 0) where
  pub base_in_units : base % u ≡ 0
  base_in_units = multiple_of_unit u base align f.1 aligns

  padding_in_units : padding % u ≡ 0
  padding_in_units =
      let gap : base - slot.base ≡ padding = omega (arith, f.0) in
      subst (λ k. k % u ≡ 0) gap (mod_difference u base slot.base base_in_units p.base_aligned)

  pub head-IsBlock : 0 < padding → IsBlock u (region slot.base padding)
  head-IsBlock h = record {
    base_aligned = p.base_aligned;
    size_aligned = padding_in_units;
    filled = h;
    bounded = omega (arith, p.bounded, f.2);
  }

  pub tail-IsBlock :
      0 < slot.size - padding - size → IsBlock u (region (base + size) (slot.size - padding - size))
  tail-IsBlock h = record {
    base_aligned = mod_sum u base size base_in_units whole;
    size_aligned =
        mod_difference u (slot.size - padding) size
          (mod_difference u slot.size padding p.size_aligned padding_in_units) whole;
    filled = h;
    bounded = omega (arith, p.bounded, f.2, f.0);
  }

  pub block-IsBlock : IsBlock u (region base size)
  block-IsBlock = record {
    base_aligned = base_in_units;
    size_aligned = whole;
    filled = s;
    bounded = omega (arith, p.bounded, f.2, f.0);
  }

  pub pieces-Ordered :
      (lo : ℕ) (post : List Region)
      → Ordered u lo (slot ∷ post)
      → Ordered u lo (pieces slot size base padding ++ post)
  pieces-Ordered lo post t = elim (Bool-cases (ltb 0 padding)) [
    | inl e ↦ elim (Bool-cases (ltb 0 (slot.size - padding - size))) [
      | inl g ↦
          let end : base + size + (slot.size - padding - size) + 1 ≡ slot.base + slot.size + 1 =
            omega (arith, f.0, f.2) in
          rw (e, g)
            (
              t.0,
              head-IsBlock (ltb→lt _ _ e),
              (
                omega (arith, f.0),
                tail-IsBlock (ltb→lt _ _ g),
                subst (λ k. Ordered u k post) (sym end) t.2,
              ),
            )
      | inr g ↦
          rw (e, g)
            (t.0, head-IsBlock (ltb→lt _ _ e), Ordered-lower u _ _ post (omega (arith, f.2)) t.2)
    ]
    | inr e ↦ elim (Bool-cases (ltb 0 (slot.size - padding - size))) [
      | inl g ↦
          let end : base + size + (slot.size - padding - size) + 1 ≡ slot.base + slot.size + 1 =
            omega (arith, f.0, f.2) in
          rw (e, g)
            (
              omega (arith, t.0, f.0),
              tail-IsBlock (ltb→lt _ _ g),
              subst (λ k. Ordered u k post) (sym end) t.2,
            )
      | inr g ↦ rw (e, g) (Ordered-lower u _ _ post (omega (arith, t.0)) t.2)
    ]
  ]

  pub pieces-covers :
      (a : ℕ)
      → holds slot a ≡ holds (region base size) a || covers (pieces slot size base padding) a
  pieces-covers a = ground (arith, f.0, f.2)

pub covers-append :
    (xs ys : List Region) (a : ℕ) → covers (xs ++ ys) a ≡ (covers xs a || covers ys a)
covers-append [] ys a = refl
covers-append (x ∷ xs) ys a =
    rw (covers-append xs ys a) (or_assoc (holds x a) (covers xs a) (covers ys a))
  where
    or_assoc : (a b c : Bool) → (a || (b || c)) ≡ ((a || b) || c)
    or_assoc true b c = refl
    or_assoc false b c = refl

pub covers-replace :
    (x r : Region) (ys pre post : List Region) (a : ℕ)
    → holds x a ≡ (holds r a || covers ys a)
    → covers (pre ++ x ∷ post) a ≡ (holds r a || covers (pre ++ (ys ++ post)) a)
covers-replace x r ys pre post a h =
    rw (covers-append pre (x ∷ post) a, covers-append pre (ys ++ post) a, covers-append ys post a)
      (rw h (swap (covers pre a) (holds r a) (covers ys a) (covers post a)))
  where
    swap : (p r y q : Bool) → (p || ((r || y) || q)) ≡ (r || (p || (y || q)))
    swap true true y q = refl
    swap true false y q = refl
    swap false true y q = refl
    swap false false y q = refl

pub Disjoint-append :
    (r : Region) (xs ys : List Region) → Disjoint r xs → Disjoint r ys → Disjoint r (xs ++ ys)
Disjoint-append r [] ys h k = k
Disjoint-append r (x ∷ xs) ys h k = (h.0, Disjoint-append r xs ys h.1 k)

pub piece-Disjoint :
    (r : Region) (base size : ℕ) → Apart r (region base size) → Disjoint r (piece base size)
piece-Disjoint r base size h = elim (Bool-cases (ltb 0 size)) [
  | inl e ↦ rw e (h, tt)
  | inr e ↦ rw e tt
]

module _ (u : ℕ) where
  pub Ordered-replace :
      (x : Region) (ys post : List Region)
      → ((lo : ℕ) → Ordered u lo (x ∷ post) → Ordered u lo (ys ++ post))
      → (lo : ℕ) (pre : List Region) → Ordered u lo (pre ++ x ∷ post)
      → Ordered u lo (pre ++ (ys ++ post))
  Ordered-replace x ys post f lo [] t = f lo t
  Ordered-replace x ys post f lo (y ∷ pre) t =
      (t.0, t.1, Ordered-replace x ys post f (y.base + y.size + 1) pre t.2)

  pub Disjoint-above :
      (r : Region) (lo : ℕ) (xs : List Region)
      → r.base + r.size ≤ lo
      → Ordered u lo xs
      → Disjoint r xs
  Disjoint-above r lo [] h t = tt
  Disjoint-above r lo (x ∷ xs) h t =
      (inl (omega (arith, t.0)), Disjoint-above r (x.base + x.size + 1) xs (omega (arith, t.0)) t.2)

  pub Ordered-reach :
      (lo : ℕ) (pre post : List Region) (x : Region) → Ordered u lo (pre ++ x ∷ post) → lo ≤ x.base
  Ordered-reach lo [] post x t = t.0
  Ordered-reach lo (y ∷ pre) post x t =
      omega (arith, t.0, Ordered-reach (y.base + y.size + 1) pre post x t.2)

  pub Disjoint-below :
      (r x : Region) (lo : ℕ) (pre post : List Region)
      → x.base ≤ r.base
      → Ordered u lo (pre ++ x ∷ post)
      → Disjoint r pre
  Disjoint-below r x lo [] post h t = tt
  Disjoint-below r x lo (y ∷ pre) post h t = (
    inr (omega (arith, Ordered-reach (y.base + y.size + 1) pre post x t.2)),
    Disjoint-below r x (y.base + y.size + 1) pre post h t.2,
  )

  pub Ordered-right :
      (lo : ℕ) (pre post : List Region) (x : Region)
      → Ordered u lo (pre ++ x ∷ post)
      → Ordered u (x.base + x.size + 1) post
  Ordered-right lo [] post x t = t.2
  Ordered-right lo (y ∷ pre) post x t = Ordered-right (y.base + y.size + 1) pre post x t.2
