-- ===== src/Mm/Blocks/Canonical.antt =====
-- Blocks in order with gaps are determined by the addresses they cover.
use avent.Base.{
  ℕ, ◌+◌, ◌≤◌, Bool, true, false, ◌||◌, ltb, ltb→lt, ltb→le, List, [], ◌∷◌, ◌≡◌, refl, sym, ap,
  subst, ◌∙◌, arith, inl, inr, Bool-cases,
}
use avent.Mm.Vm.Region.{Region, region}
use avent.Mm.Blocks.{Ordered, holds, covers}
use avent.Mm.Blocks.Count.{covers-below}

-- The two lists cover the same addresses.
abbrev Same : List Region → List Region → Type 0
Same xs ys = (a : ℕ) → covers xs a ≡ covers ys a

module _ (u : ℕ) where
  true_or_false : (b : Bool) → b ≡ true → b ≡ false → ⊥
  true_or_false b e f = ground (arith, e, f)

  covers-first :
      (lo : ℕ) (x : Region) (xs : List Region)
      → Ordered u lo (x ∷ xs)
      → covers (x ∷ xs) x.base ≡ true
  covers-first lo x xs t = ground (arith, t.1.filled)

  first_le :
      (lo : ℕ) (x y : Region) (xs ys : List Region)
      → Ordered u lo (x ∷ xs)
      → Ordered u lo (y ∷ ys)
      → Same (x ∷ xs) (y ∷ ys)
      → y.base ≤ x.base
  first_le lo x y xs ys t v e = elim (Bool-cases (ltb x.base y.base)) [
    | inl h ↦ absurd (
        true_or_false (covers (x ∷ xs) x.base) (covers-first lo x xs t) (
          e x.base
          ∙ covers-below u y.base (y ∷ ys) x.base (ltb→lt x.base y.base h) (omega arith, v.1, v.2)))
    | inr h ↦ ltb→le x.base y.base h
  ]

  size_le :
      (lo : ℕ) (x y : Region) (xs ys : List Region)
      → Ordered u lo (x ∷ xs)
      → Ordered u lo (y ∷ ys)
      → Same (x ∷ xs) (y ∷ ys)
      → x.base ≡ y.base
      → y.size ≤ x.size
  size_le lo x y xs ys t v e b = elim (Bool-cases (ltb x.size y.size)) [
    | inl h ↦
        let p = x.base + x.size in
        let outside : holds x p ≡ false = ground arith in
        let after = covers-below u (p + 1) xs p (omega arith) t.2 in
        let inside : holds y p ≡ true = ground (arith, b, ltb→lt x.size y.size h) in
        absurd (
          true_or_false (covers (y ∷ ys) p) (rw inside refl) (sym (e p) ∙ rw (outside, after) refl))
    | inr h ↦ ltb→le x.size y.size h
  ]

  rest-Same :
      (lo : ℕ) (x y : Region) (xs ys : List Region)
      → Ordered u lo (x ∷ xs)
      → Ordered u lo (y ∷ ys)
      → Same (x ∷ xs) (y ∷ ys)
      → x.base ≡ y.base
      → x.size ≡ y.size
      → Same xs ys
  rest-Same lo x y xs ys t v e b s a = elim (Bool-cases (ltb a (x.base + x.size + 1))) [
    | inl h ↦
        let low = ltb→lt a (x.base + x.size + 1) h in
        covers-below u (x.base + x.size + 1) xs a low t.2
        ∙ sym (covers-below u (y.base + y.size + 1) ys a (omega (arith, low, b, s)) v.2)
    | inr h ↦
        let past = ltb→le a (x.base + x.size + 1) h in
        let out_x : holds x a ≡ false = ground (arith, past) in
        let out_y : holds y a ≡ false = ground (arith, past, b, s) in
        sym (ap (λ c. c || covers xs a) out_x) ∙ e a ∙ ap (λ c. c || covers ys a) out_y
  ]

  pub Ordered-canonical :
      (lo : ℕ) (xs ys : List Region)
      → Ordered u lo xs
      → Ordered u lo ys
      → ((a : ℕ) → covers xs a ≡ covers ys a)
      → xs ≡ ys
  Ordered-canonical lo [] [] t v e = refl
  Ordered-canonical lo [] (y ∷ ys) t v e =
      absurd (true_or_false (covers (y ∷ ys) y.base) (covers-first lo y ys v) (sym (e y.base)))
  Ordered-canonical lo (x ∷ xs) [] t v e =
      absurd (true_or_false (covers (x ∷ xs) x.base) (covers-first lo x xs t) (e x.base))
  Ordered-canonical lo (x ∷ xs) (y ∷ ys) t v e =
      let b : x.base ≡ y.base =
        omega (arith, first_le lo x y xs ys t v e, first_le lo y x ys xs v t (λ a. sym (e a))) in
      let s : x.size ≡ y.size =
        omega (
          arith,
          size_le lo x y xs ys t v e b,
          size_le lo y x ys xs v t (λ a. sym (e a)) (sym b),
        ) in
      let end : y.base + y.size + 1 ≡ x.base + x.size + 1 = omega (arith, b, s) in
      let rest =
        Ordered-canonical (x.base + x.size + 1) xs ys t.2 (subst (λ k. Ordered u k ys) end v.2)
          (rest-Same lo x y xs ys t v e b s) in
      λ i. region (b i) (s i) ∷ rest i
