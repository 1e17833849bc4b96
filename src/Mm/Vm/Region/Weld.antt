-- ===== src/Mm/Vm/Region/Weld.antt =====
-- `partition_point` finds the place of a region among the free ones.
use avent.Base.{
  ℕ, ◌+◌, ◌≤◌, ltb, ltb→lt, ltb→le, List, [], ◌∷◌, length, ◌≡◌, refl, ap, ◌∙◌, arith, inl, inr,
  Bool-cases,
}
use avent.Mm.Vm.Region.{Region, partition_point}
use avent.Mm.Vm.Region.View.{Lists}
use avent.Mm.Addr.{page_size}
use avent.Mm.Vm.Region.Spec.{Tidy}
use avent.Mm.Blocks.Weld.{SplitAt, Ordered-above}

-- `partition_point` on slots in order is the length of the list below the base.
pub partition_point-split :
    (slots : ℕ → Region) (b k lo : ℕ) (xs : List Region)
    → Lists slots k xs
    → Tidy lo xs
    → (s : SplitAt b xs) × (partition_point slots b k (length xs) ≡ k + length s.pre)
unfolding partition_point
partition_point-split slots b k lo [] l t =
    (record { pre = []; post = []; whole = refl; below = tt; above = tt }, omega arith)
partition_point-split slots b k lo (x ∷ xs) l t = elim (Bool-cases (ltb x.base b)) [
  | inl e ↦
      let (s, p) = partition_point-split slots b (k + 1) (x.base + x.size + 1) xs l.1 t.2 in
      (
        record {
          pre = x ∷ s.pre;
          post = s.post;
          whole = ap (λ l. x ∷ l) s.whole;
          below = (ltb→lt x.base b e, s.below);
          above = s.above;
        },
        rw (partition_point, l.0, e) (p ∙ omega arith),
      )
  | inr e ↦
      let h : b ≤ x.base = ltb→le x.base b e in
      (
        record {
          pre = [];
          post = x ∷ xs;
          whole = refl;
          below = tt;
          above = (h, Ordered-above page_size (x.base + x.size + 1) b xs (omega arith) t.2);
        },
        rw (partition_point, l.0, e) (omega arith),
      )
]
