-- ===== src/Mm/Blocks/Taken.antt =====
-- A block taken out of a list of blocks: what it is, and what is left.
use avent.Base.{ℕ, ◌+◌, ◌-◌, ◌%◌, ◌<◌, ◌||◌, List, ◌∷◌, ◌++◌, ◌≡◌, arith, inl, inr}
use avent.Mm.Vm.Region.{Region, region}
use avent.Mm.Blocks.{IsBlock, Ordered, Disjoint, holds, covers}
use avent.Mm.Blocks.Pieces.{
  FitsAt, piece, pieces, block-IsBlock, pieces-Ordered, pieces-covers, Ordered-replace,
  covers-replace, Disjoint-append, Disjoint-above, Disjoint-below, Ordered-right, piece-Disjoint,
}
use avent.Mm.Blocks.Weld.{Ordered-IsBlock, All-right}

module _ (u : ℕ) (pre post : List Region) (slot : Region) (size align base padding : ℕ)
    (t : Ordered u 0 (pre ++ slot ∷ post)) (f : FitsAt size align slot base padding) (s : 0 < size)
    (whole : size % u ≡ 0) (aligns : align % u ≡ 0) where
  slot-IsBlock : IsBlock u slot
  slot-IsBlock =
      (All-right (IsBlock u) pre (slot ∷ post) (Ordered-IsBlock u 0 (pre ++ slot ∷ post) t)).0

  pub taken-IsBlock : IsBlock u (region base size)
  taken-IsBlock = block-IsBlock u slot size align base padding slot-IsBlock f s whole aligns

  pub taken-Ordered : Ordered u 0 (pre ++ (pieces slot size base padding ++ post))
  taken-Ordered =
      Ordered-replace u slot (pieces slot size base padding) post
        (λ lo. pieces-Ordered u slot size align base padding slot-IsBlock f s whole aligns lo post)
        0 pre t

  pub taken-Disjoint : Disjoint (region base size) (pre ++ (pieces slot size base padding ++ post))
  taken-Disjoint =
      let block = region base size in
      let within : Disjoint block (pieces slot size base padding) =
        Disjoint-append block (piece slot.base padding) _
          (piece-Disjoint block slot.base padding (inr (omega (arith, f.0))))
          (piece-Disjoint block (base + size) (slot.size - padding - size) (inl (omega arith))) in
      let above =
        Disjoint-above u block (slot.base + slot.size + 1) post (omega (arith, f.0, f.2))
          (Ordered-right u 0 pre post slot t) in
      let below = Disjoint-below u block slot 0 pre post (omega (arith, f.0)) t in
      Disjoint-append block pre _ below
        (Disjoint-append block (pieces slot size base padding) post within above)

  pub taken-covers :
      (a : ℕ)
      → covers (pre ++ slot ∷ post) a
        ≡ (holds (region base size) a || covers (pre ++ (pieces slot size base padding ++ post)) a)
  taken-covers a =
      covers-replace slot (region base size) (pieces slot size base padding) pre post a
        (pieces-covers u slot size align base padding slot-IsBlock f s whole aligns a)
