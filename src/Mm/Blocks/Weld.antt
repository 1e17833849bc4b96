-- ===== src/Mm/Blocks/Weld.antt =====
-- The place of a block among those in order, and the merge of what stands before it.
use avent.Base.{
  ℕ, ◌+◌, ◌≤◌, ◌<◌, false, ltb, ◌==◌, ==_iff, lt→ltb, le→ltb, ltb→lt, ltb→le, List, [], ◌∷◌, ◌++◌,
  All, ◌≡◌, refl, sym, ap, ◌∙◌, arith, ◌⊎◌, inl, inr, Bool-cases,
}
use avent.Mm.Vm.Region.{Region, region}
use avent.Mm.Blocks.{IsBlock, Ordered, glue, place, merged-IsBlock}

-- The list before the place of base `b`, and the list from there on.
pub record SplitAt (b : ℕ) (xs : List Region) : Type 0 where
  pub pre : List Region
  pub post : List Region
  pub whole : xs ≡ pre ++ post
  pub below : All (λ x. x.base < b) pre
  pub above : All (λ x. b ≤ x.base) post

pub All-right : (P : Region → Type 0) (xs ys : List Region) → All P (xs ++ ys) → All P ys
All-right P [] ys h = h
All-right P (x ∷ xs) ys h = All-right P xs ys h.1

pub All-left : (P : Region → Type 0) (xs ys : List Region) → All P (xs ++ ys) → All P xs
All-left P [] ys h = tt
All-left P (x ∷ xs) ys h = (h.0, All-left P xs ys h.1)

-- The last region of a list, merged with the first after it if they meet.
unfoldable pub weld : List Region → List Region → List Region
weld [] l = l
weld (x ∷ []) l = glue x l
weld (x ∷ y ∷ ys) l = x ∷ weld (y ∷ ys) l

pub snoc :
    (xs : List Region) → (xs ≡ []) ⊎ ((ys : List Region) × (y : Region) × (xs ≡ ys ++ y ∷ []))
snoc [] = inl refl
snoc (x ∷ xs) = elim (snoc xs) [
  | inl e ↦ inr ([], x, ap (λ l. x ∷ l) e)
  | inr (ys, y, e) ↦ inr (x ∷ ys, y, ap (λ l. x ∷ l) e)
]

pub weld-snoc : (xs l : List Region) (y : Region) → weld (xs ++ y ∷ []) l ≡ xs ++ glue y l
unfolding weld
weld-snoc [] l y = refl
weld-snoc (x ∷ []) l y = refl
weld-snoc (x ∷ z ∷ xs) l y = ap (λ l. x ∷ l) (weld-snoc (z ∷ xs) l y)

-- What `glue` makes begins where its region does.
pub glue-head :
    (a : Region) (bs : List Region)
    → (g : Region) × (gs : List Region) × (glue a bs ≡ g ∷ gs) × (g.base ≡ a.base)
glue-head a [] = (a, [], refl, refl)
glue-head a (b ∷ bs) = elim (Bool-cases (a.base + a.size == b.base)) [
  | inl e ↦ (region a.base (a.size + b.size), bs, rw e refl, refl)
  | inr e ↦ (a, b ∷ bs, rw e refl, refl)
]

place-head :
    (r x : Region) (xs : List Region)
    → x.base < r.base
    → (g : Region) × (gs : List Region) × (place r (x ∷ xs) ≡ g ∷ gs) × (g.base ≡ x.base)
place-head r x xs h =
    let (g, gs, e, b) = glue-head x (place r xs) in (g, gs, rw (lt→ltb x.base r.base h) e, b)

module _ (u : ℕ) where
  pub Ordered-IsBlock : (lo : ℕ) (xs : List Region) → Ordered u lo xs → All (IsBlock u) xs
  Ordered-IsBlock lo [] t = tt
  Ordered-IsBlock lo (x ∷ xs) t = (t.1, Ordered-IsBlock (x.base + x.size + 1) xs t.2)

  pub Ordered-above :
      (lo b : ℕ) (xs : List Region) → b ≤ lo → Ordered u lo xs → All (λ x. b ≤ x.base) xs
  Ordered-above lo b [] h t = tt
  Ordered-above lo b (x ∷ xs) h t =
      (omega (arith, t.0), Ordered-above (x.base + x.size + 1) b xs (omega (arith, t.0)) t.2)

  pub glue-IsBlock :
      (a : Region) (bs : List Region)
      → (IsBlock u) a
      → All (IsBlock u) bs
      → All (IsBlock u) (glue a bs)
  glue-IsBlock a [] p q = (p, tt)
  glue-IsBlock a (b ∷ bs) p q = elim (Bool-cases (a.base + a.size == b.base)) [
    | inl e ↦ rw e (merged-IsBlock u a b p q.0 ((==_iff (a.base + a.size) b.base).0 e), q.1)
    | inr e ↦ rw e (p, q)
  ]

  pub place-weld :
      (lo : ℕ) (r : Region) (pre post : List Region)
      → Ordered u lo (pre ++ post)
      → All (λ x. x.base < r.base) pre
      → All (λ x. r.base ≤ x.base) post
      → place r (pre ++ post) ≡ weld pre (glue r post)
  unfolding weld
  place-weld lo r [] [] t h k = refl
  place-weld lo r [] (x ∷ post) t h k = rw (le→ltb x.base r.base k.0) refl
  place-weld lo r (x ∷ []) post t h k =
      rw (lt→ltb x.base r.base h.0)
        (ap (glue x) (place-weld (x.base + x.size + 1) r [] post t.2 tt k))
  place-weld lo r (x ∷ y ∷ pre) post t h k =
      let rest = place-weld (x.base + x.size + 1) r (y ∷ pre) post t.2 h.1 k in
      let (g, gs, e, b) = place-head r y (pre ++ post) h.1.0 in
      let past : (x.base + x.size == g.base) ≡ false = ground (arith, b, t.2.0) in
      let gap : glue x (g ∷ gs) ≡ x ∷ g ∷ gs = rw past refl in
      rw (lt→ltb x.base r.base h.0) (ap (glue x) e ∙ gap ∙ ap (λ l. x ∷ l) (sym e ∙ rest))

  pub split_at : (b lo : ℕ) (xs : List Region) → Ordered u lo xs → SplitAt b xs
  split_at b lo [] t = record { pre = []; post = []; whole = refl; below = tt; above = tt }
  split_at b lo (x ∷ xs) t = elim (Bool-cases (ltb x.base b)) [
    | inl e ↦
        let s = split_at b (x.base + x.size + 1) xs t.2 in
        record {
          pre = x ∷ s.pre;
          post = s.post;
          whole = ap (λ l. x ∷ l) s.whole;
          below = (ltb→lt x.base b e, s.below);
          above = s.above;
        }
    | inr e ↦
        let h : b ≤ x.base = ltb→le x.base b e in
        record {
          pre = [];
          post = x ∷ xs;
          whole = refl;
          below = tt;
          above = (h, Ordered-above (x.base + x.size + 1) b xs (omega arith) t.2);
        }
  ]
