-- ===== src/Mm/Frame/Range/Iterate.antt =====
-- Draining a range: which frames `next` gives, and when it stops short of the last one.
use native.Mathlib.Nat.{div-eq_of_eq-mul_left}
use avent.Base.{
  ℕ, zero, suc, ◌+◌, ◌-◌, ◌*◌, ◌/◌, ◌≤◌, ◌<◌, Option, none, some, ◌≡◌, refl, ap, ◌∙◌, arith, List,
  [], ◌∷◌,
}
use avent.Mm.Addr.Phys.{max_addr}
use avent.Mm.Frame.{PhysFrame}
use avent.Mm.Frame.Range.{FrameRange, next, len, is_empty}

-- The items of at most `fuel` calls of `next`, up to the first `None`.
unfoldable pub take_items : ℕ → ℕ → FrameRange → List PhysFrame
take_items zero size r = []
take_items (suc fuel) size r =
    let (item, rest) = next size r in
    elim item [ none ↦ [] | some frame ↦ frame ∷ take_items fuel size rest ]

-- `count` frames from index `i` on.
abbrev pub frames_from : ℕ → ℕ → ℕ → List PhysFrame
frames_from zero size i = []
frames_from (suc count) size i = record { base = i * size } ∷ frames_from count size (i + 1)

abbrev pub range_of : ℕ → ℕ → ℕ → FrameRange
range_of size i j = record { start = record { base = i * size }; end = record { base = j * size } }

next_step :
    (size i j : ℕ)
    → 0 < size
    → i ≤ j
    → (i + 1) * size ≤ max_addr
    → next size (range_of size i j) ≡ (some (record { base = i * size }), range_of size (i + 1) j)
unfolding next
next_step size i j h le fits =
    let at : i * size / size ≡ i = div-eq_of_eq-mul_left h refl in
    let ordered : i * size ≤ j * size = grind arith in rw (at, next) (ground (arith, ordered, fits))

next_past : (size j : ℕ) → 0 < size → (next size (range_of size (j + 1) j)).0 ≡ none
unfolding next
next_past size j h = let over : j * size < (j + 1) * size = omega arith in ground (arith, over)

next_top :
    (size j : ℕ) → 0 < size → max_addr < (j + 1) * size → (next size (range_of size j j)).0 ≡ none
unfolding next
next_top size j h over =
    let at : j * size / size ≡ j = div-eq_of_eq-mul_left h refl in rw (at, next) (ground arith)

take_items_step :
    (n size : ℕ) (r rest : FrameRange) (frame : PhysFrame)
    → next size r ≡ (some frame, rest)
    → take_items (suc n) size r ≡ frame ∷ take_items n size rest
unfolding take_items
take_items_step n size r rest frame e =
    rw (e, take_items) (ap (λ (p : Option PhysFrame × FrameRange). frame ∷ take_items n size p.1) e)

-- The frames before the index `m` at which `next` gives up.
drain :
    (count size i j m : ℕ)
    → 0 < size
    → i + count ≡ m
    → m ≤ j + 1
    → m * size ≤ max_addr
    → (next size (range_of size m j)).0 ≡ none
    → take_items (suc count) size (range_of size i j) ≡ frames_from count size i
unfolding take_items
drain zero size i j m h e le fits stop =
    let same : i ≡ m = omega arith in ground (arith, same, stop)
drain (suc count) size i j m h e le fits stop =
    let below : (i + 1) * size ≤ m * size = grind arith in
    take_items_step (suc count) size _ _ _
      (next_step size i j h (omega arith) (omega (arith, below)))
    ∙ ap (◌∷◌ (record { base = i * size }))
        (drain count size (i + 1) j m h (omega arith) le fits stop)

module _ (size i j : ℕ) (pos : 0 < size) (le : i ≤ j) where
  len_value : len size (range_of size i j) ≡ suc (j - i)
  unfolding len is_empty
  len_value =
      let at : i * size / size ≡ i = div-eq_of_eq-mul_left pos refl in
      let to : j * size / size ≡ j = div-eq_of_eq-mul_left pos refl in rw (at, to) (ground arith)

  -- For a range from frame `i` to frame `j`, with `i` at most `j`: if the frame after `j` has an
  -- address, the items are the `len` frames from `i` on, in order, and then none.
  pub take_items-frames :
      (j + 1) * size ≤ max_addr
      → take_items (suc (len size (range_of size i j))) size (range_of size i j)
        ≡ frames_from (len size (range_of size i j)) size i
  take_items-frames fits = rw len_value (
      drain (suc (j - i)) size i j (j + 1) pos (omega arith) (omega arith) fits
        (next_past size j pos))

  -- If frame `j` is the last that has an address, the items are the frames from `i` up to but not
  -- including `j`, although `len` counts it.
  take_items_top :
      j * size ≤ max_addr
      → max_addr < (j + 1) * size
      → (len size (range_of size i j) ≡ suc (j - i))
        × (take_items (suc (j - i)) size (range_of size i j) ≡ frames_from (j - i) size i)
  take_items_top fits over = (
    len_value,
    drain (j - i) size i j j pos (omega arith) (omega arith) fits (next_top size j pos over),
  )
