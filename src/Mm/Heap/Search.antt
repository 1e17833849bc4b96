-- ===== src/Mm/Heap/Search.antt =====
-- The search of `alloc` for the first block with room.
use native.Mathlib.Nat.{mod-lt}
use avent.Base.Words.{
  sub, add, usize_values, is_power_of_two, round_down, round_down_mod, power_pos, multiples_close,
}
use avent.Base.{
  ℕ, zero, suc, ◌+◌, ◌-◌, ◌%◌, ◌≤◌, ◌<◌, Bool, true, false, ◌&&◌, Option, none, some, Outcome, done,
  panic, leb, ltb, ltb→lt, ltb→le, leb→le, leb→lt, List, [], ◌∷◌, ◌++◌, length, All, ◌≡◌, refl, sym,
  ap, subst, ◌∙◌, arith, ◌⊎◌, inl, inr, Bool-cases,
}
use avent.Mm.Vm.Region.{Region}
use avent.Mm.Blocks.{IsBlock, mod_difference}
use avent.Mm.Blocks.Pieces.{HasNoRoom, FitsAt, multiple_of_unit}
use avent.Mm.Heap.{
  block_align, min_block_size, align_up, has_room, search, Headers, HeapAllocator, Link, next_of,
  read_link,
}
use avent.Mm.Heap.Chain.{Seg, link_after}

-- The first block with room, with the blocks before it and after it.
pub record Hit (size align : ℕ) (xs : List Region) : Type 0 where
  pub pre : List Region
  pub slot : Region
  pub post : List Region
  pub base : ℕ
  pub padding : ℕ
  pub whole : xs ≡ pre ++ slot ∷ post
  pub skipped : All (HasNoRoom size align) pre
  pub fits : FitsAt size align slot base padding

-- The least multiple of `align` from `a` on.
pub record IsUp (align a v : ℕ) : Type 0 where
  pub multiple : v % align ≡ 0
  pub above : a ≤ v
  pub least : (w : ℕ) → w % align ≡ 0 → a ≤ w → v ≤ w

-- No aligned address past the block overflows.
abbrev pub Reaches : ℕ → List Region → Type 0
Reaches align = All (λ x. x.base + align < usize_values)

-- What the search says of a list that begins at `link`.
abbrev pub Searched : ℕ → ℕ → Link → List Region → Outcome (Option (Link × ℕ × ℕ)) → Type 0
Searched size align link xs o =
    ((o ≡ done none) × All (HasNoRoom size align) xs)
    ⊎ ((h : Hit size align xs) × (o ≡ done (some (link_after link h.pre, h.slot.base, h.base))))

-- A padding of whole units is no smaller than a header.
has_room-leb :
    (room padding size : ℕ)
    → padding % block_align ≡ 0
    → room < usize_values
    → has_room room padding size ≡ leb (padding + size) room
unfolding has_room
has_room-leb room padding size whole bound =
    let unit : (ltb 0 padding && ltb padding min_block_size) ≡ false = ground (arith, whole) in
    rw unit (ground (arith, bound))

-- The search panics, which it does only where the next aligned address overflows, or it answers.
abbrev pub Outcomes : ℕ → ℕ → Link → List Region → Outcome (Option (Link × ℕ × ℕ)) → Type 0
Outcomes size align link xs o =
    ((o ≡ panic) × (Reaches align xs → ⊥)) ⊎ Searched size align link xs o

-- A block without room is skipped.
Searched-skip :
    (size align : ℕ) (link : Link) (x : Region) (xs : List Region)
    (o : Outcome (Option (Link × ℕ × ℕ)))
    → HasNoRoom size align x
    → Searched size align (next_of x.base) xs o
    → Searched size align link (x ∷ xs) o
Searched-skip size align link x xs o full (inl (e, all)) = inl (e, (full, all))
Searched-skip size align link x xs o full (inr (h, e)) = inr (
  record {
    pre = x ∷ h.pre;
    slot = h.slot;
    post = h.post;
    base = h.base;
    padding = h.padding;
    whole = ap (λ l. x ∷ l) h.whole;
    skipped = (full, h.skipped);
    fits = h.fits;
  },
  e,
)

Outcomes-skip :
    (size align : ℕ) (link : Link) (x : Region) (xs : List Region)
    (o : Outcome (Option (Link × ℕ × ℕ)))
    → HasNoRoom size align x
    → Outcomes size align (next_of x.base) xs o
    → Outcomes size align link (x ∷ xs) o
Outcomes-skip size align link x xs o full (inl (e, far)) = inl (e, λ reach. far reach.1)
Outcomes-skip size align link x xs o full (inr found) =
    inr (Searched-skip size align link x xs o full found)

-- `search` once the padding of the block is known.
abbrev judged :
    ℕ → ℕ → ℕ → HeapAllocator → Headers → Link → ℕ → ℕ → Bool → Outcome (Option (Link × ℕ × ℕ))
judged fuel size align self m link block v fits = elim fits [
  | true ↦ done (some (link, block, v))
  | false ↦ search fuel size align self m (next_of block)
]

search-judged :
    (fuel size align : ℕ) (self : HeapAllocator) (m : Headers) (link : Link) (block v padding : ℕ)
    (fits : Bool)
    → read_link link self m ≡ some block
    → align_up block align ≡ done v
    → sub v block ≡ done padding
    → has_room (m block).size padding size ≡ fits
    → search (suc fuel) size align self m link ≡ judged fuel size align self m link block v fits
unfolding search
search-judged fuel size align self m link block v padding fits e up gap room =
    rw (search, e, up, gap) (ap (judged fuel size align self m link block v) room)

module _ (size align : ℕ) (p : is_power_of_two align ≡ true) (units : align % block_align ≡ 0)
    (s : 0 < size) where
  align_up-IsUp :
      (a : ℕ) → a + align < usize_values → (v : ℕ) × (align_up a align ≡ done v) × IsUp align a v
  unfolding align_up
  align_up-IsUp a h =
      let top = a + align - 1 in
      let v = top - top % align in
      let sum : add a align ≡ done (a + align) = ground arith in
      let less : sub (a + align) 1 ≡ done top = ground (arith, power_pos align p) in
      let multiple : v % align ≡ 0 = round_down_mod top align (power_pos align p) in
      let above : a ≤ v = omega (arith, power_pos align p, mod-lt top (power_pos align p)) in
      (
        v,
        rw (sum, less) (ap done (round_down top align (omega arith) p)),
        record {
          multiple = multiple;
          above = above;
          least = λ w m k. multiples_close align w v m multiple (omega (arith, power_pos align p));
        },
      )

  align_up_panics : (a : ℕ) → ltb (a + align) usize_values ≡ false → align_up a align ≡ panic
  unfolding align_up
  align_up_panics a e = rw e refl

  -- A block whose next aligned address does not overflow has room, or the search goes on.
  search_near :
      (fuel : ℕ) (self : HeapAllocator) (m : Headers) (link : Link) (x : Region) (xs : List Region)
      → Seg m (read_link link self m) (x ∷ xs) none
      → IsBlock block_align x
      → x.base + align < usize_values
      → Outcomes size align (next_of x.base) xs (search fuel size align self m (next_of x.base))
      → Outcomes size align link (x ∷ xs) (search (suc fuel) size align self m link)
  search_near fuel self m link x xs l q near rest =
      let (v, up, is) = align_up-IsUp x.base near in
      let gap : sub v x.base ≡ done (v - x.base) = ground (arith, is.above) in
      let whole : (v - x.base) % block_align ≡ 0 =
        mod_difference block_align v x.base (multiple_of_unit block_align v align is.multiple units)
          q.base_aligned in
      let room : has_room (m x.base).size (v - x.base) size ≡ leb (v - x.base + size) x.size =
        subst (λ k. has_room k (v - x.base) size ≡ leb (v - x.base + size) x.size) (sym l.1)
          (has_room-leb x.size (v - x.base) size whole (omega (arith, q.bounded))) in
      let at = λ (fits : Bool) (e : leb (v - x.base + size) x.size ≡ fits).
        search-judged fuel size align self m link x.base v (v - x.base) fits l.0 up gap
          (room ∙ e) in
      elim (Bool-cases (leb (v - x.base + size) x.size)) [
        | inl e ↦
            let fits : FitsAt size align x v (v - x.base) =
              (omega (arith, is.above), is.multiple, leb→le (v - x.base + size) x.size e) in
            inr (
              inr (
                record {
                  pre = [];
                  slot = x;
                  post = xs;
                  base = v;
                  padding = v - x.base;
                  whole = refl;
                  skipped = tt;
                  fits = fits;
                },
                at true e,
              ))
        | inr e ↦
            let full : HasNoRoom size align x =
              λ a w h k. omega (arith, is.least a w h, leb→lt (v - x.base + size) x.size e) in
            rw (at false e) (
              Outcomes-skip size align link x xs (search fuel size align self m (next_of x.base))
                full rest)
      ]

  pub search-Outcomes :
      (fuel : ℕ) (self : HeapAllocator) (m : Headers) (link : Link) (xs : List Region)
      → length xs < fuel
      → Seg m (read_link link self m) xs none
      → All (IsBlock block_align) xs
      → Outcomes size align link xs (search fuel size align self m link)
  unfolding search
  search-Outcomes zero self m link xs f l q = absurd (omega arith)
  search-Outcomes (suc fuel) self m link [] f l q = inr (inl (rw (search, l) refl, tt))
  search-Outcomes (suc fuel) self m link (x ∷ xs) f l q =
      elim (Bool-cases (ltb (x.base + align) usize_values)) [
        | inl near ↦
            search_near fuel self m link x xs l q.0 (ltb→lt (x.base + align) usize_values near)
              (search-Outcomes fuel self m (next_of x.base) xs (omega arith) l.2 q.1)
        | inr far ↦ inl (
          rw (search, l.0, align_up_panics x.base far) refl,
          λ reach. omega (arith, reach.0, ltb→le (x.base + align) usize_values far),
        )
      ]
