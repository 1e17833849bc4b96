-- ===== src/Mm/Init/Parts.antt =====
-- The parts of the memory map that `init` gives to the frame allocator.
use avent.Base.Words.{add, sub}
use avent.Base.{
  ℕ, ◌+◌, ◌-◌, ◌≤◌, ◌<◌, min, max, true, not, ◌&&◌, done, panic, sym, Outcome, ◌>>=◌, ltb, some,
  if◌then◌else◌, List, [], ◌∷◌, ◌++◌, ◌≡◌, ◌∙◌, refl, arith, inl, inr, Bool-cases,
}
use avent.Mm.Allocator.{BitmapAllocator, Memory}
use avent.Mm.Allocator
use avent.Mm.Addr.Phys
use avent.Mm.Vm.Region.{Region, region}
use avent.Mm.Blocks.{holds, covers}
use avent.Mm.Init.{MemmapEntry, add_part, add_entry}

-- What an entry has before and after the bitmap.
abbrev pub parts : ℕ → ℕ → MemmapEntry → List Region
parts bitmap_phys bitmap_end e =
    (if ltb e.base bitmap_phys
      then region e.base (min bitmap_phys (e.base + e.length) - e.base) ∷ []
      else [])
    ++ (if ltb bitmap_end (e.base + e.length)
        then region (max bitmap_end e.base) (e.base + e.length - max bitmap_end e.base) ∷ []
        else [])

-- The parts go to `add_region` of the allocator, one by one.
abbrev pub add_parts : BitmapAllocator → Memory → List Region → Outcome (BitmapAllocator × Memory)
add_parts self memory [] = done (self, memory)
add_parts self memory (r ∷ rs) =
    Allocator.add_region self memory r.base r.size >>= λ s. add_parts s.0 s.1 rs

-- A part below 2 ^ 52 that is not empty is an address and a length for `add_region`.
part-region :
    (self : BitmapAllocator) (memory : Memory) (base len : ℕ)
    → 0 < len
    → base ≤ Phys.max_addr
    → add_part self memory base len ≡ Allocator.add_region self memory base len
unfolding add_part
part-region self memory base len some_len small =
    let filled : ltb 0 len ≡ true = ground (arith, some_len) in
    let start : Phys.new base ≡ some base = ground (arith, small) in rw (filled, start) refl

bind_pair : (o : Outcome (BitmapAllocator × Memory)) → (o >>= λ s. add_parts s.0 s.1 []) ≡ o
bind_pair panic = refl
bind_pair (done s) = refl

-- For an entry with bytes, below 2 ^ 52, and a bitmap that ends after its start, `init` calls
-- `add_region` of the frame allocator on the parts of the entry before and after the bitmap, in this order, and they
-- have exactly the addresses of the entry that are not in the bitmap.
pub add_entry-parts :
    (bitmap_phys bitmap_end : ℕ) (self : BitmapAllocator) (memory : Memory) (e : MemmapEntry)
    → 0 < e.length
    → e.base + e.length ≤ Phys.max_addr
    → bitmap_phys ≤ bitmap_end
    → (add_entry bitmap_phys bitmap_end self memory e
        ≡ add_parts self memory (parts bitmap_phys bitmap_end e))
      × ((a : ℕ)
          → covers (parts bitmap_phys bitmap_end e) a ≡ (
              holds (region e.base e.length) a
              && not (holds (region bitmap_phys (bitmap_end - bitmap_phys)) a)))
unfolding add_entry
add_entry-parts bitmap_phys bitmap_end self memory e some_len small order =
    let end : add e.base e.length ≡ done (e.base + e.length) = ground (arith, small) in
    let before = min bitmap_phys (e.base + e.length) - e.base in
    let start = max bitmap_end e.base in
    let after = e.base + e.length - start in
    (
      elim (Bool-cases (ltb e.base bitmap_phys)) [
        | inl f ↦
            let len : sub (min bitmap_phys (e.base + e.length)) e.base ≡ done before =
              ground (arith, f) in
            let head =
              part-region self memory e.base before (ground (arith, f, some_len))
                (omega (arith, small)) in
            elim (Bool-cases (ltb bitmap_end (e.base + e.length))) [
              | inl g ↦
                  rw (end, f, len, g, tail_done g, head)
                    (λ i. Allocator.add_region self memory e.base before >>= λ s.
                      (tail_region s.0 s.1 g
                          ∙ sym (bind_pair (Allocator.add_region s.0 s.1 start after)))
                        i)
              | inr g ↦ rw (end, f, len, g, head) refl
            ]
        | inr f ↦ elim (Bool-cases (ltb bitmap_end (e.base + e.length))) [
          | inl g ↦
              rw (end, f, g, tail_done g)
                (tail_region self memory g
                  ∙ sym (bind_pair (Allocator.add_region self memory start after)))
          | inr g ↦ rw (end, f, g) refl
        ]
      ],
      λ a. elim (Bool-cases (ltb e.base bitmap_phys)) [
        | inl f ↦ elim (Bool-cases (ltb bitmap_end (e.base + e.length))) [
          | inl g ↦ rw (f, g) (ground (arith, order, f, g))
          | inr g ↦ rw (f, g) (ground (arith, order, f, g))
        ]
        | inr f ↦ elim (Bool-cases (ltb bitmap_end (e.base + e.length))) [
          | inl g ↦ rw (f, g) (ground (arith, order, f, g))
          | inr g ↦ rw (f, g) (ground (arith, order, f, g))
        ]
      ],
    )
  where
    tail_done :
        ltb bitmap_end (e.base + e.length) ≡ true
        → sub (e.base + e.length) (max bitmap_end e.base)
          ≡ done (e.base + e.length - max bitmap_end e.base)
    tail_done g = ground (arith, g)

    tail_region :
        (a : BitmapAllocator) (m : Memory)
        → ltb bitmap_end (e.base + e.length) ≡ true
        → add_part a m (max bitmap_end e.base) (e.base + e.length - max bitmap_end e.base)
          ≡ Allocator.add_region a m
              (max bitmap_end e.base)
              (e.base + e.length - max bitmap_end e.base)
    tail_region a m g =
        part-region a m (max bitmap_end e.base) (e.base + e.length - max bitmap_end e.base)
          (ground (arith, g, some_len)) (ground (arith, g, small))
