-- ===== src/Mm/Allocator/Regions.antt =====
-- `add_region`: which frames of a region go on the free list, and in which order.
use avent.Base.Words.{usize_values, is_power_of_two}
use avent.Base.{
  ℕ, zero, suc, ◌+◌, ◌-◌, ◌*◌, ◌/◌, ◌%◌, ◌≤◌, ◌<◌, true, some, done, List, [], ◌∷◌, length, leb,
  lt→ltb, leb→le, leb→lt, if◌then◌else◌, ◌≡◌, refl, ap, sym, ◌∙◌, subst, length-set, arith, Fresh,
  inl, inr, Bool-cases,
}
use avent.Mm.Addr.{page_size}
use avent.Mm.Addr.Phys.{max_addr}
use avent.Mm.Addr.Phys
use avent.Mm.Addr.Align.{align_down-eq-sub, align_up-eq-new}
use avent.Mm.Frame.{index, from_index, containing}
use avent.Mm.Allocator.{BitmapAllocator, Memory, store, add_frames, add_region}
use avent.Mm.Allocator.Chain.{frame_of, IsTracked, Holds, pushed, free_frame-pushed, pushed-Holds}

page_power : is_power_of_two page_size ≡ true
unfolding is_power_of_two
page_power = refl

-- The frames `i`, `i + 1`, … pushed one after the other.
abbrev pub added : ℕ → ℕ → List ℕ → List ℕ
added zero i chain = chain
added (suc count) i chain = added count (i + 1) (i ∷ chain)

-- The frames `i` up to `i + count - 1` can be freed: they have a bit and a node, and are not free.
abbrev pub Addable : ℕ → ℕ → List ℕ → ℕ → ℕ → Type 0
Addable bytes hhdm chain zero i = Unit
Addable bytes hhdm chain (suc count) i =
    IsTracked bytes hhdm i × Fresh i chain × Addable bytes hhdm chain count (i + 1)

Addable-push :
    (bytes hhdm : ℕ) (chain : List ℕ) (count i j : ℕ)
    → j < i
    → Addable bytes hhdm chain count i
    → Addable bytes hhdm (j ∷ chain) count i
Addable-push bytes hhdm chain zero i j h a = tt
Addable-push bytes hhdm chain (suc count) i j h a =
    (a.0, (omega arith, a.1), Addable-push bytes hhdm chain count (i + 1) j (omega arith) a.2)

next_frame :
    (i : ℕ)
    → (i + 1) * page_size ≤ max_addr
    → from_index page_size (index page_size (frame_of i) + 1) ≡ some (frame_of (i + 1))
next_frame i h = let at : i * page_size / page_size ≡ i = omega arith in ground (arith, at)

module _ (j : ℕ) (last : j * page_size ≤ max_addr) where
  add_frames_step :
      (fuel i : ℕ) (self : BitmapAllocator) (memory : Memory)
      → i < j
      → IsTracked (length self.bitmap) self.hhdm_offset i
      → self.free + 1 < usize_values
      → add_frames (suc fuel) self memory (frame_of i) (frame_of j)
        ≡ add_frames fuel
            (pushed self i)
            (store memory (i * page_size + self.hhdm_offset) self.free_list_head)
            (frame_of (i + 1))
            (frame_of j)
  unfolding add_frames
  add_frames_step fuel i self memory h t n =
      rw (lt→ltb (i * page_size) (j * page_size) (omega arith), add_frames)
        (rw (free_frame-pushed self memory i [] t n) (rw (next_frame i (omega arith)) refl))

  pub add_frames-Holds :
      (count fuel i : ℕ) (self : BitmapAllocator) (memory : Memory) (chain : List ℕ)
      → i + count ≡ j
      → count ≤ fuel
      → self.free + count < usize_values
      → Addable (length self.bitmap) self.hhdm_offset chain count i
      → Holds self memory chain
      → (a : BitmapAllocator) × (m : Memory) × (add_frames fuel self memory
            (frame_of i)
            (frame_of j)
          ≡ done (a, m))
        × Holds a m (added count i chain)
  unfolding add_frames
  add_frames-Holds zero zero i self memory chain e f n a v = (self, memory, refl, v)
  add_frames-Holds zero (suc fuel) i self memory chain e f n a v = (self, memory, ground arith, v)
  add_frames-Holds (suc count) zero i self memory chain e f n a v = absurd (omega arith)
  add_frames-Holds (suc count) (suc fuel) i self memory chain e f n a v =
      let memory' = store memory (i * page_size + self.hhdm_offset) self.free_list_head in
      let rest =
        add_frames-Holds count fuel (i + 1) (pushed self i) memory' (i ∷ chain) (omega arith)
          (omega arith) (omega arith)
          (subst (λ b. Addable b self.hhdm_offset (i ∷ chain) count (i + 1))
            (sym (length-set self.bitmap (i / 8) _))
            (Addable-push (length self.bitmap) self.hhdm_offset chain count (i + 1) i (omega arith)
              a.2))
          (pushed-Holds self memory i chain a.0 a.1 v) in
      (
        rest.0,
        rest.1,
        add_frames_step fuel i self memory (omega arith) a.0 (omega arith) ∙ rest.2,
        rest.3,
      )

-- The frames that lie wholly in the region of `len` bytes at `base`: from `first` up to `past`.
abbrev pub first_frame : ℕ → ℕ
first_frame base = (base + (page_size - 1)) / page_size

abbrev pub past_frame : ℕ → ℕ → ℕ
past_frame base len = (base + len) / page_size

page_down : (a : ℕ) → a ≤ max_addr → Phys.align_down a page_size ≡ done (a / page_size * page_size)
page_down a h =
    align_down-eq-sub a page_size (omega arith) page_power
    ∙ ap done (let e : a - a % page_size ≡ a / page_size * page_size = omega arith in e)

page_frame :
    (i : ℕ) → i * page_size ≤ max_addr → containing page_size (i * page_size) ≡ done (frame_of i)
unfolding containing
page_frame i h =
    let e : i * page_size / page_size * page_size ≡ i * page_size = omega arith in
    rw (page_down (i * page_size) h) (rw e refl)

page_up :
    (a : ℕ)
    → first_frame a * page_size ≤ max_addr
    → a ≤ max_addr
    → Phys.align_up a page_size ≡ done (some (first_frame a * page_size))
page_up a h v =
    align_up-eq-new a page_size v page_power
    ∙ (let e : a + 4095 - (a + 4095) % 4096 ≡ first_frame a * page_size = omega arith in
        rw e (ground arith))

module _ (self : BitmapAllocator) (memory : Memory) (chain : List ℕ) (base len : ℕ)
    (inside : base + len ≤ max_addr) (aligns : first_frame base * page_size ≤ max_addr) where
  abbrev count : ℕ
  count = past_frame base len - first_frame base

  abbrev first : ℕ
  first = first_frame base

  abbrev past : ℕ
  past = past_frame base len

  reduced : add_region self memory base len ≡ (
      if leb (past * page_size) (first * page_size)
      then done (self, memory)
      else add_frames count self memory (frame_of first) (frame_of past))
  unfolding add_region
  reduced =
      let fits : Phys.checked_add base len ≡ some (base + len) = ground arith in
      let at_first : first * page_size / page_size ≡ first = omega arith in
      let at_past : past * page_size / page_size ≡ past = omega arith in
      rw (page_up base aligns (omega arith)) (
        rw (page_frame first aligns) (
          rw fits (
            rw (page_down (base + len) inside)
              (rw (page_frame past (omega arith)) (rw (at_first, at_past) refl)))))

  -- For a region that ends at an address, and whose base rounds up to one: if its whole frames can be
  -- freed, `add_region` returns, and the free list is then these frames, the last one first, before
  -- those that were on it.
  pub add_region-Holds :
      Holds self memory chain
      → self.free + count < usize_values
      → Addable (length self.bitmap) self.hhdm_offset chain count (first_frame base)
      → (a : BitmapAllocator) × (m : Memory) × (add_region self memory base len ≡ done (a, m))
        × Holds a m (added count (first_frame base) chain)
  unfolding add_region
  add_region-Holds v n addable = elim (Bool-cases (leb (past * page_size) (first * page_size))) [
    | inl e ↦ (
      self,
      memory,
      reduced ∙ rw e refl,
      let none_left : count ≡ 0 = omega (arith, leb→le _ _ e) in
          subst (λ c. Holds self memory (added c first chain)) (sym none_left) v,
    )
    | inr e ↦
        let later = leb→lt _ _ e in
        let (a, m, runs, holds) =
          add_frames-Holds past (omega arith) count count first self memory chain
            (omega (arith, later)) (omega arith) n addable v in
        (a, m, reduced ∙ rw e runs, holds)
  ]
