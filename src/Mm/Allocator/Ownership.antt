-- ===== src/Mm/Allocator/Ownership.antt =====
-- Clients of the frame allocator: which frames they hold after any calls, and that no call panics.
use avent.Base.Words.{usize_values}
use avent.Base.{
  ℕ, ◌+◌, ◌*◌, ◌/◌, ◌%◌, ◌<◌, none, some, Outcome, done, ◌>>=◌, List, [], ◌∷◌, length, get_elem?,
  remove_at, ◌≡◌, refl, ◌∙◌, arith, All, All-mono, All-at, All-remove_at, Fresh, Distinct,
  Distinct-remove_at, Fresh-of_All, Fresh-removed, length-remove_at, inl, inr, Option-cases,
}
use avent.Mm.Addr.{page_size}
use avent.Mm.Frame.{index}
use avent.Mm.Allocator.{BitmapAllocator, Memory, store, allocate, deallocate}
use avent.Mm.Allocator.Bitmap.{bit_of, bit_of-set, bit_of-clear}
use avent.Mm.Allocator.Chain.{
  frame_of, IsTracked, IsFree, Holds, Chain-store, pushed, popped, marked, cleared, pushed-Holds,
  allocate-popped, popped-Holds, allocate-empty, deallocate-pushed, IsTracked-set,
}

-- The allocator, the memory, and the indices of the frames that clients hold.
pub record State : Type 0 where
  pub allocator : BitmapAllocator
  pub memory : Memory
  pub held : List ℕ

-- What a client does: ask for a frame, give back the frame at a place of the list, or write a word
-- into such a frame.
pub data Op : Type 0 where
  alloc : Op
  free : ℕ → Op
  write : ℕ → ℕ → ℕ → Op

unfoldable pub step : Op → State → Outcome State
step alloc s = do
  (a, item) ← allocate s.allocator s.memory
  done (elim item [
    | none ↦ record s { allocator = a }
    | some frame ↦ record s { allocator = a; held = index page_size frame ∷ s.held }
  ])
step (free k) s = elim (get_elem? s.held k) [
  | none ↦ done s
  | some i ↦ do
    (a, m) ← deallocate s.allocator s.memory (frame_of i)
    done (record { allocator = a; memory = m; held = remove_at k s.held })
]
step (write k off word) s = elim (get_elem? s.held k) [
  | none ↦ done s
  | some i ↦ done (record s {
    memory = store s.memory (i * page_size + s.allocator.hhdm_offset + off % page_size) word;
  })
]

unfoldable pub run : List Op → State → Outcome State
run [] s = done s
run (op ∷ ops) s = step op s >>= run ops

abbrev pub IsHeld : List ℕ → ℕ → Type 0
IsHeld bitmap i = bit_of bitmap i ≡ 1

-- `chain` is the free list, and the held frames are distinct and marked.
pub record IsSound (chain : List ℕ) (s : State) : Type 0 where
  pub holds : Holds s.allocator s.memory chain
  pub marks : All (IsHeld s.allocator.bitmap) s.held
  pub tracks : All (IsTracked (length s.allocator.bitmap) s.allocator.hhdm_offset) s.held
  pub owners : Distinct s.held
  pub small : s.allocator.free + length s.held + 1 < usize_values

-- The outcome is a state in which held and free frames are as they should be, and as many.
abbrev pub Continues : State → Outcome State → Type 0
Continues s o =
    (t : State) × (o ≡ done t)
    × (chain : List ℕ) × IsSound chain t
    × (t.allocator.free + length t.held ≡ s.allocator.free + length s.held)

IsHeld-marked :
    (bitmap : List ℕ) (i : ℕ) (is : List ℕ)
    → i / 8 < length bitmap
    → All (IsHeld bitmap) is
    → All (IsHeld (marked bitmap i)) is
IsHeld-marked bitmap i is h =
    All-mono (IsHeld bitmap) (IsHeld (marked bitmap i)) is
      (λ j b. ground (arith, bit_of-set bitmap i j h))

IsHeld-cleared :
    (bitmap : List ℕ) (i : ℕ) (is : List ℕ)
    → i / 8 < length bitmap
    → Fresh i is
    → All (IsHeld bitmap) is
    → All (IsHeld (cleared bitmap i)) is
IsHeld-cleared bitmap i [] h f b = tt
IsHeld-cleared bitmap i (j ∷ is) h f b =
    (ground (arith, bit_of-clear bitmap i j h), IsHeld-cleared bitmap i is h f.1 b.1)

-- The free frame `i`, handed out.
pub popped-IsSound :
    (i : ℕ) (is : List ℕ) (s : State)
    → IsSound (i ∷ is) s
    → IsSound is (record s { allocator = popped s.allocator s.memory i; held = i ∷ s.held })
popped-IsSound i is s v = record {
  holds = popped-Holds s.allocator s.memory i is v.holds;
  marks = (
    ground (arith, bit_of-set s.allocator.bitmap i i v.holds.tracked.0.0),
    IsHeld-marked s.allocator.bitmap i s.held v.holds.tracked.0.0 v.marks,
  );
  tracks =
      IsTracked-set s.allocator.bitmap s.allocator.hhdm_offset i _ (i ∷ s.held)
        (v.holds.tracked.0, v.tracks);
  owners = (
    Fresh-of_All (IsHeld s.allocator.bitmap) i s.held (λ e. omega (arith, v.holds.bits.0)) v.marks,
    v.owners,
  );
  small = omega (arith, v.small, v.holds.counted);
}

alloc-Continues : (chain : List ℕ) (s : State) → IsSound chain s → Continues s (step alloc s)
unfolding step
alloc-Continues [] s v = (s, rw (allocate-empty s.allocator s.memory v.holds) refl, [], v, refl)
alloc-Continues (i ∷ is) s v = (
  record s { allocator = popped s.allocator s.memory i; held = i ∷ s.held },
  let at : i * page_size / page_size ≡ i = omega arith in
      rw (allocate-popped s.allocator s.memory i is v.holds) (rw at refl),
  is,
  popped-IsSound i is s v,
  omega (arith, v.holds.counted),
)

-- The state after the held frame `i`, which is at place `k`, goes back.
abbrev pub freed : ℕ → ℕ → State → State
freed k i s = record {
  allocator = pushed s.allocator i;
  memory = store s.memory (i * page_size + s.allocator.hhdm_offset) s.allocator.free_list_head;
  held = remove_at k s.held;
}

module _ (k i : ℕ) (chain : List ℕ) (s : State) (e : get_elem? s.held k ≡ some i)
    (v : IsSound chain s) where
  tracked : IsTracked (length s.allocator.bitmap) s.allocator.hhdm_offset i
  tracked = All-at _ k s.held i v.tracks e

  bit : bit_of s.allocator.bitmap i ≡ 1
  bit = All-at (IsHeld s.allocator.bitmap) k s.held i v.marks e

  pub deallocate-freed :
      deallocate s.allocator s.memory (frame_of i)
      ≡ done ((freed k i s).allocator, (freed k i s).memory)
  deallocate-freed = deallocate-pushed s.allocator s.memory i tracked bit (omega (arith, v.small))

  pub freed-IsSound : IsSound (i ∷ chain) (freed k i s)
  freed-IsSound = record {
    holds =
        pushed-Holds s.allocator s.memory i chain tracked
          (Fresh-of_All (IsFree s.allocator.bitmap) i chain (λ z. omega (arith, bit)) v.holds.bits)
          v.holds;
    marks =
        IsHeld-cleared s.allocator.bitmap i (remove_at k s.held) tracked.0
          (Fresh-removed i k s.held v.owners e)
          (All-remove_at (IsHeld s.allocator.bitmap) k s.held v.marks);
    tracks =
        IsTracked-set s.allocator.bitmap s.allocator.hhdm_offset i _ (remove_at k s.held)
          (All-remove_at _ k s.held v.tracks);
    owners = Distinct-remove_at k s.held v.owners;
    small = omega (arith, v.small, length-remove_at k s.held i e);
  }

  free-Continues : Continues s (step (free k) s)
  unfolding step
  free-Continues = (
    freed k i s,
    rw (e, step) (rw deallocate-freed refl),
    i ∷ chain,
    freed-IsSound,
    omega (arith, length-remove_at k s.held i e),
  )

write-Continues :
    (k off word i : ℕ) (chain : List ℕ) (s : State)
    → get_elem? s.held k ≡ some i
    → IsSound chain s
    → Continues s (step (write k off word) s)
unfolding step
write-Continues k off word i chain s e v = (
  record s {
    memory = store s.memory (i * page_size + s.allocator.hhdm_offset + off % page_size) word;
  },
  rw (e, step) refl,
  chain,
  record {
    holds = record {
      tracked = v.holds.tracked;
      bits = v.holds.bits;
      linked =
          Chain-store s.memory s.allocator.hhdm_offset i (off % page_size) word
            s.allocator.free_list_head chain apart (omega arith) v.holds.linked;
      distinct = v.holds.distinct;
      counted = v.holds.counted;
    };
    marks = v.marks;
    tracks = v.tracks;
    owners = v.owners;
    small = v.small;
  },
  refl,
)
  where
    bit : bit_of s.allocator.bitmap i ≡ 1
    bit = All-at (IsHeld s.allocator.bitmap) k s.held i v.marks e

    apart : Fresh i chain
    apart = Fresh-of_All (IsFree s.allocator.bitmap) i chain (λ z. omega (arith, bit)) v.holds.bits

step-Continues : (op : Op) (chain : List ℕ) (s : State) → IsSound chain s → Continues s (step op s)
unfolding step
step-Continues alloc chain s v = alloc-Continues chain s v
step-Continues (free k) chain s v = elim (Option-cases (get_elem? s.held k)) [
  | inl e ↦ (s, rw (e, step) refl, chain, v, refl)
  | inr (i, e) ↦ free-Continues k i chain s e v
]
step-Continues (write k off word) chain s v = elim (Option-cases (get_elem? s.held k)) [
  | inl e ↦ (s, rw (e, step) refl, chain, v, refl)
  | inr (i, e) ↦ write-Continues k off word i chain s e v
]

-- Any sequence of allocations, frees of held frames and writes into held frames, from a sound state
-- with fewer than 2 ^ 64 - 1 frames, ends without a panic in a sound state: the free list is whole, the
-- held frames are distinct, marked and not on it, and held and free frames are as many as before.
pub run-Continues :
    (ops : List Op) (chain : List ℕ) (s : State) → IsSound chain s → Continues s (run ops s)
unfolding run
run-Continues [] chain s v = (s, refl, chain, v, refl)
run-Continues (op ∷ ops) chain s v =
    let (t, e, c, w, n) = step-Continues op chain s v in
    let (u, f, d, x, m) = run-Continues ops c t w in (u, rw (e, run) f, d, x, m ∙ n)
