-- ===== src/Mm/Allocator/Chain.antt =====
-- The free list as memory holds it, and what `free_frame` and `pop_free` do to it.
use avent.Base.Words.{usize_values}
use avent.Base.{
  ℕ, ◌+◌, ◌-◌, ◌*◌, ◌/◌, ◌%◌, ◌^◌, ◌≤◌, ◌<◌, bit_and, bit_or, none, some, done, List, [], ◌∷◌,
  length, get_or, set, length-set, ◌≡◌, refl, sym, subst, arith, All, All-mono, Fresh, Distinct,
}
use avent.Mm.Addr.{page_size}
use avent.Mm.Addr.Phys.{max_addr}
use avent.Mm.Frame.{PhysFrame}
use avent.Mm.Allocator.{
  BitmapAllocator, Memory, store, free_list_empty, mark_allocated, mark_free, node_at, free_frame,
  allocate, deallocate,
}
use avent.Mm.Allocator.Bitmap.{bit_of, bit_of-set, bit_of-clear, is_allocated-bit}

abbrev pub frame_of : ℕ → PhysFrame
frame_of i = record { base = i * page_size }

-- From `head` the words in memory lead through the frames of the list to the end mark.
abbrev pub Chain : Memory → ℕ → ℕ → List ℕ → Type 0
Chain memory hhdm head [] = head ≡ free_list_empty
Chain memory hhdm head (i ∷ is) =
    (head ≡ i * page_size) × Chain memory hhdm (memory (i * page_size + hhdm)) is

-- Frame `i` has a bit, an address, and a node address that is not null.
abbrev pub IsTracked : ℕ → ℕ → ℕ → Type 0
IsTracked bytes hhdm i =
    (i / 8 < bytes)
    × (i * page_size ≤ max_addr)
    × (i * page_size + hhdm < usize_values)
    × (0 < i * page_size + hhdm)

abbrev pub IsFree : List ℕ → ℕ → Type 0
IsFree bitmap i = bit_of bitmap i ≡ 0

-- `chain` is the free list of `self`.
pub record Holds (self : BitmapAllocator) (memory : Memory) (chain : List ℕ) : Type 0 where
  pub tracked : All (IsTracked (length self.bitmap) self.hhdm_offset) chain
  pub bits : All (IsFree self.bitmap) chain
  pub linked : Chain memory self.hhdm_offset self.free_list_head chain
  pub distinct : Distinct chain
  pub counted : self.free ≡ length chain

pub Chain-store :
    (memory : Memory) (hhdm i off word head : ℕ) (is : List ℕ)
    → Fresh i is
    → off < page_size
    → Chain memory hhdm head is
    → Chain (store memory (i * page_size + hhdm + off) word) hhdm head is
Chain-store memory hhdm i off word head [] f h c = c
Chain-store memory hhdm i off word head (j ∷ is) f h c = (
  c.0,
  ground (arith, Chain-store memory hhdm i off word (memory (j * page_size + hhdm)) is f.1 h c.1),
)

pub IsTracked-set :
    (bitmap : List ℕ) (hhdm i v : ℕ) (is : List ℕ)
    → All (IsTracked (length bitmap) hhdm) is
    → All (IsTracked (length (set bitmap (i / 8) v)) hhdm) is
IsTracked-set bitmap hhdm i v is h =
    subst (λ n. All (IsTracked n hhdm) is) (sym (length-set bitmap (i / 8) v)) h

abbrev pub cleared : List ℕ → ℕ → List ℕ
cleared bitmap i = set bitmap (i / 8) (bit_and (get_or bitmap (i / 8) 0) (2 ^ 8 - 1 - 2 ^ (i % 8)))

abbrev pub marked : List ℕ → ℕ → List ℕ
marked bitmap i = set bitmap (i / 8) (bit_or (get_or bitmap (i / 8) 0) (2 ^ (i % 8)))

IsFree-cleared :
    (bitmap : List ℕ) (i : ℕ) (is : List ℕ)
    → i / 8 < length bitmap
    → All (IsFree bitmap) is
    → All (IsFree (cleared bitmap i)) is
IsFree-cleared bitmap i is h =
    All-mono (IsFree bitmap) (IsFree (cleared bitmap i)) is
      (λ j b. ground (arith, bit_of-clear bitmap i j h))

IsFree-marked :
    (bitmap : List ℕ) (i : ℕ) (is : List ℕ)
    → i / 8 < length bitmap
    → Fresh i is
    → All (IsFree bitmap) is
    → All (IsFree (marked bitmap i)) is
IsFree-marked bitmap i [] h f b = tt
IsFree-marked bitmap i (j ∷ is) h f b =
    (ground (arith, bit_of-set bitmap i j h), IsFree-marked bitmap i is h f.1 b.1)

-- `self` after frame `i` is pushed, and after it is popped.
abbrev pub pushed : BitmapAllocator → ℕ → BitmapAllocator
pushed self i = record self {
  bitmap = cleared self.bitmap i;
  free_list_head = i * page_size;
  free = self.free + 1;
}

abbrev pub popped : BitmapAllocator → Memory → ℕ → BitmapAllocator
popped self memory i = record self {
  bitmap = marked self.bitmap i;
  free_list_head = memory (i * page_size + self.hhdm_offset);
  free = self.free - 1;
}

module _ (self : BitmapAllocator) (memory : Memory) (i : ℕ) (is : List ℕ) where
  pub free_frame-pushed :
      IsTracked (length self.bitmap) self.hhdm_offset i
      → self.free + 1 < usize_values
      → free_frame self memory (frame_of i)
        ≡ done (pushed self i, store memory (i * page_size + self.hhdm_offset) self.free_list_head)
  unfolding free_frame mark_free node_at
  free_frame-pushed t h = let at : i * page_size / page_size ≡ i = omega arith in ground (arith, at)

  pub pushed-Holds :
      IsTracked (length self.bitmap) self.hhdm_offset i
      → Fresh i is
      → Holds self memory is
      → Holds
          (pushed self i)
          (store memory (i * page_size + self.hhdm_offset) self.free_list_head)
          (i ∷ is)
  pushed-Holds t f v = record {
    tracked = IsTracked-set self.bitmap self.hhdm_offset i _ (i ∷ is) (t, v.tracked);
    bits = (
      ground (arith, bit_of-clear self.bitmap i i t.0),
      IsFree-cleared self.bitmap i is t.0 v.bits,
    );
    linked = (
      refl,
      ground (
        arith,
        Chain-store memory self.hhdm_offset i 0 self.free_list_head self.free_list_head is f
            (omega arith) v.linked,
      ),
    );
    distinct = (f, v.distinct);
    counted = omega (arith, v.counted);
  }

  pub allocate-popped :
      Holds self memory (i ∷ is)
      → allocate self memory ≡ done (popped self memory i, some (frame_of i))
  unfolding allocate mark_allocated node_at
  allocate-popped v =
      let at : i * page_size / page_size ≡ i = omega arith in
      ground (arith, at, v.linked.0, v.tracked.0, v.counted)

  pub popped-Holds : Holds self memory (i ∷ is) → Holds (popped self memory i) memory is
  popped-Holds v = record {
    tracked = IsTracked-set self.bitmap self.hhdm_offset i _ is v.tracked.1;
    bits = IsFree-marked self.bitmap i is v.tracked.0.0 v.distinct.0 v.bits.1;
    linked = v.linked.1;
    distinct = v.distinct.1;
    counted = omega (arith, v.counted);
  }

pub allocate-empty :
    (self : BitmapAllocator) (memory : Memory)
    → Holds self memory []
    → allocate self memory ≡ done (self, none)
unfolding allocate
allocate-empty self memory v = ground (arith, v.linked)

pub deallocate-pushed :
    (self : BitmapAllocator) (memory : Memory) (i : ℕ)
    → IsTracked (length self.bitmap) self.hhdm_offset i
    → bit_of self.bitmap i ≡ 1
    → self.free + 1 < usize_values
    → deallocate self memory (frame_of i)
      ≡ done (pushed self i, store memory (i * page_size + self.hhdm_offset) self.free_list_head)
unfolding deallocate
deallocate-pushed self memory i t bit h =
    let at : i * page_size / page_size ≡ i = omega arith in
    ground (arith, at, is_allocated-bit self (frame_of i), free_frame-pushed self memory i [] t h)
