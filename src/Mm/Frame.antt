-- ===== src/Mm/Frame.antt =====
-- eira/src/mm/frame.rs: frames of `size` bytes and inclusive ranges of them. `size` is the const
-- generic `S`. The compile-time assertion that it is a power of two is the assertion that
-- `is_aligned` and `align_down` make.
pub mod Range
use avent.Base.Words
use avent.Base.{
  ℕ, ◌+◌, ◌-◌, ◌/◌, Bool, true, false, Option, none, some, Outcome, done, assert, ◌>>=◌, ◌>>◌, leb,
  ltb, ◌==◌, ◌&&◌, if◌then◌else◌,
}
use avent.Mm.Addr.Phys.{PhysAddr, is_aligned, align_down}
use avent.Mm.Addr.Phys

pub record PhysFrame : Type 0 where
  pub base : PhysAddr

abbrev pub frame_at : PhysAddr → PhysFrame
frame_at base = record { base = base }

unfoldable pub from_base : ℕ → PhysAddr → Outcome (Option PhysFrame)
from_base size base = do
  aligned ← is_aligned base size
  done (if aligned then some (frame_at base) else none)

unfoldable pub containing : ℕ → PhysAddr → Outcome PhysFrame
containing size addr = do base ← align_down addr size; done (frame_at base)

abbrev pub end : ℕ → PhysFrame → Option PhysAddr
end size self = Phys.checked_add self.base size

abbrev pub index : ℕ → PhysFrame → ℕ
index size self = self.base / size

abbrev pub from_index : ℕ → ℕ → Option PhysFrame
from_index size index = elim (Words.checked_mul index size) [
  | some addr ↦ elim (Phys.new addr) [ some base ↦ some (frame_at base) | none ↦ none ]
  | none ↦ none
]
