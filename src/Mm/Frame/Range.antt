-- ===== src/Mm/Frame/Range.antt =====
-- `FrameRange` of eira/src/mm/frame.rs: the inclusive range of frames and its iterator.
pub mod Iterate
use avent.Base.{
  ℕ, ◌+◌, ◌-◌, ◌/◌, Bool, true, false, Option, none, some, Outcome, done, assert, ◌>>=◌, ◌>>◌, leb,
  ltb, ◌==◌, ◌&&◌, if◌then◌else◌,
}
use avent.Mm.Addr.Phys.{PhysAddr}
use avent.Mm.Addr.Phys
use avent.Mm.Frame.{PhysFrame, containing, index, from_index}

-- `end` is inclusive.
pub record FrameRange : Type 0 where
  pub start : PhysFrame
  pub end : PhysFrame

unfoldable pub from_addr_len : ℕ → PhysAddr → ℕ → Outcome (Option FrameRange)
from_addr_len size base len =
    if len == 0 then done none else elim (Phys.checked_add base (len - 1)) [
      | none ↦ done none
      | some end_addr ↦ do
        start ← containing size base
        end ← containing size end_addr
        done (some (record { start = start; end = end }))
    ]

unfoldable pub is_empty : ℕ → FrameRange → Bool
is_empty size self = ltb (index size self.end) (index size self.start)

unfoldable pub len : ℕ → FrameRange → ℕ
unfolding is_empty
len size self = if is_empty size self then 0 else index size self.end - index size self.start + 1

unfoldable pub contains : ℕ → FrameRange → PhysFrame → Bool
contains size self frame =
    leb (index size self.start) (index size frame) && leb (index size frame) (index size self.end)

-- `Iterator::next`: the item and the range that is left. Frames are compared by their bases.
unfoldable pub next : ℕ → FrameRange → Option PhysFrame × FrameRange
next size self =
    if leb self.start.base self.end.base
    then elim (from_index size (index size self.start + 1)) [
      | some start ↦ (some self.start, record self { start = start })
      | none ↦ (none, self)
    ]
    else (none, self)
