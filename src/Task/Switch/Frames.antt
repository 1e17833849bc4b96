-- ===== src/Task/Switch/Frames.antt =====
-- The frames that `new_context` and `switch_to_asm` write and pop.
use avent.Base.Words.{round_down, is_power_of_two, usize_values}
use avent.Base.{leb, true, ℕ, ◌+◌, ◌-◌, ◌%◌, ◌≤◌, ◌<◌, done, lt→ltb, ◌≡◌, refl, arith, ◌∙◌, ◌⊎◌}
use avent.Task.Switch.{
  new_stack, KernelStack, stack_align, top, Words, put, write_down, new_context, Registers, Machine,
  save, load, switch_to_asm,
}

-- The two memories agree on the word at `at` and on the seven words from `sp` on.
pub record Agree (old memory : Words) (at sp : ℕ) : Type 0 where
  pub context : memory at ≡ old at
  pub word_0 : memory sp ≡ old sp
  pub word_1 : memory (sp + 8) ≡ old (sp + 8)
  pub word_2 : memory (sp + 16) ≡ old (sp + 16)
  pub word_3 : memory (sp + 24) ≡ old (sp + 24)
  pub word_4 : memory (sp + 32) ≡ old (sp + 32)
  pub word_5 : memory (sp + 40) ≡ old (sp + 40)
  pub word_6 : memory (sp + 48) ≡ old (sp + 48)

-- The word at `at` is not in the frame of seven words from `sp` on.
abbrev pub IsOutside : ℕ → ℕ → Type 0
IsOutside at sp = (at + 8 ≤ sp) ⊎ (sp + 56 ≤ at)

-- The machine has these registers and memory.
abbrev pub RunsAt : Machine → Registers → ℕ → ℕ → Type 0
RunsAt t registers rsp rip = (t.registers ≡ registers) × (t.rsp ≡ rsp) × (t.rip ≡ rip)

saved_frame :
    (a : ℕ) (m : Machine)
    → 48 ≤ m.rsp
    → IsOutside a (m.rsp - 48)
    → (save a m a ≡ m.rsp - 48)
      × (save a m (m.rsp - 48) ≡ m.registers.r15)
      × (save a m (m.rsp - 48 + 8) ≡ m.registers.r14)
      × (save a m (m.rsp - 48 + 16) ≡ m.registers.r13)
      × (save a m (m.rsp - 48 + 24) ≡ m.registers.r12)
      × (save a m (m.rsp - 48 + 32) ≡ m.registers.rbp)
      × (save a m (m.rsp - 48 + 40) ≡ m.registers.rbx)
      × (save a m (m.rsp - 48 + 48) ≡ m.memory m.rsp)
unfolding save write_down
saved_frame a m deep outside =
    let back : m.rsp - 48 + 48 ≡ m.rsp = omega arith in
    (
      ground arith,
      ground arith,
      ground arith,
      ground arith,
      ground arith,
      ground arith,
      ground arith,
      rw back (ground arith),
    )

-- A task that was switched away from, with its context at `a` and its return address on top of the
-- stack, and whose frame and context nothing has changed since, resumes by the next switch to
-- it: with the registers that it had, behind its call, wherever that switch comes from.
pub switch_to_asm-resumes :
    (a c : ℕ) (m n : Machine)
    → 48 ≤ m.rsp
    → IsOutside a (m.rsp - 48)
    → Agree (save a m) (save c n) a (m.rsp - 48)
    → RunsAt (switch_to_asm c a n) m.registers (m.rsp + 8) (m.memory m.rsp)
unfolding switch_to_asm load
switch_to_asm-resumes a c m n deep outside kept =
    let sp = m.rsp - 48 in
    let (e, e0, e1, e2, e3, e4, e5, e6) = saved_frame a m deep outside in
    let at : save c n a ≡ sp = kept.context ∙ e in
    rw at (
      rw
          (
            kept.word_0 ∙ e0,
            kept.word_1 ∙ e1,
            kept.word_2 ∙ e2,
            kept.word_3 ∙ e3,
            kept.word_4 ∙ e4,
            kept.word_5 ∙ e5,
          )
          refl,
      omega arith,
      kept.word_6 ∙ e6,
    )

-- A new task, with its context at `a` and 64 bytes below the top of its stack that nothing has
-- changed since, starts by the first switch to it: at its entry, all kept registers 0, and with the
-- stack pointer one word below the top, as after a call.
pub new_context-starts :
    (a c entry stack_top : ℕ) (old : Words) (n : Machine)
    → 64 ≤ stack_top
    → Agree
        (put (new_context entry stack_top old).0 a (new_context entry stack_top old).1)
        (save c n)
        a
        (stack_top - 64)
    → IsOutside a (stack_top - 64)
    → RunsAt
        (switch_to_asm c a n)
        (record { rbx = 0; rbp = 0; r12 = 0; r13 = 0; r14 = 0; r15 = 0 })
        (stack_top - 8)
        entry
unfolding switch_to_asm load new_context write_down
new_context-starts a c entry stack_top old n deep kept outside =
    let at : save c n a ≡ stack_top - 64 = kept.context ∙ ground arith in
    let e0 : save c n (stack_top - 64) ≡ 0 = kept.word_0 ∙ ground arith in
    let e1 : save c n (stack_top - 64 + 8) ≡ 0 = kept.word_1 ∙ ground arith in
    let e2 : save c n (stack_top - 64 + 16) ≡ 0 = kept.word_2 ∙ ground arith in
    let e3 : save c n (stack_top - 64 + 24) ≡ 0 = kept.word_3 ∙ ground arith in
    let e4 : save c n (stack_top - 64 + 32) ≡ 0 = kept.word_4 ∙ ground arith in
    let e5 : save c n (stack_top - 64 + 40) ≡ 0 = kept.word_5 ∙ ground arith in
    let e6 : save c n (stack_top - 64 + 48) ≡ entry = kept.word_6 ∙ ground arith in
    rw at (rw (e0, e1, e2, e3, e4, e5) refl, omega arith, e6)

-- The initial stack pointer is the end of the buffer rounded down to 16 bytes; and in a buffer of at
-- least 80 bytes the 64 bytes below it are in the buffer.
pub top-IsAligned :
    (self : KernelStack)
    → self.base + self.size < usize_values
    → (t : ℕ) × (top self ≡ done t)
      × (t % stack_align ≡ 0)
      × (t ≤ self.base + self.size)
      × (self.base + self.size < t + stack_align)
      × (80 ≤ self.size → self.base + 64 ≤ t)
unfolding top is_power_of_two
top-IsAligned self h =
    let end = self.base + self.size in
    (
      end - end % stack_align,
      rw (lt→ltb end usize_values h, round_down end stack_align h refl) refl,
      omega arith,
      omega arith,
      omega arith,
      λ k. omega arith,
    )

-- `KernelStack::new` takes a buffer of 16 up to 63 bytes, and the first frame of a task on it reaches
-- below its base: the lowest word that `new_context` sets to 0 is under the buffer.
new_stack_short :
    (base size entry : ℕ) (old : Words)
    → 64 ≤ base
    → stack_align ≤ size
    → size < 64
    → base + size < usize_values
    → (s : KernelStack) × (t : ℕ) × (new_stack base size ≡ done s)
      × (top s ≡ done t)
      × (t - 64 < s.base)
      × ((new_context entry t old).0 (t - 64) ≡ 0)
unfolding new_stack new_context write_down
new_stack_short base size entry old high enough short h =
    let s : KernelStack = record { base = base; size = size } in
    let (t, e, aligned, below, close, room) = top-IsAligned s h in
    let ok : leb stack_align size ≡ true = ground arith in
    (s, t, rw ok refl, e, omega (arith, below, close), ground (arith, below, close))
