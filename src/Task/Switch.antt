-- ===== src/Task/Switch.antt =====
-- eira/src/task/stack.rs and eira/src/arch/x86_64/context.rs: kernel stacks, the first frame of a
-- task, and the switch. Memory is a function from the address of a word of 8 bytes to the word; where
-- the heap puts a stack is an argument.
pub mod Frames
use avent.Base.Words.{add, complement}
use avent.Base.{
  ℕ, ◌+◌, ◌-◌, bit_and, Outcome, done, assert, ◌>>=◌, ◌>>◌, leb, ◌==◌, if◌then◌else◌, List, [], ◌∷◌,
}

-- STACK_ALIGN
abbrev pub stack_align : ℕ
stack_align = 16

-- DEFAULT_STACK_SIZE
abbrev pub default_stack_size : ℕ
default_stack_size = 65536

-- The buffer: its address and its length.
pub record KernelStack : Type 0 where
  pub base : ℕ
  pub size : ℕ

-- `KernelStack::new`, with the address of the buffer.
unfoldable pub new_stack : ℕ → ℕ → Outcome KernelStack
new_stack base size = do assert (leb stack_align size); done (record { base = base; size = size })

-- `KernelStack::top`
unfoldable pub top : KernelStack → Outcome ℕ
top self = do end ← add self.base self.size; done (bit_and end (complement (stack_align - 1)))

abbrev pub Words : Type 0
Words = ℕ → ℕ

abbrev pub put : Words → ℕ → ℕ → Words
put memory at word a = if a == at then word else memory a

-- Words written one below the other, the stack pointer going down before each.
unfoldable pub write_down : List ℕ → ℕ → Words → Words
write_down [] sp memory = memory
write_down (v ∷ vs) sp memory = write_down vs (sp - 8) (put memory (sp - 8) v)

-- `X86_64Context::new`: the memory, and the stack pointer that the context holds.
unfoldable pub new_context : ℕ → ℕ → Words → Words × ℕ
new_context entry stack_top memory =
    (write_down (0 ∷ entry ∷ 0 ∷ 0 ∷ 0 ∷ 0 ∷ 0 ∷ 0 ∷ []) stack_top memory, stack_top - 64)

-- The registers that a call keeps.
pub record Registers : Type 0 where
  pub rbx : ℕ
  pub rbp : ℕ
  pub r12 : ℕ
  pub r13 : ℕ
  pub r14 : ℕ
  pub r15 : ℕ

pub record Machine : Type 0 where
  pub registers : Registers
  pub rsp : ℕ
  pub rip : ℕ
  pub memory : Words

-- The first half of `switch_to_asm`: six pushes, and the stack pointer stored in the context.
unfoldable pub save : ℕ → Machine → Words
save current m =
    let r = m.registers in
    put (write_down (r.rbx ∷ r.rbp ∷ r.r12 ∷ r.r13 ∷ r.r14 ∷ r.r15 ∷ []) m.rsp m.memory) current
      (m.rsp - 48)

-- The second half: the stack pointer from the context, six pops, and the return.
unfoldable pub load : ℕ → Words → Machine
load next memory =
    let sp = memory next in
    record {
      registers = record {
        rbx = memory (sp + 40);
        rbp = memory (sp + 32);
        r12 = memory (sp + 24);
        r13 = memory (sp + 16);
        r14 = memory (sp + 8);
        r15 = memory sp;
      };
      rsp = sp + 56;
      rip = memory (sp + 48);
      memory = memory;
    }

-- `switch_to_asm`, once the call has pushed the return address.
unfoldable pub switch_to_asm : ℕ → ℕ → Machine → Machine
switch_to_asm current next m = load next (save current m)
