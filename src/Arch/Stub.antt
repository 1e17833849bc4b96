-- ===== src/Arch/Stub.antt =====
-- The interrupt stubs in assembly of eira/src/arch/x86_64/idt.rs. A register is its number in the
-- encoding of instructions, memory is a function from addresses to words, and the Rust function
-- `trap_handler` is an argument, which changes the machine.
pub mod Resume
use avent.Base.{ℕ, ◌+◌, ◌-◌, ◌%◌, Bool, ◌==◌, if◌then◌else◌, List, [], ◌∷◌}

abbrev pub Registers : Type 0
Registers = ℕ → ℕ

abbrev pub Words : Type 0
Words = ℕ → ℕ

abbrev pub rax : ℕ
rax = 0

abbrev pub rcx : ℕ
rcx = 1

abbrev pub rdx : ℕ
rdx = 2

abbrev pub rbx : ℕ
rbx = 3

abbrev pub rbp : ℕ
rbp = 5

abbrev pub rsi : ℕ
rsi = 6

abbrev pub rdi : ℕ
rdi = 7

pub record Machine : Type 0 where
  pub registers : Registers
  pub rsp : ℕ
  pub memory : Words

-- What `iretq` goes back to.
pub record Interrupted : Type 0 where
  pub rip : ℕ
  pub cs : ℕ
  pub rflags : ℕ
  pub rsp : ℕ
  pub ss : ℕ

abbrev pub set : (ℕ → ℕ) → ℕ → ℕ → ℕ → ℕ
set f at value a = if a == at then value else f a

abbrev pub push : ℕ → Machine → Machine
push value m = record m { rsp = m.rsp - 8; memory = set m.memory (m.rsp - 8) value }

abbrev pub pop : ℕ → Machine → Machine
pop r m = record m { registers = set m.registers r (m.memory m.rsp); rsp = m.rsp + 8 }

unfoldable pub push_all : List ℕ → Machine → Machine
push_all [] m = m
push_all (r ∷ rs) m = push_all rs (push (m.registers r) m)

unfoldable pub pop_all : List ℕ → Machine → Machine
pop_all [] m = m
pop_all (r ∷ rs) m = pop_all rs (pop r m)

-- The registers in the order of the pushes and of the pops of `isr_common`.
abbrev pub pushed : List ℕ
pushed = rbp ∷ rax ∷ rbx ∷ rcx ∷ rdx ∷ rsi ∷ rdi ∷ 8 ∷ 9 ∷ 10 ∷ 11 ∷ 12 ∷ 13 ∷ 14 ∷ 15 ∷ []

abbrev pub popped : List ℕ
popped = 15 ∷ 14 ∷ 13 ∷ 12 ∷ 11 ∷ 10 ∷ 9 ∷ 8 ∷ rdi ∷ rsi ∷ rdx ∷ rcx ∷ rbx ∷ rax ∷ rbp ∷ []

-- The pushes up to the call, with the control registers `cr2` and `cr3`: the frame is at `rsp`.
unfoldable pub save_frame : ℕ → ℕ → Machine → Machine
save_frame cr2 cr3 m =
    let m = push_all pushed m in
    let m = push cr3 (record m { registers = set m.registers rax cr3 }) in
    push cr2 (record m { registers = set m.registers rax cr2 })

-- The registers and the stack pointer that the call of `trap_handler` sees.
unfoldable pub enter_handler : Machine → Machine
enter_handler m = record m {
  registers = set (set m.registers rdi m.rsp) rbx m.rsp;
  rsp = m.rsp - m.rsp % 16;
}

-- From the return of the call on: the stack pointer from `rbx`, the pops, and `iretq`.
unfoldable pub leave : Machine → Registers × Interrupted
leave m =
    let m = record m { rsp = m.registers rbx } in
    let m = pop_all popped (pop rax (pop rax m)) in
    let sp = m.rsp + 16 in
    (
      m.registers,
      record {
        rip = m.memory sp;
        cs = m.memory (sp + 8);
        rflags = m.memory (sp + 16);
        rsp = m.memory (sp + 24);
        ss = m.memory (sp + 32);
      },
    )

unfoldable pub isr_common : (Machine → Machine) → ℕ → ℕ → Machine → Registers × Interrupted
isr_common trap_handler cr2 cr3 m = leave (trap_handler (enter_handler (save_frame cr2 cr3 m)))

-- `isr_no_err!`
unfoldable pub isr_no_err : (Machine → Machine) → ℕ → ℕ → ℕ → Machine → Registers × Interrupted
isr_no_err trap_handler cr2 cr3 vector m = isr_common trap_handler cr2 cr3 (push vector (push 0 m))

-- `isr_with_err!`
unfoldable pub isr_with_err : (Machine → Machine) → ℕ → ℕ → ℕ → Machine → Registers × Interrupted
isr_with_err trap_handler cr2 cr3 vector m = isr_common trap_handler cr2 cr3 (push vector m)
