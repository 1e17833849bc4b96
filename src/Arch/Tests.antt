-- ===== src/Arch/Tests.antt =====
-- The descriptor tables and the interrupts on examples.
use avent.Base.{ℕ, ◌+◌, ◌-◌, ◌<◌, ◌≤◌, none, done, ◌>>=◌, [], ◌++◌, ◌≡◌, ◌≢◌, arith}
use avent.Arch.Gdt.{new_gdt, set_tss, tss_size}
use avent.Arch.Gdt.Descriptor.{descriptor_base, descriptor_limit, descriptor_access, set_tss-fields}
use avent.Arch.Idt.{Idt, new_idt, load, missing}
use avent.Arch.Idt.Gates.{LeadsTo, own_stack, load-LeadsTo}
use avent.Arch.Stub.{Machine, set, rax}
use avent.Arch.Irq.{
  IrqHandler, IrqHandlers, resumes, irq_base, irq_max, platform_register_irq, trap_handler,
}
use avent.Arch.Irq.Lines.{acknowledged, platform_register_irq-trap_handler}

-- In the upper half.
abbrev segment_at : ℕ
segment_at = 18446744071562067968

set_tss-fields_example :
    (descriptor_base (set_tss new_gdt segment_at).tss_low (set_tss new_gdt segment_at).tss_high
      ≡ segment_at)
    × (descriptor_limit (set_tss new_gdt segment_at).tss_low ≡ tss_size - 1)
    × (descriptor_access (set_tss new_gdt segment_at).tss_low ≡ 128 + 9)
set_tss-fields_example = set_tss-fields new_gdt segment_at (omega arith)

abbrev kernel_stubs : ℕ → ℕ
kernel_stubs v = segment_at

load-LeadsTo_example :
    (t : Idt) × (load kernel_stubs new_idt 4096 ≡ done (t, record { limit = 4095; base = 4096 }))
    × ((v : ℕ) → v < 34 → LeadsTo (t v) (kernel_stubs v) (own_stack v))
    × ((v : ℕ) → 34 ≤ v → t v ≡ missing)
load-LeadsTo_example = load-LeadsTo kernel_stubs 4096 (λ v. omega arith)

-- The timer counts.
abbrev count : IrqHandler ℕ
count s = done (s + 1)

abbrev no_handlers : IrqHandlers ℕ
no_handlers line = none

platform_register_irq-trap_handler_example :
    (after : IrqHandlers ℕ) × (platform_register_irq no_handlers 0 count ≡ done after)
    × (trap_handler after (irq_base + 0) 5 []
        ≡ (count 5 >>= λ t. done (resumes t ([] ++ acknowledged 0))))
    × ((line : ℕ)
        → line < irq_max
        → line ≢ 0
        → trap_handler after (irq_base + line) 5 []
          ≡ trap_handler no_handlers (irq_base + line) 5 [])
platform_register_irq-trap_handler_example =
    platform_register_irq-trap_handler ℕ no_handlers 0 count (omega arith) 5 []

-- A handler that leaves 7 in `rax`.
abbrev careless : Machine → Machine
careless e = record e { registers = set e.registers rax 7 }

-- At address 4096, with its number in each register.
abbrev running : Machine
running = record { registers = λ r. r; rsp = 4096; memory = λ a. a }
