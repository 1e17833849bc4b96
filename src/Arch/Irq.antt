-- ===== src/Arch/Irq.antt =====
-- eira/src/arch/x86_64/irq.rs, `trap_handler` of eira/src/arch/x86_64/idt.rs and `register_irq` of
-- eira/src/arch/x86_64/imp.rs. A handler changes a state `S`; the null pointer is `none`. A CPU
-- exception prints the frame and halts for good. The logging is left out.
pub mod Lines
use avent.Base.{
  ℕ, ◌-◌, ◌%◌, ◌^◌, Bool, Option, none, some, Outcome, done, assert, ◌>>=◌, ◌>>◌, ltb, leb, ◌==◌,
  if◌then◌else◌,
}
use avent.Arch.Pic.{Ports, send_eoi}

abbrev pub irq_base : ℕ
irq_base = 32

abbrev pub irq_max : ℕ
irq_max = 224

-- What a trap comes to: the interrupted code goes on, or the processor halts.
pub data Trap (S : Type 0) : Type 0 where
  resumes : S → Ports → Trap S
  halts : Trap S

abbrev pub IrqHandler : Type 0 → Type 0
IrqHandler S = S → Outcome S

-- IRQ_HANDLERS
abbrev pub IrqHandlers : Type 0 → Type 0
IrqHandlers S = ℕ → Option (IrqHandler S)

unfoldable pub register_irq :
    {S : Type 0} → IrqHandlers S → ℕ → IrqHandler S → Outcome (IrqHandlers S)
register_irq handlers irq handler = do
  assert (ltb irq irq_max)
  done (λ i. if i == irq then some handler else handlers i)

-- `Platform::register_irq`
unfoldable pub platform_register_irq :
    {S : Type 0} → IrqHandlers S → ℕ → IrqHandler S → Outcome (IrqHandlers S)
platform_register_irq handlers irq handler = do
  assert (leb irq 255)
  register_irq handlers (irq % 2 ^ 8) handler

unfoldable pub dispatch : {S : Type 0} → IrqHandlers S → ℕ → S → Outcome S
dispatch handlers irq s =
    if leb irq_max irq
    then done s
    else elim (handlers irq) [ none ↦ done s | some handler ↦ handler s ]

-- The argument is the field `vector` of the frame.
unfoldable pub trap_handler : {S : Type 0} → IrqHandlers S → ℕ → S → Ports → Outcome (Trap S)
trap_handler handlers frame_vector s ports =
    let vector = frame_vector % 2 ^ 8 in
    if ltb vector irq_base then done halts else do
      let irq_line = vector - irq_base
      s ← dispatch handlers irq_line s
      done (resumes s (send_eoi ports irq_line))
