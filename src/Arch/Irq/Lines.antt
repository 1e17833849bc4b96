-- ===== src/Arch/Irq/Lines.antt =====
-- From the line of an interrupt to its handler.
use mathlib.Core.List.{append_assoc}
use avent.Base.{
  ==_iff, Bool-cases, inl, inr, ℕ, ◌+◌, ◌-◌, ◌%◌, ◌^◌, ◌<◌, true, false, some, done, ◌>>=◌, leb,
  ltb, ◌==◌, if◌then◌else◌, [], ◌∷◌, ◌++◌, ◌≡◌, ◌≢◌, refl, arith,
}
use avent.Arch.Pic.{Ports, pic1_command, pic2_command, send_eoi}
use avent.Arch.Irq.{
  resumes, irq_base, irq_max, IrqHandler, IrqHandlers, register_irq, platform_register_irq,
  dispatch, trap_handler,
}

-- The end of interrupt goes to the second controller for the lines 8 to 15 of the two, and to the first one always.
abbrev pub acknowledged : ℕ → Ports
acknowledged irq = (if ltb irq 8 then [] else (pic2_command, 32) ∷ []) ++ ((pic1_command, 32) ∷ [])

eoi : (ports : Ports) (irq : ℕ) → send_eoi ports irq ≡ ports ++ acknowledged irq
unfolding send_eoi
eoi ports irq = elim (Bool-cases (leb 8 irq)) [
  | inl e ↦
      let low : ltb irq 8 ≡ false = ground (arith, e) in
      rw (e, low) (append_assoc ports ((pic2_command, 32) ∷ []) ((pic1_command, 32) ∷ []))
  | inr e ↦ let low : ltb irq 8 ≡ true = ground (arith, e) in rw (e, low) refl
]

vector_of : (irq : ℕ) → irq < irq_max → (irq_base + irq) % 2 ^ 8 ≡ irq_base + irq
vector_of irq h = omega (arith, h)

above : (irq : ℕ) → ltb (irq_base + irq) irq_base ≡ false
above irq = ground arith

line_of : (irq : ℕ) → irq_base + irq - irq_base ≡ irq
line_of irq = omega arith

reaches : (irq : ℕ) → irq < irq_max → leb irq_max irq ≡ false
reaches irq h = ground (arith, h)

module _ (S : Type 0) (handlers : IrqHandlers S) (irq : ℕ) (handler : IrqHandler S)
    (inside : irq < irq_max) where
  -- The registration of a handler for a line below 224 returns; then the trap of the line runs the handler
  -- and, if it returns, acknowledges the interrupt at the controllers and resumes; the traps of the
  -- other lines are as they were.
  pub platform_register_irq-trap_handler :
      (s : S) (ports : Ports)
      → (after : IrqHandlers S) × (platform_register_irq handlers irq handler ≡ done after)
        × (trap_handler after (irq_base + irq) s ports
            ≡ (handler s >>= λ t. done (resumes t (ports ++ acknowledged irq))))
        × ((line : ℕ)
            → line < irq_max
            → line ≢ irq
            → trap_handler after (irq_base + line) s ports
              ≡ trap_handler handlers (irq_base + line) s ports)
  unfolding platform_register_irq register_irq trap_handler dispatch send_eoi
  platform_register_irq-trap_handler s ports =
      let byte : leb irq 255 ≡ true = ground (arith, inside) in
      let same : irq % 2 ^ 8 ≡ irq = omega (arith, inside) in
      let kept : ltb irq irq_max ≡ true = ground (arith, inside) in
      (
        (λ i. if i == irq then some handler else handlers i),
        rw (byte, same, kept) refl,
        rw
            (
              vector_of irq inside,
              line_of irq,
              above irq,
              reaches irq inside,
              (==_iff irq irq).1 refl,
              eoi ports irq,
            )
            refl,
        λ line l n. elim (Bool-cases (line == irq)) [
          | inl e ↦ absurd (n ((==_iff line irq).0 e))
          | inr e ↦ rw (vector_of line l, line_of line, above line, reaches line l, e) refl
        ],
      )
