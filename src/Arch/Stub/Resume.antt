-- ===== src/Arch/Stub/Resume.antt =====
-- The pops of a stub undo its pushes, whatever the handler did to the registers.
use avent.Base.{ℕ, ◌+◌, ◌≤◌, true, false, Bool, ◌||◌, ◌==◌, List, [], ◌∷◌, ◌++◌, ◌≡◌}
use avent.Arch.Stub.{Registers, Machine, Interrupted, rbx, rdi, pushed}

abbrev reversed : List ℕ → List ℕ
reversed [] = []
reversed (r ∷ rs) = reversed rs ++ (r ∷ [])

abbrev member : ℕ → List ℕ → Bool
member r [] = false
member r (x ∷ xs) = r == x || member r xs

-- What the calling convention and the type `&ExceptionFrame` say of `trap_handler`: it keeps `rbx`, and
-- writes neither the frame that `rdi` points to nor what lies above.
abbrev pub Preserves : (Machine → Machine) → Type 0
Preserves trap_handler =
    (e : Machine)
    → ((trap_handler e).registers rbx ≡ e.registers rbx)
      × ((a : ℕ) → e.registers rdi ≤ a → (trap_handler e).memory a ≡ e.memory a)

-- The registers that the stub pushes are those of `m`, and the five words at `sp` are gone back to.
abbrev pub Resumes : Machine → ℕ → Registers × Interrupted → Type 0
Resumes m sp o =
    ((r : ℕ) → member r pushed ≡ true → o.0 r ≡ m.registers r)
    × (o.1 ≡ record {
      rip = m.memory sp;
      cs = m.memory (sp + 8);
      rflags = m.memory (sp + 16);
      rsp = m.memory (sp + 24);
      ss = m.memory (sp + 32);
    })
