-- ===== src/Arch/Idt.antt =====
-- eira/src/arch/x86_64/idt.rs: the interrupt descriptor table. A handler is its address; `stubs` gives the
-- address of `isr_stub_n`.
pub mod Gates
use avent.Base.Words.{usize_values}
use avent.Base.{
  ℕ, zero, suc, ◌+◌, ◌-◌, ◌*◌, ◌/◌, ◌%◌, ◌^◌, bit_and, Outcome, done, assert, ◌>>=◌, ◌>>◌, ltb,
  ◌==◌, if◌then◌else◌, List, [], ◌∷◌,
}
use avent.Arch.Gdt.{
  GdtPointer, kcode_selector, ist_df, ist_nmi, ist_mce, ist_ss, ist_gp, ist_pf, ist_bp,
}

abbrev pub interrupt_gate : ℕ
interrupt_gate = 142

pub record IdtEntry : Type 0 where
  pub offset_low : ℕ
  pub selector : ℕ
  pub ist : ℕ
  pub flags : ℕ
  pub offset_mid : ℕ
  pub offset_high : ℕ
  pub reserved : ℕ

abbrev pub missing : IdtEntry
missing = record {
  offset_low = 0;
  selector = 0;
  ist = 0;
  flags = 0;
  offset_mid = 0;
  offset_high = 0;
  reserved = 0;
}

-- `IdtEntry::new`
unfoldable pub new : ℕ → ℕ → IdtEntry
new handler ist = record {
  offset_low = handler % 2 ^ 16;
  selector = kcode_selector;
  ist = bit_and ist (2 ^ 3 - 1);
  flags = interrupt_gate;
  offset_mid = handler / 2 ^ 16 % 2 ^ 16;
  offset_high = handler / 2 ^ 32 % 2 ^ 32;
  reserved = 0;
}

-- The 256 entries by vector.
abbrev pub Idt : Type 0
Idt = ℕ → IdtEntry

-- `Idt::new`
abbrev pub new_idt : Idt
new_idt vector = missing

unfoldable pub set : Idt → ℕ → ℕ → ℕ → Outcome Idt
set self vector handler ist = do
  assert (ltb vector 256)
  done (λ v. if v == vector then new handler ist else self v)

-- The last arguments of the calls of `set` in `populate`, of vectors 0 to 33.
abbrev pub stub_ists : List ℕ
stub_ists =
    0 ∷ 0 ∷ ist_nmi ∷ ist_bp ∷ 0 ∷ 0 ∷ 0 ∷ 0 ∷ ist_df ∷ 0 ∷ 0 ∷ 0 ∷ ist_ss ∷ ist_gp ∷ ist_pf ∷ 0 ∷ 0
    ∷ 0 ∷ ist_mce ∷ 0 ∷ 0 ∷ 0 ∷ 0 ∷ 0 ∷ 0 ∷ 0 ∷ 0 ∷ 0 ∷ 0 ∷ 0 ∷ 0 ∷ 0 ∷ 0 ∷ 0 ∷ []

-- One call of `set` for each vector from `vector` on.
unfoldable pub set_stubs : (ℕ → ℕ) → Idt → ℕ → List ℕ → Outcome Idt
set_stubs stubs self vector [] = done self
set_stubs stubs self vector (ist ∷ ists) = do
  self ← set self vector (stubs vector) ist
  set_stubs stubs self (vector + 1) ists

unfoldable pub populate : (ℕ → ℕ) → Idt → Outcome Idt
populate stubs self = set_stubs stubs self 0 stub_ists

-- The entries and what `lidt` loads, for a table at the address `at`.
unfoldable pub load : (ℕ → ℕ) → Idt → ℕ → Outcome (Idt × GdtPointer)
load stubs self at = do
  self ← populate stubs self
  done (self, record { limit = (256 * 16 - 1) % 2 ^ 16; base = at })
