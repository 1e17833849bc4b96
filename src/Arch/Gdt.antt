-- ===== src/Arch/Gdt.antt =====
-- eira/src/arch/x86_64/gdt.rs: the global descriptor table, the task state segment and the stacks.
-- A reference is the address of what it points to; what `lgdt`, `ltr` and the loads of the segment
-- registers leave in the processor is the record `Segments`.
pub mod Descriptor
use avent.Base.Words.{usize_values, add}
use avent.Base.{
  ℕ, zero, suc, ◌+◌, ◌-◌, ◌*◌, ◌/◌, ◌%◌, ◌^◌, bit_and, bit_or, Outcome, done, ◌>>=◌, List, [], ◌∷◌,
  replicate,
}

abbrev pub ist_stack_size : ℕ
ist_stack_size = 16384

abbrev pub ist_count : ℕ
ist_count = 7

abbrev pub ist_df : ℕ
ist_df = 1

abbrev pub ist_nmi : ℕ
ist_nmi = 2

abbrev pub ist_mce : ℕ
ist_mce = 3

abbrev pub ist_ss : ℕ
ist_ss = 4

abbrev pub ist_gp : ℕ
ist_gp = 5

abbrev pub ist_pf : ℕ
ist_pf = 6

abbrev pub ist_bp : ℕ
ist_bp = 7

-- `<<` and `>>` on a `u64`.
abbrev pub shl : ℕ → ℕ → ℕ
shl a k = a * 2 ^ k % usize_values

abbrev pub shr : ℕ → ℕ → ℕ
shr a k = a / 2 ^ k

abbrev pub kcode_selector : ℕ
kcode_selector = shl 1 3

abbrev pub kdata_selector : ℕ
kdata_selector = shl 2 3

abbrev pub tss_selector : ℕ
tss_selector = shl 3 3

abbrev pub descriptor_present : ℕ
descriptor_present = shl 1 47

abbrev pub dpl0 : ℕ
dpl0 = shl 0 45

abbrev pub code_data_type : ℕ
code_data_type = shl 1 44

abbrev pub long_mode : ℕ
long_mode = shl 1 53

abbrev pub executable : ℕ
executable = shl 1 43

abbrev pub descriptor_rw : ℕ
descriptor_rw = shl 1 41

abbrev pub system_type : ℕ
system_type = shl 0 44

abbrev pub tss_available : ℕ
tss_available = shl 9 40

abbrev pub kcode_desc : ℕ
kcode_desc =
    bit_or
      (bit_or (bit_or (bit_or (bit_or descriptor_present dpl0) code_data_type) executable)
        descriptor_rw)
      long_mode

abbrev pub kdata_desc : ℕ
kdata_desc = bit_or (bit_or (bit_or descriptor_present dpl0) code_data_type) descriptor_rw

pub record Tss : Type 0 where
  pub reserved0 : ℕ
  pub rsp0 : ℕ
  pub rsp1 : ℕ
  pub rsp2 : ℕ
  pub reserved1 : ℕ
  pub ist : List ℕ
  pub reserved2 : ℕ
  pub reserved3 : ℕ
  pub iomap_base : ℕ

-- `size_of::<Tss>()`: packed.
abbrev pub tss_size : ℕ
tss_size = 4 + 8 + 8 + 8 + 8 + 8 * ist_count + 8 + 2 + 2

unfoldable pub new_tss : Tss
new_tss = record {
  reserved0 = 0;
  rsp0 = 0;
  rsp1 = 0;
  rsp2 = 0;
  reserved1 = 0;
  ist = replicate ist_count 0;
  reserved2 = 0;
  reserved3 = 0;
  iomap_base = tss_size % 2 ^ 16;
}

pub record Gdt : Type 0 where
  pub null : ℕ
  pub kcode : ℕ
  pub kdata : ℕ
  pub tss_low : ℕ
  pub tss_high : ℕ

-- `size_of::<Gdt>()`: five words, up to the next multiple of 16.
abbrev pub gdt_size : ℕ
gdt_size = 48

unfoldable pub new_gdt : Gdt
new_gdt = record { null = 0; kcode = kcode_desc; kdata = kdata_desc; tss_low = 0; tss_high = 0 }

unfoldable pub set_tss : Gdt → ℕ → Gdt
set_tss self base =
    let limit = tss_size - 1 in
    record self {
      tss_low =
          bit_or
            (bit_or
              (bit_or
                (bit_or
                  (bit_or (bit_or (bit_and limit (2 ^ 16 - 1)) (shl (bit_and base (2 ^ 24 - 1)) 16))
                    system_type)
                  tss_available)
                descriptor_present)
              (shl (shr limit 16) 48))
            (shl (bit_and (shr base 24) (2 ^ 8 - 1)) 56);
      tss_high = shr base 32;
    }

pub record GdtPointer : Type 0 where
  pub limit : ℕ
  pub base : ℕ

unfoldable pub pointer : ℕ → GdtPointer
pointer self = record { limit = (gdt_size - 1) % 2 ^ 16; base = self }

-- Where the parts of a `CpuTables` are.
pub record CpuTables : Type 0 where
  pub gdt_at : ℕ
  pub tss_at : ℕ
  pub stacks_at : ℕ

-- The registers that hold segments and tables.
pub record Segments : Type 0 where
  pub gdtr : GdtPointer
  pub cs : ℕ
  pub ds : ℕ
  pub es : ℕ
  pub fs : ℕ
  pub gs : ℕ
  pub ss : ℕ
  pub tr : ℕ

-- The tops of the `n` stacks from stack `i` on.
unfoldable pub stack_tops : ℕ → ℕ → ℕ → Outcome (List ℕ)
stack_tops stacks i zero = done []
stack_tops stacks i (suc n) = do
  top ← add (stacks + i * ist_stack_size) ist_stack_size
  rest ← stack_tops stacks (i + 1) n
  done (top ∷ rest)

unfoldable pub load : CpuTables → Gdt → Tss → Outcome (Gdt × Tss × Segments)
load self gdt tss = do
  ist ← stack_tops self.stacks_at 0 ist_count
  rsp0 ← add (self.stacks_at + ist_count * ist_stack_size) ist_stack_size
  done (
    set_tss gdt self.tss_at,
    record tss { ist = ist; rsp0 = rsp0 },
    record {
      gdtr = pointer self.gdt_at;
      cs = kcode_selector;
      ds = kdata_selector;
      es = kdata_selector;
      fs = kdata_selector;
      gs = kdata_selector;
      ss = kdata_selector;
      tr = tss_selector;
    },
  )
