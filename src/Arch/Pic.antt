-- ===== src/Arch/Pic.antt =====
-- eira/src/arch/x86_64/pic.rs: what is written to the ports of the interrupt controllers and of the
-- timer. `Ports` lists the writes of `outb` so far, a port and a byte each, the latest last.
use avent.Base.{ℕ, ◌-◌, ◌/◌, ◌%◌, ◌^◌, bit_and, leb, if◌then◌else◌, List, [], ◌∷◌, ◌++◌}

abbrev pub Ports : Type 0
Ports = List (ℕ × ℕ)

abbrev pub pic1_command : ℕ
pic1_command = 32

abbrev pub pic1_data : ℕ
pic1_data = 33

abbrev pub pic2_command : ℕ
pic2_command = 160

abbrev pub pic2_data : ℕ
pic2_data = 161

abbrev pub icw1_init : ℕ
icw1_init = 17

abbrev pub icw4_8086 : ℕ
icw4_8086 = 1

abbrev pub outb : Ports → ℕ → ℕ → Ports
outb ports port value = ports ++ ((port, value) ∷ [])

-- The value that `disable_lapic` writes back for the low half of the register it reads.
unfoldable pub lapic_disabled : ℕ → ℕ
lapic_disabled lo = bit_and lo (2 ^ 32 - 1 - 2 ^ 11)

-- The two reads before are of no effect here.
unfoldable pub init : Ports → Ports
init ports =
    let ports = outb ports pic1_command icw1_init in
    let ports = outb ports pic2_command icw1_init in
    let ports = outb ports pic1_data 32 in
    let ports = outb ports pic2_data 40 in
    let ports = outb ports pic1_data 4 in
    let ports = outb ports pic2_data 2 in
    let ports = outb ports pic1_data icw4_8086 in
    let ports = outb ports pic2_data icw4_8086 in
    let ports = outb ports pic1_data 254 in outb ports pic2_data 255

unfoldable pub init_pit : Ports → Ports
init_pit ports =
    let divisor : ℕ = 11931 in
    let ports = outb ports 67 54 in
    let ports = outb ports 64 (bit_and divisor (2 ^ 8 - 1) % 2 ^ 8) in
    outb ports 64 (divisor / 2 ^ 8 % 2 ^ 8)

unfoldable pub send_eoi : Ports → ℕ → Ports
send_eoi ports irq =
    let ports = if leb 8 irq then outb ports pic2_command 32 else ports in
    outb ports pic1_command 32
