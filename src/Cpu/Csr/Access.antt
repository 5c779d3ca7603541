-- ===== src/Cpu/Csr/Access.antt =====
-- The supervisor's views of the machine's registers: sstatus, sie and sip of
-- src/cpu/csrs/scsr.c.
use risc_v_virtual_machine.Common.{ℕ, ◌<◌, ◌^◌, ◌≡◌, refl, arith}
use risc_v_virtual_machine.Common.{Bool, if◌then◌else◌, ◌==◌, ◌&&◌, ◌||◌, is_set, bit_and, bit_or}
use risc_v_virtual_machine.Bits.{bit-bit_or, bit-pow, bit, bit-lt, bit-bit_and, bit_and-lt}
use risc_v_virtual_machine.Cpu.{Cpu}
use risc_v_virtual_machine.Cpu.Csr.Names
use risc_v_virtual_machine.Cpu.Csr.Handlers.{
  masked, sie_read, sie_write, sip_write, sstatus_write, supervisor_interrupt_mask,
  sstatus_write_mask,
}
use risc_v_virtual_machine.Cpu.Csr.BitLaws.{bit-masked}

-- The interrupts of the supervisor: SSI, STI, SEI, and that of a counter's overflow.
abbrev is_interrupt : ℕ → Bool
is_interrupt i = i == 1 || i == 5 || i == 9 || i == 13

-- The supervisor may see and set its interrupts that are delegated to it.
abbrev pub is_supervisors : Cpu → ℕ → Bool
is_supervisors cpu i = is_interrupt i && is_set (bit (cpu.csrs Names.csr_mideleg) i)

digits_of_three :
    (a b c i : ℕ)
    → is_set (bit (bit_or (bit_or (2 ^ a) (2 ^ b)) (2 ^ c)) i) ≡ (i == a || i == b || i == c)
digits_of_three a b c i =
    rw
      (
        bit-bit_or (bit_or (2 ^ a) (2 ^ b)) (2 ^ c) i,
        bit-bit_or (2 ^ a) (2 ^ b) i,
        bit-pow a i,
        bit-pow b i,
        bit-pow c i,
      )
      (ground arith)

interrupt_digit : (i : ℕ) → is_set (bit supervisor_interrupt_mask i) ≡ is_interrupt i
interrupt_digit i =
    let low = bit_or (bit_or (2 ^ 1) (2 ^ 5)) (2 ^ 9) in
    rw (bit-bit_or low (2 ^ 13) i, bit-pow 13 i)
      (ground (arith, digits_of_three 1 5 9 i, bit-lt low i))

masked_by :
    (cpu : Cpu) (old value i : ℕ)
    → i < 64
    → bit (masked old (bit_and supervisor_interrupt_mask (cpu.csrs Names.csr_mideleg)) value) i
      ≡ (if is_supervisors cpu i then bit value i else bit old i)
masked_by cpu old value i h =
    rw
      (
        bit-masked old (bit_and supervisor_interrupt_mask (cpu.csrs Names.csr_mideleg)) value i
            (bit_and-lt 64 supervisor_interrupt_mask (cpu.csrs Names.csr_mideleg) (omega arith)) h,
        bit-bit_and supervisor_interrupt_mask (cpu.csrs Names.csr_mideleg) i,
      )
      (ground (
        arith,
        interrupt_digit i,
        bit-lt supervisor_interrupt_mask i,
        bit-lt (cpu.csrs Names.csr_mideleg) i,
      ))

-- A write to sie or to sip sets the digits of mie or mip of the supervisor's interrupts that are
-- delegated to it, and no other digit.
pub supervisor_write_lem :
    (cpu : Cpu) (value i : ℕ)
    → i < 64
    → (bit ((sie_write cpu value).csrs Names.csr_mie) i
        ≡ (if is_supervisors cpu i then bit value i else bit (cpu.csrs Names.csr_mie) i))
      × (bit ((sip_write cpu value).csrs Names.csr_mip) i
          ≡ (if is_supervisors cpu i then bit value i else bit (cpu.csrs Names.csr_mip) i))
unfolding sie_write sip_write
supervisor_write_lem cpu value i h = (
  masked_by cpu (cpu.csrs Names.csr_mie) value i h,
  masked_by cpu (cpu.csrs Names.csr_mip) value i h,
)

seen :
    (x mideleg i : ℕ)
    → bit (bit_and (bit_and x mideleg) supervisor_interrupt_mask) i
      ≡ (if is_set (bit supervisor_interrupt_mask i) && is_set (bit mideleg i) then bit x i else 0)
seen x mideleg i =
    rw (bit-bit_and (bit_and x mideleg) supervisor_interrupt_mask i, bit-bit_and x mideleg i)
      (ground (arith, bit-lt supervisor_interrupt_mask i, bit-lt mideleg i, bit-lt x i))

sie_write_mideleg :
    (cpu : Cpu) (value : ℕ)
    → (sie_write cpu value).csrs Names.csr_mideleg ≡ cpu.csrs Names.csr_mideleg
unfolding sie_write
sie_write_mideleg cpu value = refl

-- The supervisor reads back from sie the digits that it may set of what it wrote, and 0 elsewhere.
pub sie_read-sie_write :
    (cpu : Cpu) (value i : ℕ)
    → i < 64
    → bit (sie_read (sie_write cpu value)) i ≡ (if is_supervisors cpu i then bit value i else 0)
unfolding sie_read
sie_read-sie_write cpu value i h =
    rw
      (seen ((sie_write cpu value).csrs Names.csr_mie)
        ((sie_write cpu value).csrs Names.csr_mideleg) i)
      (ground (
        arith,
        interrupt_digit i,
        (supervisor_write_lem cpu value i h).0,
        sie_write_mideleg cpu value,
      ))

-- The digits of sstatus that can be written.
abbrev pub is_sstatus : ℕ → Bool
is_sstatus i = i == 1 || i == 5 || i == 8 || i == 18 || i == 19

sstatus_digit : (i : ℕ) → is_set (bit sstatus_write_mask i) ≡ is_sstatus i
sstatus_digit i =
    let low = bit_or (bit_or (2 ^ 1) (2 ^ 5)) (2 ^ 8) in
    rw
      (
        bit-bit_or (bit_or low (2 ^ 18)) (2 ^ 19) i,
        bit-bit_or low (2 ^ 18) i,
        bit-pow 18 i,
        bit-pow 19 i,
      )
      (ground (arith, digits_of_three 1 5 8 i, bit-lt low i))

-- A write to sstatus changes the digits SIE, SPIE, SPP, SUM and MXR of mstatus and no other, so
-- that the supervisor cannot change the machine's part.
pub sstatus_write_lem :
    (cpu : Cpu) (value i : ℕ)
    → i < 64
    → bit ((sstatus_write cpu value).csrs Names.csr_mstatus) i
      ≡ (if is_sstatus i then bit value i else bit (cpu.csrs Names.csr_mstatus) i)
unfolding sstatus_write
sstatus_write_lem cpu value i h =
    rw
      (
        bit-masked (cpu.csrs Names.csr_mstatus) sstatus_write_mask value i (omega arith) h,
        sstatus_digit i,
      )
      refl
