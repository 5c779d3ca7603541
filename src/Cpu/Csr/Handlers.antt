-- ===== src/Cpu/Csr/Handlers.antt =====
-- The bits of a register, the read and write functions of single registers, and the reset:
-- csr_def.c, mcsr.c, scsr.c and ucsr.c of src/cpu/csrs.
use risc_v_virtual_machine.Common.{ℕ, ◌+◌, ◌*◌, ◌^◌}
use risc_v_virtual_machine.Common.{bit_and, bit_or, not64, if◌then◌else◌, is_set}
use risc_v_virtual_machine.Bus.{ram_base}
use risc_v_virtual_machine.Cpu.{Cpu, set_csr}
use risc_v_virtual_machine.Cpu.Csr.Names

unfoldable pub set_bit : ℕ → ℕ → ℕ → ℕ
set_bit value bit_num bit =
    if is_set bit then bit_or value (2 ^ bit_num) else bit_and value (not64 (2 ^ bit_num))

-- `(old & ~mask) | (value & mask)`.
unfoldable pub masked : ℕ → ℕ → ℕ → ℕ
masked old mask value = bit_or (bit_and old (not64 mask)) (bit_and value mask)

abbrev pub sstatus_write_mask : ℕ
sstatus_write_mask = 2 ^ 1 + 2 ^ 5 + 2 ^ 8 + 2 ^ 18 + 2 ^ 19

abbrev pub supervisor_interrupt_mask : ℕ
supervisor_interrupt_mask = 2 ^ 1 + 2 ^ 5 + 2 ^ 9 + 2 ^ 13

abbrev pub mstatus_write_mask : ℕ
mstatus_write_mask =
    2 ^ 1 + 2 ^ 3 + 2 ^ 5 + 2 ^ 7 + 2 ^ 8 + 3 * 2 ^ 11 + 2 ^ 17 + 2 ^ 18 + 2 ^ 19 + 2 ^ 20

abbrev pub mie_write_mask : ℕ
mie_write_mask = 2 ^ 1 + 2 ^ 3 + 2 ^ 5 + 2 ^ 7 + 2 ^ 9 + 2 ^ 11

abbrev pub misa_value : ℕ
misa_value = 2 * 2 ^ 62 + 2 ^ 0 + 2 ^ 8 + 2 ^ 12 + 2 ^ 18 + 2 ^ 20

unfoldable pub misa_write : Cpu → ℕ → Cpu
misa_write cpu value = cpu

unfoldable pub mtvec_write : Cpu → ℕ → Cpu
mtvec_write cpu value = set_csr cpu Names.csr_mtvec (bit_and value (not64 0x3))

unfoldable pub sstatus_write : Cpu → ℕ → Cpu
sstatus_write cpu value =
    set_csr cpu Names.csr_mstatus (masked (cpu.csrs Names.csr_mstatus) sstatus_write_mask value)

unfoldable pub sstatus_read : Cpu → ℕ
sstatus_read cpu = bit_or (bit_and (cpu.csrs Names.csr_mstatus) sstatus_write_mask) (2 * 2 ^ 32)

unfoldable pub stvec_write : Cpu → ℕ → Cpu
stvec_write cpu value = set_csr cpu Names.csr_stvec (bit_and value (not64 0x3))

unfoldable pub sepc_read : Cpu → ℕ
sepc_read cpu = bit_and (cpu.csrs Names.csr_sepc) (not64 0x3)

unfoldable pub sie_read : Cpu → ℕ
sie_read cpu =
    bit_and (bit_and (cpu.csrs Names.csr_mie) (cpu.csrs Names.csr_mideleg))
      supervisor_interrupt_mask

unfoldable pub sie_write : Cpu → ℕ → Cpu
sie_write cpu value =
    let mask = bit_and supervisor_interrupt_mask (cpu.csrs Names.csr_mideleg) in
    set_csr cpu Names.csr_mie (masked (cpu.csrs Names.csr_mie) mask value)

unfoldable pub sip_read : Cpu → ℕ
sip_read cpu =
    bit_and (bit_and (cpu.csrs Names.csr_mip) (cpu.csrs Names.csr_mideleg))
      supervisor_interrupt_mask

unfoldable pub sip_write : Cpu → ℕ → Cpu
sip_write cpu value =
    let mask = bit_and supervisor_interrupt_mask (cpu.csrs Names.csr_mideleg) in
    set_csr cpu Names.csr_mip (masked (cpu.csrs Names.csr_mip) mask value)

unfoldable pub cycle_read : Cpu → ℕ
cycle_read cpu = cpu.csrs Names.csr_mcycle

unfoldable pub instret_read : Cpu → ℕ
instret_read cpu = cpu.csrs Names.csr_minstret

unfoldable pub mcsr_reset : Cpu → Cpu
mcsr_reset cpu =
    let c = set_csr cpu Names.csr_misa misa_value in
    let c = set_csr c Names.csr_mstatus (3 * 2 ^ 11) in
    let c = set_csr c Names.csr_mtvec ram_base in
    let c = set_csr c Names.csr_medeleg 0 in
    let c = set_csr c Names.csr_mideleg 0 in
    let c = set_csr c Names.csr_mip 0 in
    let c = set_csr c Names.csr_mie 0 in
    let c = set_csr c Names.csr_mscratch 0 in
    let c = set_csr c Names.csr_mepc 0 in
    let c = set_csr c Names.csr_mcause 0 in
    let c = set_csr c Names.csr_mtval 0 in
    let c = set_csr c Names.csr_mhartid 0 in
    let c = set_csr c Names.csr_mvendorid 0 in
    let c = set_csr c Names.csr_marchid 0 in
    let c = set_csr c Names.csr_mimpid 0 in
    let c = set_csr c Names.csr_mcounteren 0 in
    let c = set_csr c Names.csr_mcycle 0 in set_csr c Names.csr_minstret 0

unfoldable pub scsr_reset : Cpu → Cpu
scsr_reset cpu =
    let c = set_csr cpu Names.csr_stvec 0 in
    let c = set_csr c Names.csr_sscratch 0 in
    let c = set_csr c Names.csr_sepc 0 in
    let c = set_csr c Names.csr_scause 0 in
    let c = set_csr c Names.csr_stval 0 in
    let c = set_csr c Names.csr_satp 0 in set_csr c Names.csr_scounteren 0

unfoldable pub ucsr_reset : Cpu → Cpu
ucsr_reset cpu = cpu
