-- ===== src/Cpu/Trap.antt =====
-- Exceptions and interrupts: src/cpu/trap.c and include/cpu/trap.h.
use risc_v_virtual_machine.Common.{ℕ, ◌^◌, true, ◌&&◌}
use risc_v_virtual_machine.Common.{bit_and, bit_or, not64, field, is_set, ltb, if◌then◌else◌}
use risc_v_virtual_machine.Cpu.{Cpu, s_mode, m_mode, set_csr}
use risc_v_virtual_machine.Cpu.Csr.Names
use risc_v_virtual_machine.Cpu.Csr.Handlers.{set_bit}

abbrev pub exc_instr_addr_misaligned : ℕ
exc_instr_addr_misaligned = 0

abbrev pub exc_instr_access_fault : ℕ
exc_instr_access_fault = 1

abbrev pub exc_illegal_instruction : ℕ
exc_illegal_instruction = 2

abbrev pub exc_breakpoint : ℕ
exc_breakpoint = 3

abbrev pub exc_load_addr_misaligned : ℕ
exc_load_addr_misaligned = 4

abbrev pub exc_load_access_fault : ℕ
exc_load_access_fault = 5

abbrev pub exc_store_addr_misaligned : ℕ
exc_store_addr_misaligned = 6

abbrev pub exc_store_access_fault : ℕ
exc_store_access_fault = 7

abbrev pub exc_ecall_u_mode : ℕ
exc_ecall_u_mode = 8

abbrev pub exc_ecall_s_mode : ℕ
exc_ecall_s_mode = 9

abbrev pub exc_ecall_m_mode : ℕ
exc_ecall_m_mode = 11

abbrev pub exc_instr_page_fault : ℕ
exc_instr_page_fault = 12

abbrev pub exc_load_page_fault : ℕ
exc_load_page_fault = 13

abbrev pub exc_store_page_fault : ℕ
exc_store_page_fault = 15

unfoldable pub enter_m_trap : Cpu → Cpu
enter_m_trap cpu =
    let mstatus = cpu.csrs Names.csr_mstatus in
    let mie = field mstatus 3 1 in
    let mstatus = set_bit mstatus 7 mie in
    let mstatus = set_bit mstatus 3 0 in
    let high_bit = field cpu.priviledge 1 1 in
    let low_bit = field cpu.priviledge 0 1 in
    let mstatus = set_bit mstatus 11 low_bit in
    let mstatus = set_bit mstatus 12 high_bit in
    let entered = set_csr cpu Names.csr_mstatus mstatus in
    record entered {
      priviledge = m_mode;
      pc = bit_and (entered.csrs Names.csr_mtvec) (not64 0x3);
      trap_taken = true;
    }

unfoldable pub enter_s_trap : Cpu → Cpu
enter_s_trap cpu =
    let mstatus = cpu.csrs Names.csr_mstatus in
    let sie = field mstatus 1 1 in
    let spp = field cpu.priviledge 0 1 in
    let mstatus = set_bit mstatus 8 spp in
    let mstatus = set_bit mstatus 5 sie in
    let mstatus = set_bit mstatus 1 0 in
    let entered = set_csr cpu Names.csr_mstatus mstatus in
    record entered {
      priviledge = s_mode;
      pc = bit_and (entered.csrs Names.csr_stvec) (not64 0x3);
      trap_taken = true;
    }

unfoldable pub raise_exception : Cpu → ℕ → ℕ → Cpu
raise_exception cpu cause tvalue =
    let medeleg_set = is_set (bit_and (cpu.csrs Names.csr_medeleg) (2 ^ cause)) in
    if ltb cpu.priviledge m_mode && medeleg_set
    then (let c = set_csr cpu Names.csr_sepc cpu.pc in
        let c = set_csr c Names.csr_scause cause in
        let c = set_csr c Names.csr_stval tvalue in enter_s_trap c)
    else (let c = set_csr cpu Names.csr_mepc cpu.pc in
        let c = set_csr c Names.csr_mcause cause in
        let c = set_csr c Names.csr_mtval tvalue in enter_m_trap c)

unfoldable pub raise_interrupt : Cpu → ℕ → Cpu
raise_interrupt cpu cause =
    let mideleg_set = is_set (bit_and (cpu.csrs Names.csr_mideleg) (2 ^ cause)) in
    if ltb cpu.priviledge m_mode && mideleg_set
    then (let c = set_csr cpu Names.csr_sepc cpu.pc in
        let c = set_csr c Names.csr_scause (bit_or (2 ^ 63) cause) in
        let c = set_csr c Names.csr_stval 0 in enter_s_trap c)
    else (let c = set_csr cpu Names.csr_mepc cpu.pc in
        let c = set_csr c Names.csr_mcause (bit_or (2 ^ 63) cause) in
        let c = set_csr c Names.csr_mtval 0 in enter_m_trap c)
