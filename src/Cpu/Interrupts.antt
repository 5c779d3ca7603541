-- ===== src/Cpu/Interrupts.antt =====
-- Pending interrupts: `cpu_check_interrupts` and `cpu_set_interrupt_pending` of src/cpu/cpu.c.
pub mod Priority
use risc_v_virtual_machine.Common.{ℕ, ◌+◌, ◌-◌, ◌*◌, ◌/◌, ◌%◌, ◌^◌, Bool, true, false, ◌&&◌, not}
use risc_v_virtual_machine.Common.{bit_and, bit_or, not64, field, is_set, ◌==◌, if◌then◌else◌}
use risc_v_virtual_machine.Common.{List, [], ◌∷◌}
use risc_v_virtual_machine.Cpu.{Cpu, s_mode, m_mode, set_csr}
use risc_v_virtual_machine.Cpu.Csr.Names
use risc_v_virtual_machine.Cpu.Trap.{raise_interrupt}

-- MEI, MSI, MTI, SEI, SSI, STI.
abbrev pub priority : List ℕ
priority = 11 ∷ 3 ∷ 7 ∷ 9 ∷ 1 ∷ 5 ∷ []

-- The loop over the causes, at the values that the function read before it.
unfoldable pub check_causes : ℕ → ℕ → ℕ → Cpu → List ℕ → Cpu
check_causes mstatus mideleg pending cpu [] = cpu
check_causes mstatus mideleg pending cpu (cause ∷ rest) =
    let continue = check_causes mstatus mideleg pending cpu rest in
    let delegated = field mideleg cause 1 in
    let mie_global = field mstatus 3 1 in
    let sie_global = field mstatus 1 1 in
    if not (is_set (bit_and pending (2 ^ cause)))
    then continue
    else if not (is_set delegated)
    then (if cpu.priviledge == m_mode && not (is_set mie_global)
        then continue
        else raise_interrupt cpu cause)
    else if cpu.priviledge == m_mode
    then continue
    else if cpu.priviledge == s_mode && not (is_set sie_global)
    then continue
    else raise_interrupt cpu cause

unfoldable pub cpu_check_interrupts : Cpu → Cpu
unfolding check_causes
cpu_check_interrupts cpu =
    let mstatus = cpu.csrs Names.csr_mstatus in
    let mip = cpu.csrs Names.csr_mip in
    let mie = cpu.csrs Names.csr_mie in
    let mideleg = cpu.csrs Names.csr_mideleg in
    let pending = bit_and mip mie in
    if is_set pending then check_causes mstatus mideleg pending cpu priority else cpu

unfoldable pub cpu_set_interrupt_pending : Cpu → ℕ → ℕ → Cpu
cpu_set_interrupt_pending cpu cause pending =
    let mip = cpu.csrs Names.csr_mip in
    if is_set pending
    then set_csr cpu Names.csr_mip (bit_or mip (2 ^ cause))
    else set_csr cpu Names.csr_mip (bit_and mip (not64 (2 ^ cause)))
