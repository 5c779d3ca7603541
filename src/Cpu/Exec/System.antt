-- ===== src/Cpu/Exec/System.antt =====
-- Traps, returns from traps and CSR instructions: src/cpu/instructions/dispatchers/system.c.
use risc_v_virtual_machine.Common.{ℕ, bit_and, bit_or}
use risc_v_virtual_machine.Common.{◌==◌, if◌then◌else◌}
use risc_v_virtual_machine.Common.{field, not64, is_set, Bool, true}
use risc_v_virtual_machine.Common.{not, ◌&&◌, none, some}
use risc_v_virtual_machine.Cpu.{
  Cpu, Machine, on_cpu, cpu_read_reg, cpu_write_reg, set_csr, s_mode, u_mode, m_mode,
}
use risc_v_virtual_machine.Cpu.Csr.Names
use risc_v_virtual_machine.Cpu.Csr.Handlers.{set_bit}
use risc_v_virtual_machine.Cpu.Trap.{raise_exception, exc_illegal_instruction, exc_breakpoint}
use risc_v_virtual_machine.Cpu.Trap.{exc_ecall_u_mode, exc_ecall_s_mode, exc_ecall_m_mode}
use risc_v_virtual_machine.Cpu.Decode.{IType}
use risc_v_virtual_machine.Bus.{Bus}
use risc_v_virtual_machine.Cpu.Csr.{csr_read, csr_write}

-- The causes are EXC_ECALL_U_MODE for any other value of the field.
unfoldable pub ecall : Cpu → IType → Cpu
ecall cpu instruction =
    let cause =
      if cpu.priviledge == m_mode
      then exc_ecall_m_mode
      else if cpu.priviledge == s_mode
      then exc_ecall_s_mode
      else if cpu.priviledge == u_mode
      then exc_ecall_u_mode
      else exc_ecall_u_mode in
    raise_exception cpu cause 0

unfoldable pub ebreak : Cpu → IType → Cpu
ebreak cpu instruction = raise_exception cpu exc_breakpoint 0

unfoldable pub sfence_vma : Cpu → IType → Cpu
sfence_vma cpu instruction =
    let tvm = is_set (field (cpu.csrs Names.csr_mstatus) 20 1) in
    if cpu.priviledge == u_mode
    then raise_exception cpu exc_illegal_instruction instruction.raw
    else if cpu.priviledge == s_mode
    then (if tvm then raise_exception cpu exc_illegal_instruction instruction.raw else cpu)
    else cpu

unfoldable pub sret : Cpu → IType → Cpu
sret cpu instruction =
    let mstatus = cpu.csrs Names.csr_mstatus in
    let spp = field mstatus 8 1 in
    let spie = field mstatus 5 1 in
    let mstatus = set_bit mstatus 1 spie in
    let mstatus = set_bit mstatus 5 1 in
    let mstatus = set_bit mstatus 8 0 in
    let lowered = record cpu { priviledge = spp } in
    let restored = set_csr lowered Names.csr_mstatus mstatus in
    if cpu.priviledge == u_mode
    then raise_exception cpu exc_illegal_instruction instruction.raw
    else record restored { pc = restored.csrs Names.csr_sepc; pc_written = true }

unfoldable pub mret : Cpu → IType → Cpu
mret cpu instruction =
    let mstatus = cpu.csrs Names.csr_mstatus in
    let mpp = field mstatus 11 2 in
    let mpie = field mstatus 7 1 in
    let mstatus = set_bit mstatus 3 mpie in
    let mstatus = set_bit mstatus 7 1 in
    let mstatus = set_bit mstatus 11 0 in
    let mstatus = set_bit mstatus 12 0 in
    let lowered = record cpu { priviledge = mpp } in
    let restored = set_csr lowered Names.csr_mstatus mstatus in
    if not (cpu.priviledge == m_mode)
    then raise_exception cpu exc_illegal_instruction instruction.raw
    else record restored { pc = restored.csrs Names.csr_mepc; pc_written = true }

unfoldable pub wfi : Cpu → IType → Cpu
wfi cpu instruction = cpu

abbrev pub csr_address : IType → ℕ
csr_address instruction = field instruction.raw 20 12

module _ {S : Type 0} ⦃bus : Bus S⦄ where
  abbrev pub illegal : IType → Machine S → Machine S
  illegal instruction = on_cpu (λ cpu. raise_exception cpu exc_illegal_instruction instruction.raw)

  abbrev pub write_rd : IType → ℕ → Machine S → Machine S
  write_rd instruction value = on_cpu (λ cpu. cpu_write_reg cpu instruction.rd value)

  -- The end of the six instructions: the write, unless it is left out, and the old value in `rd`.
  unfoldable pub csr_finish : Bool → ℕ → ℕ → IType → Machine S → Machine S
  csr_finish writes new old instruction m =
      if writes
      then elim (csr_write m (csr_address instruction) new) [
        | none ↦ illegal instruction m
        | some m' ↦ write_rd instruction old m'
      ]
      else write_rd instruction old m

  unfoldable pub csrrw : Machine S → IType → Machine S
  unfolding csr_finish
  csrrw m instruction =
      let new = cpu_read_reg m.cpu instruction.rs1 in
      let (old, m') =
        if not (instruction.rd == 0) then csr_read m (csr_address instruction) else (some 0, m) in
      elim old [
        | none ↦ illegal instruction m'
        | some value ↦ csr_finish true new value instruction m'
      ]

  unfoldable pub csrrs : Machine S → IType → Machine S
  unfolding csr_finish
  csrrs m instruction =
      let (old, m') = csr_read m (csr_address instruction) in
      let rs1 = cpu_read_reg m'.cpu instruction.rs1 in
      elim old [
        | none ↦ illegal instruction m'
        | some value ↦
            csr_finish (not (instruction.rs1 == 0)) (bit_or value rs1) value instruction m'
      ]

  unfoldable pub csrrc : Machine S → IType → Machine S
  unfolding csr_finish
  csrrc m instruction =
      let (old, m') = csr_read m (csr_address instruction) in
      let rs1 = cpu_read_reg m'.cpu instruction.rs1 in
      elim old [
        | none ↦ illegal instruction m'
        | some value ↦
            csr_finish (not (instruction.rs1 == 0)) (bit_and value (not64 rs1)) value instruction m'
      ]

  unfoldable pub csrrwi : Machine S → IType → Machine S
  unfolding csr_finish
  csrrwi m instruction =
      let (old, m') =
        if not (instruction.rd == 0) then csr_read m (csr_address instruction) else (some 0, m) in
      elim old [
        | none ↦ illegal instruction m'
        | some value ↦ csr_finish true instruction.rs1 value instruction m'
      ]

  unfoldable pub csrrsi : Machine S → IType → Machine S
  unfolding csr_finish
  csrrsi m instruction =
      let (old, m') = csr_read m (csr_address instruction) in
      let zimm = instruction.rs1 in
      elim old [
        | none ↦ illegal instruction m'
        | some value ↦
            csr_finish (not (instruction.rs1 == 0)) (bit_or value zimm) value instruction m'
      ]

  unfoldable pub csrrci : Machine S → IType → Machine S
  unfolding csr_finish
  csrrci m instruction =
      let (old, m') = csr_read m (csr_address instruction) in
      let zimm = instruction.rs1 in
      elim old [
        | none ↦ illegal instruction m'
        | some value ↦
            csr_finish (not (instruction.rs1 == 0)) (bit_and value (not64 zimm)) value instruction
              m'
      ]

  unfoldable pub dispatch_system : Machine S → IType → Machine S
  dispatch_system m instruction =
      let funct3 = instruction.funct3 in
      let funct7 = field instruction.raw 25 7 in
      let rd = field instruction.raw 7 5 in
      let imm = instruction.imm in
      let run = λ (f : Cpu → IType → Cpu). on_cpu (λ cpu. f cpu instruction) m in
      if funct3 == 0x0
      then (if funct7 == 0x09 && rd == 0
          then run sfence_vma
          else if imm == 0x000
          then run ecall
          else if imm == 0x001
          then run ebreak
          else if imm == 0x102
          then run sret
          else if imm == 0x302
          then run mret
          else if imm == 0x105
          then run wfi
          else illegal instruction m)
      else if funct3 == 0x1
      then csrrw m instruction
      else if funct3 == 0x2
      then csrrs m instruction
      else if funct3 == 0x3
      then csrrc m instruction
      else if funct3 == 0x5
      then csrrwi m instruction
      else if funct3 == 0x6
      then csrrsi m instruction
      else if funct3 == 0x7
      then csrrci m instruction
      else illegal instruction m
