-- ===== src/Cpu/Exec/Load.antt =====
-- Loads: src/cpu/instructions/dispatchers/load.c.
use risc_v_virtual_machine.Common.{◌==◌, if◌then◌else◌, u32, add64}
use risc_v_virtual_machine.Common.{not}
use risc_v_virtual_machine.Cpu.{Machine, on_cpu, cpu_read_reg, cpu_write_reg}
use risc_v_virtual_machine.Cpu.Trap.{raise_exception, exc_illegal_instruction}
use risc_v_virtual_machine.Cpu.Decode.{IType, sign_extend}
use risc_v_virtual_machine.Bus.{Bus}
use risc_v_virtual_machine.Cpu.Access.{cpu_load8, cpu_load16, cpu_load32, cpu_load64}

module _ {S : Type 0} ⦃bus : Bus S⦄ where
  unfoldable pub lb : Machine S → IType → Machine S
  lb m instruction =
      let addr = add64 instruction.imm (cpu_read_reg m.cpu instruction.rs1) in
      let (result, m') = cpu_load8 m addr in
      if not result.success
      then m'
      else on_cpu (λ cpu. cpu_write_reg cpu instruction.rd (sign_extend (u32 result.value) 8)) m'

  unfoldable pub lh : Machine S → IType → Machine S
  lh m instruction =
      let addr = add64 instruction.imm (cpu_read_reg m.cpu instruction.rs1) in
      let (result, m') = cpu_load16 m addr in
      if not result.success
      then m'
      else on_cpu (λ cpu. cpu_write_reg cpu instruction.rd (sign_extend (u32 result.value) 16)) m'

  unfoldable pub lw : Machine S → IType → Machine S
  lw m instruction =
      let addr = add64 instruction.imm (cpu_read_reg m.cpu instruction.rs1) in
      let (result, m') = cpu_load32 m addr in
      if not result.success
      then m'
      else on_cpu (λ cpu. cpu_write_reg cpu instruction.rd (sign_extend (u32 result.value) 32)) m'

  unfoldable pub ld : Machine S → IType → Machine S
  ld m instruction =
      let addr = add64 instruction.imm (cpu_read_reg m.cpu instruction.rs1) in
      let (result, m') = cpu_load64 m addr in
      if not result.success
      then m'
      else on_cpu (λ cpu. cpu_write_reg cpu instruction.rd result.value) m'

  unfoldable pub lbu : Machine S → IType → Machine S
  lbu m instruction =
      let addr = add64 instruction.imm (cpu_read_reg m.cpu instruction.rs1) in
      let (result, m') = cpu_load8 m addr in
      if not result.success
      then m'
      else on_cpu (λ cpu. cpu_write_reg cpu instruction.rd result.value) m'

  unfoldable pub lhu : Machine S → IType → Machine S
  lhu m instruction =
      let addr = add64 instruction.imm (cpu_read_reg m.cpu instruction.rs1) in
      let (result, m') = cpu_load16 m addr in
      if not result.success
      then m'
      else on_cpu (λ cpu. cpu_write_reg cpu instruction.rd result.value) m'

  unfoldable pub lwu : Machine S → IType → Machine S
  lwu m instruction =
      let addr = add64 instruction.imm (cpu_read_reg m.cpu instruction.rs1) in
      let (result, m') = cpu_load32 m addr in
      if not result.success
      then m'
      else on_cpu (λ cpu. cpu_write_reg cpu instruction.rd result.value) m'

  unfoldable pub dispatch_load : Machine S → IType → Machine S
  dispatch_load m instruction =
      let funct3 = instruction.funct3 in
      if funct3 == 0x0
      then lb m instruction
      else if funct3 == 0x1
      then lh m instruction
      else if funct3 == 0x2
      then lw m instruction
      else if funct3 == 0x3
      then ld m instruction
      else if funct3 == 0x4
      then lbu m instruction
      else if funct3 == 0x5
      then lhu m instruction
      else if funct3 == 0x6
      then lwu m instruction
      else on_cpu (λ cpu. raise_exception cpu exc_illegal_instruction instruction.raw) m
