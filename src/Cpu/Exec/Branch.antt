-- ===== src/Cpu/Exec/Branch.antt =====
-- Conditional branches: src/cpu/instructions/dispatchers/branch.c.
use risc_v_virtual_machine.Common.{◌==◌, if◌then◌else◌, ltb, leb, add64}
use risc_v_virtual_machine.Common.{true}
use risc_v_virtual_machine.Common.{not}
use risc_v_virtual_machine.Common.Int.{signed, ltb_ℤ}
use risc_v_virtual_machine.Cpu.{Cpu, cpu_read_reg}
use risc_v_virtual_machine.Cpu.Trap.{raise_exception, exc_illegal_instruction}
use risc_v_virtual_machine.Cpu.Decode.{BType}

unfoldable pub beq : Cpu → BType → Cpu
beq cpu instruction =
    let rs1 = cpu_read_reg cpu instruction.rs1 in
    let rs2 = cpu_read_reg cpu instruction.rs2 in
    if rs1 == rs2 then record cpu { pc = add64 cpu.pc instruction.imm; pc_written = true } else cpu

unfoldable pub bne : Cpu → BType → Cpu
bne cpu instruction =
    let rs1 = cpu_read_reg cpu instruction.rs1 in
    let rs2 = cpu_read_reg cpu instruction.rs2 in
    if not (rs1 == rs2)
    then record cpu { pc = add64 cpu.pc instruction.imm; pc_written = true }
    else cpu

unfoldable pub blt : Cpu → BType → Cpu
blt cpu instruction =
    let rs1 = cpu_read_reg cpu instruction.rs1 in
    let rs2 = cpu_read_reg cpu instruction.rs2 in
    if ltb_ℤ (signed 64 rs1) (signed 64 rs2)
    then record cpu { pc = add64 cpu.pc instruction.imm; pc_written = true }
    else cpu

unfoldable pub bge : Cpu → BType → Cpu
bge cpu instruction =
    let rs1 = cpu_read_reg cpu instruction.rs1 in
    let rs2 = cpu_read_reg cpu instruction.rs2 in
    if not (ltb_ℤ (signed 64 rs1) (signed 64 rs2))
    then record cpu { pc = add64 cpu.pc instruction.imm; pc_written = true }
    else cpu

unfoldable pub bltu : Cpu → BType → Cpu
bltu cpu instruction =
    let rs1 = cpu_read_reg cpu instruction.rs1 in
    let rs2 = cpu_read_reg cpu instruction.rs2 in
    if ltb rs1 rs2 then record cpu { pc = add64 cpu.pc instruction.imm; pc_written = true } else cpu

unfoldable pub bgeu : Cpu → BType → Cpu
bgeu cpu instruction =
    let rs1 = cpu_read_reg cpu instruction.rs1 in
    let rs2 = cpu_read_reg cpu instruction.rs2 in
    if leb rs2 rs1 then record cpu { pc = add64 cpu.pc instruction.imm; pc_written = true } else cpu

unfoldable pub dispatch_branch : Cpu → BType → Cpu
dispatch_branch cpu instruction =
    let funct3 = instruction.funct3 in
    if funct3 == 0x0
    then beq cpu instruction
    else if funct3 == 0x1
    then bne cpu instruction
    else if funct3 == 0x4
    then blt cpu instruction
    else if funct3 == 0x5
    then bge cpu instruction
    else if funct3 == 0x6
    then bltu cpu instruction
    else if funct3 == 0x7
    then bgeu cpu instruction
    else raise_exception cpu exc_illegal_instruction instruction.raw
