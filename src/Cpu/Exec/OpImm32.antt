-- ===== src/Cpu/Exec/OpImm32.antt =====
-- Low words with an immediate: src/cpu/instructions/dispatchers/op_imm_32.c.
use risc_v_virtual_machine.Common.{◌+◌}
use risc_v_virtual_machine.Common.{◌==◌, if◌then◌else◌, u32}
use risc_v_virtual_machine.Common.{field, ◌<<<◌, ◌>>>◌}
use risc_v_virtual_machine.Common.Int.{signed, unsigned, shift_right}
use risc_v_virtual_machine.Cpu.{Cpu, cpu_read_reg, cpu_write_reg}
use risc_v_virtual_machine.Cpu.Trap.{raise_exception, exc_illegal_instruction}
use risc_v_virtual_machine.Cpu.Decode.{IType, sign_extend}

unfoldable pub addiw : Cpu → IType → Cpu
addiw cpu instruction =
    let rs1 = cpu_read_reg cpu instruction.rs1 in
    cpu_write_reg cpu instruction.rd (sign_extend (u32 (u32 rs1 + u32 instruction.imm)) 32)

unfoldable pub slliw : Cpu → IType → Cpu
slliw cpu instruction =
    let operand = cpu_read_reg cpu instruction.rs1 in
    cpu_write_reg cpu instruction.rd
      (sign_extend (u32 (u32 operand <<< field instruction.imm 0 5)) 32)

unfoldable pub sraiw : Cpu → IType → Cpu
sraiw cpu instruction =
    let operand = cpu_read_reg cpu instruction.rs1 in
    cpu_write_reg cpu instruction.rd (
      sign_extend (unsigned 32 (shift_right (signed 32 (u32 operand)) (field instruction.imm 0 5)))
        32)

unfoldable pub srliw : Cpu → IType → Cpu
srliw cpu instruction =
    let operand = cpu_read_reg cpu instruction.rs1 in
    cpu_write_reg cpu instruction.rd (sign_extend (u32 operand >>> field instruction.imm 0 5) 32)

unfoldable pub sriw : Cpu → IType → Cpu
sriw cpu instruction =
    if instruction.imm >>> 6 == 0b010000
    then sraiw cpu instruction
    else if instruction.imm >>> 6 == 0b000000
    then srliw cpu instruction
    else raise_exception cpu exc_illegal_instruction instruction.raw

unfoldable pub dispatch_op_imm_32 : Cpu → IType → Cpu
dispatch_op_imm_32 cpu instruction =
    let funct3 = instruction.funct3 in
    if funct3 == 0x0
    then addiw cpu instruction
    else if funct3 == 0x1
    then slliw cpu instruction
    else if funct3 == 0x5
    then sriw cpu instruction
    else raise_exception cpu exc_illegal_instruction instruction.raw
