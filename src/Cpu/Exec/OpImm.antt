-- ===== src/Cpu/Exec/OpImm.antt =====
-- Register with an immediate: src/cpu/instructions/dispatchers/op_imm.c.
use risc_v_virtual_machine.Common.{bit_and, bit_or, bit_xor}
use risc_v_virtual_machine.Common.{◌==◌, if◌then◌else◌, ltb, u64, add64}
use risc_v_virtual_machine.Common.{field, ◌<<<◌, ◌>>>◌}
use risc_v_virtual_machine.Common.Int.{signed, unsigned, shift_right, ltb_ℤ}
use risc_v_virtual_machine.Cpu.{Cpu, cpu_read_reg, cpu_write_reg}
use risc_v_virtual_machine.Cpu.Trap.{raise_exception, exc_illegal_instruction}
use risc_v_virtual_machine.Cpu.Decode.{IType}

unfoldable pub addi : Cpu → IType → Cpu
addi cpu instruction =
    let rs1 = cpu_read_reg cpu instruction.rs1 in
    cpu_write_reg cpu instruction.rd (add64 rs1 instruction.imm)

unfoldable pub slli : Cpu → IType → Cpu
slli cpu instruction =
    let operand = cpu_read_reg cpu instruction.rs1 in
    cpu_write_reg cpu instruction.rd (u64 (operand <<< field instruction.imm 0 6))

unfoldable pub slti : Cpu → IType → Cpu
slti cpu instruction =
    let rs1 = cpu_read_reg cpu instruction.rs1 in
    cpu_write_reg cpu instruction.rd
      (if ltb_ℤ (signed 64 rs1) (signed 64 instruction.imm) then 1 else 0)

unfoldable pub sltiu : Cpu → IType → Cpu
sltiu cpu instruction =
    let rs1 = cpu_read_reg cpu instruction.rs1 in
    cpu_write_reg cpu instruction.rd (if ltb rs1 instruction.imm then 1 else 0)

unfoldable pub xori : Cpu → IType → Cpu
xori cpu instruction =
    let rs1 = cpu_read_reg cpu instruction.rs1 in
    cpu_write_reg cpu instruction.rd (bit_xor rs1 instruction.imm)

unfoldable pub srli : Cpu → IType → Cpu
srli cpu instruction =
    let operand = cpu_read_reg cpu instruction.rs1 in
    cpu_write_reg cpu instruction.rd (operand >>> field instruction.imm 0 6)

unfoldable pub srai : Cpu → IType → Cpu
srai cpu instruction =
    let operand = cpu_read_reg cpu instruction.rs1 in
    cpu_write_reg cpu instruction.rd
      (unsigned 64 (shift_right (signed 64 operand) (field instruction.imm 0 6)))

unfoldable pub sri : Cpu → IType → Cpu
sri cpu instruction =
    if instruction.imm >>> 6 == 0b010000
    then srai cpu instruction
    else if instruction.imm >>> 6 == 0b000000
    then srli cpu instruction
    else raise_exception cpu exc_illegal_instruction instruction.raw

unfoldable pub ori : Cpu → IType → Cpu
ori cpu instruction =
    let rs1 = cpu_read_reg cpu instruction.rs1 in
    cpu_write_reg cpu instruction.rd (bit_or rs1 instruction.imm)

unfoldable pub andi : Cpu → IType → Cpu
andi cpu instruction =
    let rs1 = cpu_read_reg cpu instruction.rs1 in
    cpu_write_reg cpu instruction.rd (bit_and rs1 instruction.imm)

unfoldable pub dispatch_op_imm : Cpu → IType → Cpu
dispatch_op_imm cpu instruction =
    let funct3 = instruction.funct3 in
    if funct3 == 0x0
    then addi cpu instruction
    else if funct3 == 0x1
    then slli cpu instruction
    else if funct3 == 0x2
    then slti cpu instruction
    else if funct3 == 0x3
    then sltiu cpu instruction
    else if funct3 == 0x4
    then xori cpu instruction
    else if funct3 == 0x5
    then sri cpu instruction
    else if funct3 == 0x6
    then ori cpu instruction
    else if funct3 == 0x7
    then andi cpu instruction
    else raise_exception cpu exc_illegal_instruction instruction.raw
