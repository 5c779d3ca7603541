-- ===== src/Cpu/Exec/Op.antt =====
-- Register to register: src/cpu/instructions/dispatchers/op.c.
use risc_v_virtual_machine.Common.{bit_and, bit_or, bit_xor}
use risc_v_virtual_machine.Common.{◌==◌, if◌then◌else◌, ltb, u64, add64, sub64}
use risc_v_virtual_machine.Common.{field, ◌<<<◌, ◌>>>◌, to_word}
use risc_v_virtual_machine.Common.Int.{signed, unsigned, shift_right, ltb_ℤ}
use risc_v_virtual_machine.Cpu.{Cpu, cpu_read_reg, cpu_write_reg}
use risc_v_virtual_machine.Cpu.Trap.{raise_exception, exc_illegal_instruction}
use risc_v_virtual_machine.Cpu.Decode.{RType}

unfoldable pub add : Cpu → RType → Cpu
add cpu instruction =
    let op1 = cpu_read_reg cpu instruction.rs1 in
    let op2 = cpu_read_reg cpu instruction.rs2 in cpu_write_reg cpu instruction.rd (add64 op1 op2)

unfoldable pub sub : Cpu → RType → Cpu
sub cpu instruction =
    let op1 = cpu_read_reg cpu instruction.rs1 in
    let op2 = cpu_read_reg cpu instruction.rs2 in cpu_write_reg cpu instruction.rd (sub64 op1 op2)

unfoldable pub sll : Cpu → RType → Cpu
sll cpu instruction =
    let value = cpu_read_reg cpu instruction.rs1 in
    let shamt = cpu_read_reg cpu instruction.rs2 in
    cpu_write_reg cpu instruction.rd (u64 (value <<< field shamt 0 6))

unfoldable pub slt : Cpu → RType → Cpu
slt cpu instruction =
    let rs1 = cpu_read_reg cpu instruction.rs1 in
    let rs2 = cpu_read_reg cpu instruction.rs2 in
    cpu_write_reg cpu instruction.rd (to_word (ltb_ℤ (signed 64 rs1) (signed 64 rs2)))

unfoldable pub sltu : Cpu → RType → Cpu
sltu cpu instruction =
    let rs1 = cpu_read_reg cpu instruction.rs1 in
    let rs2 = cpu_read_reg cpu instruction.rs2 in
    cpu_write_reg cpu instruction.rd (to_word (ltb rs1 rs2))

unfoldable pub xor_op : Cpu → RType → Cpu
xor_op cpu instruction =
    let rs1 = cpu_read_reg cpu instruction.rs1 in
    let rs2 = cpu_read_reg cpu instruction.rs2 in cpu_write_reg cpu instruction.rd (bit_xor rs1 rs2)

unfoldable pub srl : Cpu → RType → Cpu
srl cpu instruction =
    let value = cpu_read_reg cpu instruction.rs1 in
    let shamt = cpu_read_reg cpu instruction.rs2 in
    cpu_write_reg cpu instruction.rd (value >>> field shamt 0 6)

unfoldable pub sra : Cpu → RType → Cpu
sra cpu instruction =
    let value = cpu_read_reg cpu instruction.rs1 in
    let shamt = cpu_read_reg cpu instruction.rs2 in
    cpu_write_reg cpu instruction.rd (unsigned 64 (shift_right (signed 64 value) (field shamt 0 6)))

unfoldable pub or_op : Cpu → RType → Cpu
or_op cpu instruction =
    let rs1 = cpu_read_reg cpu instruction.rs1 in
    let rs2 = cpu_read_reg cpu instruction.rs2 in cpu_write_reg cpu instruction.rd (bit_or rs1 rs2)

unfoldable pub and_op : Cpu → RType → Cpu
and_op cpu instruction =
    let rs1 = cpu_read_reg cpu instruction.rs1 in
    let rs2 = cpu_read_reg cpu instruction.rs2 in cpu_write_reg cpu instruction.rd (bit_and rs1 rs2)

unfoldable pub dispatch_op : Cpu → RType → Cpu
dispatch_op cpu instruction =
    let funct3 = instruction.funct3 in
    let funct7 = instruction.funct7 in
    if funct3 == 0x0
    then (if funct7 == 0b0000000
        then add cpu instruction
        else if funct7 == 0b0100000
        then sub cpu instruction
        else cpu)
    else if funct3 == 0x1
    then sll cpu instruction
    else if funct3 == 0x2
    then slt cpu instruction
    else if funct3 == 0x3
    then sltu cpu instruction
    else if funct3 == 0x4
    then xor_op cpu instruction
    else if funct3 == 0x5
    then (if funct7 == 0b0000000
        then srl cpu instruction
        else if funct7 == 0b0100000
        then sra cpu instruction
        else cpu)
    else if funct3 == 0x6
    then or_op cpu instruction
    else if funct3 == 0x7
    then and_op cpu instruction
    else raise_exception cpu exc_illegal_instruction instruction.raw
