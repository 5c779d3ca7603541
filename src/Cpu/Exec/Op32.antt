-- ===== src/Cpu/Exec/Op32.antt =====
-- Register to register on the low words: src/cpu/instructions/dispatchers/op_32.c. The sums of
-- `int32_t` wrap, as the compilers for this program make them; C leaves an overflow undefined.
use risc_v_virtual_machine.Common.{◌+◌, ◌-◌, ◌^◌}
use risc_v_virtual_machine.Common.{◌==◌, if◌then◌else◌, u32}
use risc_v_virtual_machine.Common.{field, ◌<<<◌, ◌>>>◌}
use risc_v_virtual_machine.Common.Int.{signed, unsigned, shift_right}
use risc_v_virtual_machine.Cpu.{Cpu, cpu_read_reg, cpu_write_reg}
use risc_v_virtual_machine.Cpu.Trap.{raise_exception, exc_illegal_instruction}
use risc_v_virtual_machine.Cpu.Decode.{RType, sign_extend}

unfoldable pub addw : Cpu → RType → Cpu
addw cpu instruction =
    let rs1 = cpu_read_reg cpu instruction.rs1 in
    let rs2 = cpu_read_reg cpu instruction.rs2 in
    cpu_write_reg cpu instruction.rd (sign_extend (u32 (u32 rs1 + u32 rs2)) 32)

unfoldable pub subw : Cpu → RType → Cpu
subw cpu instruction =
    let rs1 = cpu_read_reg cpu instruction.rs1 in
    let rs2 = cpu_read_reg cpu instruction.rs2 in
    cpu_write_reg cpu instruction.rd (sign_extend (u32 (u32 rs1 + 2 ^ 32 - u32 rs2)) 32)

unfoldable pub sllw : Cpu → RType → Cpu
sllw cpu instruction =
    let value = cpu_read_reg cpu instruction.rs1 in
    let shamt = cpu_read_reg cpu instruction.rs2 in
    cpu_write_reg cpu instruction.rd (sign_extend (u32 (u32 value <<< field shamt 0 5)) 32)

unfoldable pub srlw : Cpu → RType → Cpu
srlw cpu instruction =
    let value = cpu_read_reg cpu instruction.rs1 in
    let shamt = cpu_read_reg cpu instruction.rs2 in
    cpu_write_reg cpu instruction.rd (sign_extend (u32 value >>> field shamt 0 5) 32)

-- The mask of the shift amount is 0xF.
unfoldable pub sraw : Cpu → RType → Cpu
sraw cpu instruction =
    let value = cpu_read_reg cpu instruction.rs1 in
    let shamt = cpu_read_reg cpu instruction.rs2 in
    cpu_write_reg cpu instruction.rd
      (sign_extend (unsigned 32 (shift_right (signed 32 (u32 value)) (field shamt 0 4))) 32)

unfoldable pub dispatch_op_32 : Cpu → RType → Cpu
dispatch_op_32 cpu instruction =
    let funct3 = instruction.funct3 in
    let funct7 = instruction.funct7 in
    if funct3 == 0x0
    then (if funct7 == 0b0000000
        then addw cpu instruction
        else if funct7 == 0b0100000
        then subw cpu instruction
        else cpu)
    else if funct3 == 0x1
    then sllw cpu instruction
    else if funct3 == 0x5
    then (if funct7 == 0b0000000
        then srlw cpu instruction
        else if funct7 == 0b0100000
        then sraw cpu instruction
        else cpu)
    else raise_exception cpu exc_illegal_instruction instruction.raw
