-- ===== src/Cpu/Exec/Jumps.antt =====
-- Jumps, upper immediates and fences: jal.c, jalr.c, lui.c, auipc.c and misc_mem.c of
-- src/cpu/instructions/dispatchers.
use risc_v_virtual_machine.Common.{bit_and}
use risc_v_virtual_machine.Common.{◌==◌, if◌then◌else◌, add64}
use risc_v_virtual_machine.Common.{not64, true}
use risc_v_virtual_machine.Common.{not, ◌||◌}
use risc_v_virtual_machine.Cpu.{Cpu, cpu_read_reg, cpu_write_reg}
use risc_v_virtual_machine.Cpu.Trap.{raise_exception, exc_illegal_instruction}
use risc_v_virtual_machine.Cpu.Decode.{IType, UType, JType}
use risc_v_virtual_machine.Cpu.Decode.{opcode_jal}

unfoldable pub jal : Cpu → JType → Cpu
jal cpu instruction =
    let old_pc = cpu.pc in
    let jumped = record cpu { pc = add64 old_pc instruction.imm; pc_written = true } in
    cpu_write_reg jumped instruction.rd (add64 old_pc 4)

unfoldable pub dispatch_jal : Cpu → JType → Cpu
dispatch_jal cpu instruction =
    if instruction.opcode == opcode_jal
    then jal cpu instruction
    else raise_exception cpu exc_illegal_instruction instruction.raw

unfoldable pub jalr : Cpu → IType → Cpu
jalr cpu instruction =
    let addr = add64 instruction.imm (cpu_read_reg cpu instruction.rs1) in
    let addr = bit_and addr (not64 1) in
    let linked = cpu_write_reg cpu instruction.rd (add64 cpu.pc 4) in
    record linked { pc = addr; pc_written = true }

unfoldable pub dispatch_jalr : Cpu → IType → Cpu
dispatch_jalr cpu instruction = jalr cpu instruction

unfoldable pub lui : Cpu → UType → Cpu
lui cpu instruction = cpu_write_reg cpu instruction.rd instruction.imm

unfoldable pub dispatch_lui : Cpu → UType → Cpu
dispatch_lui cpu instruction = lui cpu instruction

unfoldable pub auipc : Cpu → UType → Cpu
auipc cpu instruction = cpu_write_reg cpu instruction.rd (add64 cpu.pc instruction.imm)

unfoldable pub dispatch_auipc : Cpu → UType → Cpu
dispatch_auipc cpu instruction = auipc cpu instruction

unfoldable pub fence_i : Cpu → IType → Cpu
fence_i cpu instruction =
    if not (instruction.rd == 0) || not (instruction.rs1 == 0) || not (instruction.imm == 0)
    then raise_exception cpu exc_illegal_instruction instruction.raw
    else cpu

unfoldable pub fence : Cpu → IType → Cpu
fence cpu instruction = cpu

unfoldable pub dispatch_misc_mem : Cpu → IType → Cpu
dispatch_misc_mem cpu instruction =
    if instruction.funct3 == 0x0
    then fence cpu instruction
    else if instruction.funct3 == 0x1
    then fence_i cpu instruction
    else raise_exception cpu exc_illegal_instruction instruction.raw
