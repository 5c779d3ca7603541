-- ===== src/Debugger/Disassembler.antt =====
-- The disassembler: tools/debugger/src/disassembler.c. The buffer of 256 bytes holds every text
-- that it writes, so `snprintf` cuts none. A failed `malloc` and the message on stderr are left out.
pub mod Names
use Prim.Native.String.{String}
use risc_v_virtual_machine.Common.{
  ℕ, List, ◌++◌, Option, some, ◌==◌, ◌&&◌, leb, if◌then◌else◌, field, u16, u32, add64,
}
use risc_v_virtual_machine.Common.Int.{signed}
use risc_v_virtual_machine.Common.Text.{codes}
use risc_v_virtual_machine.Bus.{vm_bus_read32}
use risc_v_virtual_machine.Cpu.Decode.{
  opcode_load, opcode_misc_mem, opcode_op_imm, opcode_auipc, opcode_op_imm_32, opcode_store,
  opcode_op, opcode_lui, opcode_op_32, opcode_branch, opcode_jalr, opcode_jal, opcode_system,
  decode_r, decode_i, decode_s, decode_b, decode_u, decode_j,
}
use risc_v_virtual_machine.Vm.{Vm}
use risc_v_virtual_machine.Debugger.Text.{decimal, signed_decimal, padded_hex, string, register}
use risc_v_virtual_machine.Debugger.Tables.{
  entry, branch_mnemonics, store_mnemonics, op_mnemonics, op_alt_mnemonics, op32_mnemonics,
  op32_alt_mnemonics, load_mnemonics, system_mnemonics, system_alt_mnemonics, misc_mem_mnemonics,
  op_imm_32_mnemonics, op_imm_32_alt_mnemonics, op_imm_mnemonics, op_imm_alt_mnemonics,
}

-- The formats that several cases share: `%s x%u, x%u, %u` and the like, up to their last part.
abbrev two_registers : Option String → ℕ → ℕ → List ℕ
two_registers name a b =
    string name ++ (codes " " ++ (register a ++ (codes ", " ++ (register b ++ codes ", "))))

-- `%s x%u, %lld(x%u)`.
abbrev address_format : Option String → ℕ → ℕ → ℕ → List ℕ
address_format name a imm b =
    string name
    ++ (codes " "
        ++ (register a
            ++ (codes ", "
                ++ (signed_decimal (signed 64 imm) ++ (codes "(" ++ (register b ++ codes ")"))))))

abbrev word_format : ℕ → List ℕ
word_format instruction = codes ".word 0x" ++ padded_hex 8 instruction

unfoldable pub disassemble_op_imm : ℕ → List ℕ
disassemble_op_imm instruction =
    let decoded = decode_i instruction in
    let funct3 = decoded.funct3 in
    let funct6 = field instruction 26 6 in
    let shamt = field instruction 20 6 in
    let shift =
      λ (name : Option String). two_registers name decoded.rd decoded.rs1 ++ decimal shamt in
    if funct3 == 0x1
    then shift (entry op_imm_mnemonics funct3)
    else if funct3 == 0x5
    then (if funct6 == 0x00
        then shift (entry op_imm_mnemonics funct3)
        else if funct6 == 0x10
        then shift (entry op_imm_alt_mnemonics funct3)
        else word_format instruction)
    else two_registers (entry op_imm_mnemonics funct3) decoded.rd decoded.rs1
      ++ signed_decimal (signed 64 decoded.imm)

unfoldable pub disassemble_system : ℕ → List ℕ
disassemble_system instruction =
    let decoded = decode_i instruction in
    let funct3 = decoded.funct3 in
    let csr = codes "0x" ++ (padded_hex 3 (u16 decoded.imm) ++ codes ", ") in
    let front = string (entry system_mnemonics funct3) ++ (codes " " ++ register decoded.rd) in
    if funct3 == 0
    then string (system_alt_mnemonics (u16 (field instruction 20 12)))
    else if leb 1 funct3 && leb funct3 3
    then front ++ (codes ", " ++ (csr ++ register decoded.rs1))
    else if leb 5 funct3 && leb funct3 7
    then front ++ (codes " " ++ (csr ++ decimal decoded.rs1))
    else word_format instruction

unfoldable pub disassemble_op_imm_32 : ℕ → List ℕ
disassemble_op_imm_32 instruction =
    let decoded = decode_i instruction in
    let funct3 = decoded.funct3 in
    let funct7 = field instruction 25 7 in
    let shamt = field instruction 20 5 in
    let shift =
      λ (name : Option String). two_registers name decoded.rd decoded.rs1 ++ decimal shamt in
    if funct3 == 0x1
    then shift (entry op_imm_32_mnemonics funct3)
    else if funct3 == 0x5
    then (if funct7 == 0x00
        then shift (entry op_imm_32_mnemonics funct3)
        else if funct7 == 0x10
        then shift (entry op_imm_32_alt_mnemonics funct3)
        else word_format instruction)
    else two_registers (entry op_imm_32_mnemonics funct3) decoded.rd decoded.rs1
      ++ signed_decimal (signed 32 (u32 decoded.imm))

unfoldable pub disassemble_branch : ℕ → ℕ → List ℕ
disassemble_branch addr instruction =
    let decoded = decode_b instruction in
    two_registers (entry branch_mnemonics decoded.funct3) decoded.rs1 decoded.rs2
    ++ (codes "0x" ++ padded_hex 5 (add64 addr decoded.imm))

-- The names of a register instruction: those of the second table for every funct7 but 0.
unfoldable pub op_name : ℕ → Option String
op_name instruction =
    let decoded = decode_r instruction in
    if decoded.funct7 == 0x0
    then entry op_mnemonics decoded.funct3
    else entry op_alt_mnemonics decoded.funct3

unfoldable pub op32_name : ℕ → Option String
op32_name instruction =
    let decoded = decode_r instruction in
    if decoded.funct7 == 0x0
    then entry op32_mnemonics decoded.funct3
    else entry op32_alt_mnemonics decoded.funct3

unfoldable pub disassemble_r : Option String → ℕ → List ℕ
disassemble_r name instruction =
    let decoded = decode_r instruction in
    two_registers name decoded.rd decoded.rs1 ++ register decoded.rs2

-- The text of an instruction at an address.
unfoldable pub disassemble : ℕ → ℕ → List ℕ
disassemble addr instruction =
    let opcode = field instruction 0 7 in
    let u = decode_u instruction in
    let j = decode_j instruction in
    let i = decode_i instruction in
    let s = decode_s instruction in
    if opcode == opcode_lui
    then codes "lui " ++ (register u.rd ++ (codes ", 0x" ++ padded_hex 5 (field instruction 12 20)))
    else if opcode == opcode_auipc
    then codes "auipc "
      ++ (register u.rd ++ (codes ", 0x" ++ padded_hex 12 (field instruction 12 20)))
    else if opcode == opcode_jal
    then codes "jal " ++ (register j.rd ++ (codes ", " ++ signed_decimal (signed 64 j.imm)))
    else if opcode == opcode_jalr
    then address_format (some "jalr") i.rd i.imm i.rs1
    else if opcode == opcode_load
    then address_format (entry load_mnemonics i.funct3) i.rd i.imm i.rs1
    else if opcode == opcode_op_imm
    then disassemble_op_imm instruction
    else if opcode == opcode_system
    then disassemble_system instruction
    else if opcode == opcode_misc_mem
    then string (entry misc_mem_mnemonics i.funct3)
    else if opcode == opcode_op_imm_32
    then disassemble_op_imm_32 instruction
    else if opcode == opcode_branch
    then disassemble_branch addr instruction
    else if opcode == opcode_store
    then address_format (entry store_mnemonics s.funct3) s.rs2 s.imm s.rs1
    else if opcode == opcode_op
    then disassemble_r (op_name instruction) instruction
    else if opcode == opcode_op_32
    then disassemble_r (op32_name instruction) instruction
    else word_format instruction

-- The text, and the machine after the read of the instruction at the physical address.
unfoldable pub disassemble_line : Vm → ℕ → List ℕ × Vm
disassemble_line vm addr =
    let (instruction, platform) = vm_bus_read32 vm.ctx addr in
    (disassemble addr instruction, record vm { ctx = platform })
