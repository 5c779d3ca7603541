-- ===== src/Debugger/Tables.antt =====
-- The mnemonics: tools/debugger/src/tables.c. `none` is a null pointer.
use Prim.Native.String.{String}
use risc_v_virtual_machine.Common.{
  ℕ, zero, suc, List, [], ◌∷◌, Option, none, some, ◌==◌, if◌then◌else◌,
}

abbrev pub Table : Type 0
Table = List (Option String)

-- An entry; the tables of eight are read at fields of three bits.
abbrev pub entry : Table → ℕ → Option String
entry [] i = none
entry (name ∷ table) zero = name
entry (name ∷ table) (suc i) = entry table i

abbrev pub branch_mnemonics : Table
branch_mnemonics =
    some "beq" ∷ some "bne" ∷ none ∷ none ∷ some "blt" ∷ some "bge" ∷ some "bltu" ∷ some "bgeu" ∷ []

abbrev pub store_mnemonics : Table
store_mnemonics = some "sb" ∷ some "sh" ∷ some "sw" ∷ some "sd" ∷ none ∷ none ∷ none ∷ none ∷ []

abbrev pub op_mnemonics : Table
op_mnemonics =
    some "add"
    ∷ some "sll"
    ∷ some "slt"
    ∷ some "sltu"
    ∷ some "xor"
    ∷ some "srl"
    ∷ some "or"
    ∷ some "and"
    ∷ []

abbrev pub op_alt_mnemonics : Table
op_alt_mnemonics = some "sub" ∷ none ∷ none ∷ none ∷ none ∷ some "sra" ∷ none ∷ none ∷ []

abbrev pub op32_mnemonics : Table
op32_mnemonics = some "addw" ∷ some "sllw" ∷ none ∷ none ∷ none ∷ some "srlw" ∷ none ∷ none ∷ []

abbrev pub op32_alt_mnemonics : Table
op32_alt_mnemonics = some "subw" ∷ none ∷ none ∷ none ∷ none ∷ some "sraw" ∷ none ∷ none ∷ []

abbrev pub load_mnemonics : Table
load_mnemonics =
    some "lb" ∷ some "lh" ∷ some "lw" ∷ some "ld" ∷ some "lbu" ∷ some "lhu" ∷ some "lwu" ∷ none ∷ []

abbrev pub system_mnemonics : Table
system_mnemonics =
    none
    ∷ some "csrrw"
    ∷ some "csrrs"
    ∷ some "csrrc"
    ∷ none
    ∷ some "csrrwi"
    ∷ some "csrrsi"
    ∷ some "csrrci"
    ∷ []

abbrev pub misc_mem_mnemonics : Table
misc_mem_mnemonics = some "fence" ∷ some "fence.i" ∷ none ∷ none ∷ none ∷ none ∷ none ∷ none ∷ []

abbrev pub op_imm_32_mnemonics : Table
op_imm_32_mnemonics =
    some "addiw" ∷ some "slliw" ∷ none ∷ none ∷ none ∷ some "srliw" ∷ none ∷ none ∷ []

abbrev pub op_imm_32_alt_mnemonics : Table
op_imm_32_alt_mnemonics = none ∷ none ∷ none ∷ none ∷ none ∷ some "sraiw" ∷ none ∷ none ∷ []

abbrev pub op_imm_mnemonics : Table
op_imm_mnemonics =
    some "addi"
    ∷ some "slli"
    ∷ some "slti"
    ∷ some "sltiu"
    ∷ some "xori"
    ∷ some "srli"
    ∷ some "ori"
    ∷ some "andi"
    ∷ []

abbrev pub op_imm_alt_mnemonics : Table
op_imm_alt_mnemonics = none ∷ none ∷ none ∷ none ∷ none ∷ some "srai" ∷ none ∷ none ∷ []

abbrev pub system_alt_mnemonics : ℕ → Option String
system_alt_mnemonics imm =
    if imm == 0x000
    then some "ecall"
    else if imm == 0x001
    then some "ebreak"
    else if imm == 0x102
    then some "sret"
    else if imm == 0x105
    then some "wfi"
    else if imm == 0x302
    then some "mret"
    else none
