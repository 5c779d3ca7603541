-- ===== src/Cpu/Decode.antt =====
-- Decoding: src/cpu/instructions/decoding.c and include/cpu/instructions/decoding.h.
pub mod Encode
use risc_v_virtual_machine.Common.{ℕ, ◌+◌, ◌-◌, ◌*◌, ◌/◌, ◌%◌, ◌^◌, bit_and, bit_or}
use risc_v_virtual_machine.Common.{field, is_set, ◌==◌, if◌then◌else◌, ◌<<<◌, u64}

abbrev pub opcode_load : ℕ
opcode_load = 0x03

abbrev pub opcode_misc_mem : ℕ
opcode_misc_mem = 0x0F

abbrev pub opcode_op_imm : ℕ
opcode_op_imm = 0x13

abbrev pub opcode_auipc : ℕ
opcode_auipc = 0x17

abbrev pub opcode_op_imm_32 : ℕ
opcode_op_imm_32 = 0x1B

abbrev pub opcode_store : ℕ
opcode_store = 0x23

abbrev pub opcode_amo : ℕ
opcode_amo = 0x2F

abbrev pub opcode_op : ℕ
opcode_op = 0x33

abbrev pub opcode_lui : ℕ
opcode_lui = 0x37

abbrev pub opcode_op_32 : ℕ
opcode_op_32 = 0x3B

abbrev pub opcode_branch : ℕ
opcode_branch = 0x63

abbrev pub opcode_jalr : ℕ
opcode_jalr = 0x67

abbrev pub opcode_jal : ℕ
opcode_jal = 0x6F

abbrev pub opcode_system : ℕ
opcode_system = 0x73

pub record RType : Type 0 where
  pub rd : ℕ
  pub funct3 : ℕ
  pub rs1 : ℕ
  pub rs2 : ℕ
  pub funct7 : ℕ
  pub opcode : ℕ
  pub raw : ℕ

pub record IType : Type 0 where
  pub rd : ℕ
  pub funct3 : ℕ
  pub rs1 : ℕ
  pub opcode : ℕ
  pub imm : ℕ
  pub raw : ℕ

pub record SType : Type 0 where
  pub funct3 : ℕ
  pub rs1 : ℕ
  pub rs2 : ℕ
  pub opcode : ℕ
  pub imm : ℕ
  pub raw : ℕ

pub record BType : Type 0 where
  pub funct3 : ℕ
  pub rs1 : ℕ
  pub rs2 : ℕ
  pub opcode : ℕ
  pub imm : ℕ
  pub raw : ℕ

pub record UType : Type 0 where
  pub rd : ℕ
  pub opcode : ℕ
  pub imm : ℕ
  pub raw : ℕ

pub record JType : Type 0 where
  pub rd : ℕ
  pub opcode : ℕ
  pub imm : ℕ
  pub raw : ℕ

pub record AType : Type 0 where
  pub rd : ℕ
  pub funct3 : ℕ
  pub rs1 : ℕ
  pub rs2 : ℕ
  pub rl : ℕ
  pub aq : ℕ
  pub funct5 : ℕ
  pub raw : ℕ

-- `imm` is a `uint32_t`, and `bits` is from 1 to 32.
unfoldable pub sign_extend : ℕ → ℕ → ℕ
sign_extend imm bits =
    let sign = is_set (bit_and imm (2 ^ (bits - 1))) in
    if sign then bit_or (u64 (0xFFFFFFFFFFFFFFFF <<< bits)) imm else imm

unfoldable pub decode_r : ℕ → RType
decode_r instruction = record {
  rd = field instruction 7 5;
  funct3 = field instruction 12 3;
  rs1 = field instruction 15 5;
  rs2 = field instruction 20 5;
  funct7 = field instruction 25 7;
  opcode = field instruction 0 7;
  raw = instruction;
}

unfoldable pub decode_i : ℕ → IType
decode_i instruction =
    let imm = field instruction 20 12 in
    record {
      rd = field instruction 7 5;
      funct3 = field instruction 12 3;
      rs1 = field instruction 15 5;
      opcode = field instruction 0 7;
      imm = sign_extend imm 12;
      raw = instruction;
    }

abbrev pub imm_s : ℕ → ℕ
imm_s instruction = bit_or (field instruction 7 5) (field instruction 25 7 <<< 5)

unfoldable pub decode_s : ℕ → SType
decode_s instruction = record {
  funct3 = field instruction 12 3;
  rs1 = field instruction 15 5;
  rs2 = field instruction 20 5;
  opcode = field instruction 0 7;
  imm = sign_extend (imm_s instruction) 12;
  raw = instruction;
}

abbrev pub imm_b : ℕ → ℕ
imm_b instruction =
    bit_or
      (bit_or (bit_or (field instruction 8 4 <<< 1) (field instruction 25 6 <<< 5))
        (field instruction 7 1 <<< 11))
      (field instruction 31 1 <<< 12)

unfoldable pub decode_b : ℕ → BType
decode_b instruction = record {
  funct3 = field instruction 12 3;
  rs1 = field instruction 15 5;
  rs2 = field instruction 20 5;
  opcode = field instruction 0 7;
  imm = sign_extend (imm_b instruction) 13;
  raw = instruction;
}

unfoldable pub decode_u : ℕ → UType
decode_u instruction = record {
  rd = field instruction 7 5;
  opcode = field instruction 0 7;
  imm = sign_extend (bit_and instruction 0xFFFFF000) 32;
  raw = instruction;
}

abbrev pub imm_j : ℕ → ℕ
imm_j instruction =
    bit_or
      (bit_or (bit_or (field instruction 21 10 <<< 1) (field instruction 20 1 <<< 11))
        (field instruction 12 8 <<< 12))
      (field instruction 31 1 <<< 20)

unfoldable pub decode_j : ℕ → JType
decode_j instruction = record {
  rd = field instruction 7 5;
  opcode = field instruction 0 7;
  imm = sign_extend (imm_j instruction) 21;
  raw = instruction;
}

unfoldable pub decode_a : ℕ → AType
decode_a instruction = record {
  rd = field instruction 7 5;
  funct3 = field instruction 12 3;
  rs1 = field instruction 15 5;
  rs2 = field instruction 20 5;
  rl = field instruction 25 1;
  aq = field instruction 26 1;
  funct5 = field instruction 27 5;
  raw = instruction;
}
