-- ===== src/Cpu/Fits/Immediates.antt =====
-- The register instructions with an immediate, the branches and the jumps.
use risc_v_virtual_machine.Common.{◌+◌, ◌%◌, arith, ◌<◌, ◌^◌}
use risc_v_virtual_machine.Bits.{bit_or-lt, bit_and-lt, bit_xor-lt}
use risc_v_virtual_machine.Cpu.{Cpu}
use risc_v_virtual_machine.Cpu.Decode.{RType, IType, BType, UType, JType}
use risc_v_virtual_machine.Cpu.Trap.{exc_illegal_instruction}
use risc_v_virtual_machine.Cpu.Step.{execute_u, execute_r}
use risc_v_virtual_machine.Cpu.Fits.{Fits, cpu_read_reg-lt, cpu_write_reg-Fits, set_pc-Fits}
use risc_v_virtual_machine.Cpu.Fits.Values.{
  quotient-lt, unsigned_64-lt, unsigned_32-lt, sign_extend-lt,
}
use risc_v_virtual_machine.Cpu.Fits.Traps.{raise_exception-Fits}
use risc_v_virtual_machine.Cpu.Fits.Registers.{dispatch_op-Fits, dispatch_op_32-Fits}
use risc_v_virtual_machine.Cpu.Fits.Products.{dispatch_m_op-Fits, dispatch_m_op_32-Fits}
use risc_v_virtual_machine.Cpu.Exec.OpImm.{
  addi, slli, slti, sltiu, xori, srli, srai, sri, ori, andi, dispatch_op_imm,
}
use risc_v_virtual_machine.Cpu.Exec.OpImm32.{addiw, slliw, sraiw, srliw, sriw, dispatch_op_imm_32}
use risc_v_virtual_machine.Cpu.Exec.Branch.{beq, bne, blt, bge, bltu, bgeu, dispatch_branch}
use risc_v_virtual_machine.Cpu.Exec.Jumps.{
  jal, dispatch_jal, jalr, dispatch_jalr, lui, dispatch_lui, auipc, dispatch_auipc, fence_i, fence,
  dispatch_misc_mem,
}

addi-Fits : (cpu : Cpu) (i : IType) → Fits cpu → i.imm < 2 ^ 64 → Fits (addi cpu i)
unfolding addi
addi-Fits cpu i f h =
    let a = cpu_read_reg-lt cpu i.rs1 f in cpu_write_reg-Fits cpu i.rd _ f (omega arith)

slli-Fits : (cpu : Cpu) (i : IType) → Fits cpu → i.imm < 2 ^ 64 → Fits (slli cpu i)
unfolding slli
slli-Fits cpu i f h =
    let a = cpu_read_reg-lt cpu i.rs1 f in cpu_write_reg-Fits cpu i.rd _ f (omega arith)

slti-Fits : (cpu : Cpu) (i : IType) → Fits cpu → i.imm < 2 ^ 64 → Fits (slti cpu i)
unfolding slti
slti-Fits cpu i f h =
    let a = cpu_read_reg-lt cpu i.rs1 f in cpu_write_reg-Fits cpu i.rd _ f (ground arith)

sltiu-Fits : (cpu : Cpu) (i : IType) → Fits cpu → i.imm < 2 ^ 64 → Fits (sltiu cpu i)
unfolding sltiu
sltiu-Fits cpu i f h =
    let a = cpu_read_reg-lt cpu i.rs1 f in cpu_write_reg-Fits cpu i.rd _ f (ground arith)

xori-Fits : (cpu : Cpu) (i : IType) → Fits cpu → i.imm < 2 ^ 64 → Fits (xori cpu i)
unfolding xori
xori-Fits cpu i f h =
    let a = cpu_read_reg-lt cpu i.rs1 f in cpu_write_reg-Fits cpu i.rd _ f (bit_xor-lt 64 _ _ a h)

srli-Fits : (cpu : Cpu) (i : IType) → Fits cpu → i.imm < 2 ^ 64 → Fits (srli cpu i)
unfolding srli
srli-Fits cpu i f h =
    let a = cpu_read_reg-lt cpu i.rs1 f in cpu_write_reg-Fits cpu i.rd _ f (quotient-lt _ _ a)

srai-Fits : (cpu : Cpu) (i : IType) → Fits cpu → i.imm < 2 ^ 64 → Fits (srai cpu i)
unfolding srai
srai-Fits cpu i f h =
    let a = cpu_read_reg-lt cpu i.rs1 f in cpu_write_reg-Fits cpu i.rd _ f (unsigned_64-lt _)

ori-Fits : (cpu : Cpu) (i : IType) → Fits cpu → i.imm < 2 ^ 64 → Fits (ori cpu i)
unfolding ori
ori-Fits cpu i f h =
    let a = cpu_read_reg-lt cpu i.rs1 f in cpu_write_reg-Fits cpu i.rd _ f (bit_or-lt 64 _ _ a h)

andi-Fits : (cpu : Cpu) (i : IType) → Fits cpu → i.imm < 2 ^ 64 → Fits (andi cpu i)
unfolding andi
andi-Fits cpu i f h =
    let a = cpu_read_reg-lt cpu i.rs1 f in cpu_write_reg-Fits cpu i.rd _ f (bit_and-lt 64 _ _ a)

addiw-Fits : (cpu : Cpu) (i : IType) → Fits cpu → i.imm < 2 ^ 64 → Fits (addiw cpu i)
unfolding addiw
addiw-Fits cpu i f h =
    let a = cpu_read_reg-lt cpu i.rs1 f in
    cpu_write_reg-Fits cpu i.rd _ f (sign_extend-lt _ 32 (omega arith))

slliw-Fits : (cpu : Cpu) (i : IType) → Fits cpu → i.imm < 2 ^ 64 → Fits (slliw cpu i)
unfolding slliw
slliw-Fits cpu i f h =
    let a = cpu_read_reg-lt cpu i.rs1 f in
    cpu_write_reg-Fits cpu i.rd _ f (sign_extend-lt _ 32 (omega arith))

srliw-Fits : (cpu : Cpu) (i : IType) → Fits cpu → i.imm < 2 ^ 64 → Fits (srliw cpu i)
unfolding srliw
srliw-Fits cpu i f h =
    let a = cpu_read_reg-lt cpu i.rs1 f in
    cpu_write_reg-Fits cpu i.rd _ f (sign_extend-lt _ 32 (quotient-lt _ _ (omega arith)))

sraiw-Fits : (cpu : Cpu) (i : IType) → Fits cpu → i.imm < 2 ^ 64 → Fits (sraiw cpu i)
unfolding sraiw
sraiw-Fits cpu i f h =
    let a = cpu_read_reg-lt cpu i.rs1 f in
    cpu_write_reg-Fits cpu i.rd _ f (sign_extend-lt _ 32 (unsigned_32-lt _))

pub dispatch_op_imm-Fits :
    (cpu : Cpu) (i : IType)
    → Fits cpu
    → i.imm < 2 ^ 64
    → i.raw < 2 ^ 64
    → Fits (dispatch_op_imm cpu i)
unfolding dispatch_op_imm sri
dispatch_op_imm-Fits cpu i f h k = grind (
  arith,
  f,
  raise_exception-Fits cpu exc_illegal_instruction i.raw f (omega arith) k,
  addi-Fits cpu i f h,
  slli-Fits cpu i f h,
  slti-Fits cpu i f h,
  sltiu-Fits cpu i f h,
  xori-Fits cpu i f h,
  srli-Fits cpu i f h,
  srai-Fits cpu i f h,
  ori-Fits cpu i f h,
  andi-Fits cpu i f h,
)

pub dispatch_op_imm_32-Fits :
    (cpu : Cpu) (i : IType)
    → Fits cpu
    → i.imm < 2 ^ 64
    → i.raw < 2 ^ 64
    → Fits (dispatch_op_imm_32 cpu i)
unfolding dispatch_op_imm_32 sriw
dispatch_op_imm_32-Fits cpu i f h k = grind (
  arith,
  f,
  raise_exception-Fits cpu exc_illegal_instruction i.raw f (omega arith) k,
  addiw-Fits cpu i f h,
  slliw-Fits cpu i f h,
  srliw-Fits cpu i f h,
  sraiw-Fits cpu i f h,
)

pub dispatch_branch-Fits :
    (cpu : Cpu) (i : BType) → Fits cpu → i.raw < 2 ^ 64 → Fits (dispatch_branch cpu i)
unfolding dispatch_branch beq bne blt bge bltu bgeu
dispatch_branch-Fits cpu i f k = grind (
  arith,
  f,
  raise_exception-Fits cpu exc_illegal_instruction i.raw f (omega arith) k,
  set_pc-Fits cpu ((cpu.pc + i.imm) % 2 ^ 64) f (omega arith),
)

pub dispatch_jal-Fits :
    (cpu : Cpu) (i : JType) → Fits cpu → i.raw < 2 ^ 64 → Fits (dispatch_jal cpu i)
unfolding dispatch_jal jal
dispatch_jal-Fits cpu i f k = grind (
  arith,
  f,
  raise_exception-Fits cpu exc_illegal_instruction i.raw f (omega arith) k,
  cpu_write_reg-Fits _ i.rd ((cpu.pc + 4) % 2 ^ 64)
      (set_pc-Fits cpu ((cpu.pc + i.imm) % 2 ^ 64) f (omega arith)) (omega arith),
)

pub dispatch_jalr-Fits : (cpu : Cpu) (i : IType) → Fits cpu → Fits (dispatch_jalr cpu i)
unfolding dispatch_jalr jalr
dispatch_jalr-Fits cpu i f =
    set_pc-Fits _ _ (cpu_write_reg-Fits cpu i.rd _ f (omega arith))
      (bit_and-lt 64 _ _ (omega arith))

pub execute_u-Fits :
    (cpu : Cpu) (i : UType) → Fits cpu → i.imm < 2 ^ 64 → i.raw < 2 ^ 64 → Fits (execute_u cpu i)
unfolding execute_u dispatch_lui lui dispatch_auipc auipc
execute_u-Fits cpu i f h k = grind (
  arith,
  raise_exception-Fits cpu exc_illegal_instruction i.raw f (omega arith) k,
  cpu_write_reg-Fits cpu i.rd i.imm f h,
  cpu_write_reg-Fits cpu i.rd ((cpu.pc + i.imm) % 2 ^ 64) f (omega arith),
)

pub dispatch_misc_mem-Fits :
    (cpu : Cpu) (i : IType) → Fits cpu → i.raw < 2 ^ 64 → Fits (dispatch_misc_mem cpu i)
unfolding dispatch_misc_mem fence fence_i
dispatch_misc_mem-Fits cpu i f k =
    grind (arith, f, raise_exception-Fits cpu exc_illegal_instruction i.raw f (omega arith) k)

pub execute_r-Fits : (cpu : Cpu) (i : RType) → Fits cpu → i.raw < 2 ^ 64 → Fits (execute_r cpu i)
unfolding execute_r
execute_r-Fits cpu i f k = grind (
  arith,
  raise_exception-Fits cpu exc_illegal_instruction i.raw f (omega arith) k,
  dispatch_op-Fits cpu i f k,
  dispatch_op_32-Fits cpu i f k,
  dispatch_m_op-Fits cpu i f k,
  dispatch_m_op_32-Fits cpu i f k,
)
