-- ===== src/Cpu/Confined/Registers.antt =====
-- The instructions on registers alone.
use risc_v_virtual_machine.Common.{arith}
use risc_v_virtual_machine.Cpu.{Cpu}
use risc_v_virtual_machine.Cpu.Decode.{RType, IType, BType, UType, JType}
use risc_v_virtual_machine.Cpu.Confined.{
  Confined, stays, raises, writes, jumps, links, links_then_jumps,
}
use risc_v_virtual_machine.Cpu.Step.{execute_u, execute_r}
use risc_v_virtual_machine.Cpu.Exec.Op.{
  add, sub, sll, slt, sltu, xor_op, srl, sra, or_op, and_op, dispatch_op,
}
use risc_v_virtual_machine.Cpu.Exec.Op32.{addw, subw, sllw, srlw, sraw, dispatch_op_32}
use risc_v_virtual_machine.Cpu.Exec.OpImm.{
  addi, slli, slti, sltiu, xori, srli, srai, sri, ori, andi, dispatch_op_imm,
}
use risc_v_virtual_machine.Cpu.Exec.OpImm32.{addiw, slliw, sraiw, srliw, sriw, dispatch_op_imm_32}
use risc_v_virtual_machine.Cpu.Exec.MExtension.{
  mul, mulh, mulhsu, mulhu, div, divu, rem, remu, mulw, divw, divuw, remw, remuw, dispatch_m_op,
  dispatch_m_op_32,
}
use risc_v_virtual_machine.Cpu.Exec.Branch.{beq, bne, blt, bge, bltu, bgeu, dispatch_branch}
use risc_v_virtual_machine.Cpu.Exec.Jumps.{
  jal, dispatch_jal, jalr, dispatch_jalr, lui, dispatch_lui, auipc, dispatch_auipc, fence_i, fence,
  dispatch_misc_mem,
}

pub dispatch_op-Confined : (cpu : Cpu) (i : RType) → Confined cpu (dispatch_op cpu i)
unfolding dispatch_op add sub sll slt sltu xor_op srl sra or_op and_op
dispatch_op-Confined cpu i = grind (arith, stays, writes, raises)

pub dispatch_op_32-Confined : (cpu : Cpu) (i : RType) → Confined cpu (dispatch_op_32 cpu i)
unfolding dispatch_op_32 addw subw sllw srlw sraw
dispatch_op_32-Confined cpu i = grind (arith, stays, writes, raises)

pub dispatch_op_imm-Confined : (cpu : Cpu) (i : IType) → Confined cpu (dispatch_op_imm cpu i)
unfolding dispatch_op_imm addi slli slti sltiu xori srli srai sri ori andi
dispatch_op_imm-Confined cpu i = grind (arith, stays, writes, raises)

pub dispatch_op_imm_32-Confined : (cpu : Cpu) (i : IType) → Confined cpu (dispatch_op_imm_32 cpu i)
unfolding dispatch_op_imm_32 addiw slliw sraiw srliw sriw
dispatch_op_imm_32-Confined cpu i = grind (arith, stays, writes, raises)

pub dispatch_m_op-Confined : (cpu : Cpu) (i : RType) → Confined cpu (dispatch_m_op cpu i)
unfolding dispatch_m_op mul mulh mulhsu mulhu div divu rem remu
dispatch_m_op-Confined cpu i = grind (arith, stays, writes, raises)

pub dispatch_m_op_32-Confined : (cpu : Cpu) (i : RType) → Confined cpu (dispatch_m_op_32 cpu i)
unfolding dispatch_m_op_32 mulw divw divuw remw remuw
dispatch_m_op_32-Confined cpu i = grind (arith, stays, writes, raises)

pub dispatch_branch-Confined : (cpu : Cpu) (i : BType) → Confined cpu (dispatch_branch cpu i)
unfolding dispatch_branch beq bne blt bge bltu bgeu
dispatch_branch-Confined cpu i = grind (arith, stays, writes, raises, jumps)

pub dispatch_jal-Confined : (cpu : Cpu) (i : JType) → Confined cpu (dispatch_jal cpu i)
unfolding dispatch_jal jal
dispatch_jal-Confined cpu i = grind (arith, stays, writes, raises, jumps, links)

pub dispatch_jalr-Confined : (cpu : Cpu) (i : IType) → Confined cpu (dispatch_jalr cpu i)
unfolding dispatch_jalr jalr
dispatch_jalr-Confined cpu i = links_then_jumps cpu _ _ _

pub dispatch_lui-Confined : (cpu : Cpu) (i : UType) → Confined cpu (dispatch_lui cpu i)
unfolding dispatch_lui lui
dispatch_lui-Confined cpu i = grind (arith, stays, writes, raises, jumps, links)

pub dispatch_auipc-Confined : (cpu : Cpu) (i : UType) → Confined cpu (dispatch_auipc cpu i)
unfolding dispatch_auipc auipc
dispatch_auipc-Confined cpu i = grind (arith, stays, writes, raises, jumps, links)

pub dispatch_misc_mem-Confined : (cpu : Cpu) (i : IType) → Confined cpu (dispatch_misc_mem cpu i)
unfolding dispatch_misc_mem fence_i fence
dispatch_misc_mem-Confined cpu i = grind (arith, stays, writes, raises, jumps, links)

pub execute_u-Confined : (cpu : Cpu) (i : UType) → Confined cpu (execute_u cpu i)
unfolding execute_u
execute_u-Confined cpu i = grind (arith, raises, dispatch_lui-Confined, dispatch_auipc-Confined)

pub execute_r-Confined : (cpu : Cpu) (i : RType) → Confined cpu (execute_r cpu i)
unfolding execute_r
execute_r-Confined cpu i = grind (
  arith, raises, dispatch_op-Confined, dispatch_op_32-Confined, dispatch_m_op-Confined,
  dispatch_m_op_32-Confined,
)
