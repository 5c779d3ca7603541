-- ===== src/Cpu/Confined/User.antt =====
-- An instruction in user mode: `dispatch_instruction` of src/cpu/cpu.c.
use risc_v_virtual_machine.Common.{ℕ, arith, ◌≡◌}
use risc_v_virtual_machine.Bus.{Bus}
use risc_v_virtual_machine.Cpu.{Machine, u_mode}
use risc_v_virtual_machine.Cpu.Decode.{IType, decode_i, decode_s, decode_a}
use risc_v_virtual_machine.Cpu.Step.{execute_i, dispatch_instruction}
use risc_v_virtual_machine.Cpu.Confined.{Confined, raises}
use risc_v_virtual_machine.Cpu.Confined.Registers.{
  dispatch_op_imm-Confined, dispatch_op_imm_32-Confined, dispatch_jal-Confined,
  dispatch_jalr-Confined, dispatch_misc_mem-Confined, dispatch_branch-Confined, execute_u-Confined,
  execute_r-Confined,
}
use risc_v_virtual_machine.Cpu.Confined.Memory.{dispatch_load-Confined, dispatch_store-Confined}
use risc_v_virtual_machine.Cpu.Confined.Atomics.{dispatch_a_extension-Confined}
use risc_v_virtual_machine.Cpu.Confined.System.{dispatch_system-Confined}

module _ {S : Type 0} ⦃bus : Bus S⦄ where
  execute_i-Confined :
      (m : Machine S) (i : IType) → m.cpu.priviledge ≡ u_mode → Confined m.cpu (execute_i m i).cpu
  unfolding execute_i
  execute_i-Confined m i u = grind (
    arith,
    raises,
    dispatch_op_imm-Confined,
    dispatch_op_imm_32-Confined,
    dispatch_jalr-Confined,
    dispatch_misc_mem-Confined,
    dispatch_load-Confined m i,
    dispatch_system-Confined m i u,
  )

  -- Every instruction in user mode, whatever its 32 bits are, either leaves the control and status
  -- registers and the mode as they are, or raises an exception where they are the same.
  pub dispatch_instruction-Confined :
      (m : Machine S) (instruction : ℕ)
      → m.cpu.priviledge ≡ u_mode
      → Confined m.cpu (dispatch_instruction m instruction).cpu
  unfolding dispatch_instruction
  dispatch_instruction-Confined m instruction u = grind (
    arith,
    raises,
    execute_u-Confined,
    dispatch_jal-Confined,
    dispatch_branch-Confined,
    execute_r-Confined,
    execute_i-Confined m (decode_i instruction) u,
    dispatch_store-Confined m (decode_s instruction),
    dispatch_a_extension-Confined m (decode_a instruction),
  )
