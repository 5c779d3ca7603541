-- ===== src/Cpu/Step.antt =====
-- The cycle of the processor: `cpu_init`, `cpu_reset`, `dispatch_instruction`, `increment_pc` and
-- `cpu_step` of src/cpu/cpu.c, and the `execute` functions of src/cpu/instructions.
use risc_v_virtual_machine.Common.{ℕ, false, not, ◌&&◌, ◌||◌, ◌==◌}
use risc_v_virtual_machine.Common.{if◌then◌else◌, field, u32, add64}
use risc_v_virtual_machine.Bus.{Bus}
use risc_v_virtual_machine.Cpu.{Cpu, Machine, on_cpu, m_mode, set_csr}
use risc_v_virtual_machine.Cpu.Csr.{csr_reset}
use risc_v_virtual_machine.Cpu.Csr.Names
use risc_v_virtual_machine.Cpu.Trap.{raise_exception, exc_illegal_instruction}
use risc_v_virtual_machine.Cpu.Interrupts.{cpu_check_interrupts}
use risc_v_virtual_machine.Cpu.Access.{cpu_fetch}
use risc_v_virtual_machine.Cpu.Decode.{RType, IType, UType}
use risc_v_virtual_machine.Cpu.Decode.{decode_r, decode_i, decode_s, decode_b, decode_u, decode_j}
use risc_v_virtual_machine.Cpu.Decode.{decode_a, opcode_load, opcode_misc_mem, opcode_op_imm}
use risc_v_virtual_machine.Cpu.Decode.{opcode_auipc, opcode_op_imm_32, opcode_store, opcode_amo}
use risc_v_virtual_machine.Cpu.Decode.{opcode_op, opcode_lui, opcode_op_32, opcode_branch}
use risc_v_virtual_machine.Cpu.Decode.{opcode_jalr, opcode_jal, opcode_system}
use risc_v_virtual_machine.Cpu.Exec.Op.{dispatch_op}
use risc_v_virtual_machine.Cpu.Exec.Op32.{dispatch_op_32}
use risc_v_virtual_machine.Cpu.Exec.OpImm.{dispatch_op_imm}
use risc_v_virtual_machine.Cpu.Exec.OpImm32.{dispatch_op_imm_32}
use risc_v_virtual_machine.Cpu.Exec.MExtension.{dispatch_m_op, dispatch_m_op_32}
use risc_v_virtual_machine.Cpu.Exec.Branch.{dispatch_branch}
use risc_v_virtual_machine.Cpu.Exec.Jumps.{dispatch_jal, dispatch_jalr, dispatch_lui}
use risc_v_virtual_machine.Cpu.Exec.Jumps.{dispatch_auipc, dispatch_misc_mem}
use risc_v_virtual_machine.Cpu.Exec.Load.{dispatch_load}
use risc_v_virtual_machine.Cpu.Exec.Store.{dispatch_store}
use risc_v_virtual_machine.Cpu.Exec.System.{dispatch_system}
use risc_v_virtual_machine.Cpu.Exec.AExtension.{dispatch_a_extension}

unfoldable pub cpu_reset : Cpu → ℕ → Cpu
cpu_reset cpu reset_addr =
    csr_reset
      (record cpu { pc = reset_addr; priviledge = m_mode; trap_taken = false; regs = λ _. 0 })

-- All fields are zero; the table of registers is filled in beside it.
unfoldable pub cpu_init : Cpu
cpu_init = record {
  regs = λ _. 0;
  csrs = λ _. 0;
  pc = 0;
  priviledge = 0;
  reservation = record { valid = false; phys_addr = 0; size = 0 };
  trap_taken = false;
  pc_written = false;
}

unfoldable pub increment_pc : Cpu → Cpu
increment_pc cpu =
    if not cpu.trap_taken && not cpu.pc_written then record cpu { pc = add64 cpu.pc 4 } else cpu

unfoldable pub execute_u : Cpu → UType → Cpu
execute_u cpu instruction =
    if instruction.opcode == opcode_lui
    then dispatch_lui cpu instruction
    else if instruction.opcode == opcode_auipc
    then dispatch_auipc cpu instruction
    else raise_exception cpu exc_illegal_instruction instruction.raw

unfoldable pub execute_r : Cpu → RType → Cpu
execute_r cpu instruction =
    if instruction.opcode == opcode_op
    then (if instruction.funct7 == 0x01
        then dispatch_m_op cpu instruction
        else dispatch_op cpu instruction)
    else if instruction.opcode == opcode_op_32
    then (if instruction.funct7 == 0x01
        then dispatch_m_op_32 cpu instruction
        else dispatch_op_32 cpu instruction)
    else raise_exception cpu exc_illegal_instruction instruction.raw

-- The two counters; the second counts only if the step took no trap.
abbrev pub count : ℕ → Cpu → Cpu
count counter cpu = set_csr cpu counter (add64 (cpu.csrs counter) 1)

unfoldable pub cpu_finish : Cpu → Cpu
cpu_finish cpu =
    let c = increment_pc cpu in
    let c = if not c.trap_taken then count Names.csr_minstret c else c in
    record (cpu_check_interrupts c) { pc_written = false }

module _ {S : Type 0} ⦃bus : Bus S⦄ where
  unfoldable pub execute_i : Machine S → IType → Machine S
  execute_i m instruction =
      let opcode = instruction.opcode in
      let run = λ (f : Cpu → IType → Cpu). on_cpu (λ cpu. f cpu instruction) m in
      if opcode == opcode_op_imm
      then run dispatch_op_imm
      else if opcode == opcode_op_imm_32
      then run dispatch_op_imm_32
      else if opcode == opcode_load
      then dispatch_load m instruction
      else if opcode == opcode_jalr
      then run dispatch_jalr
      else if opcode == opcode_system
      then dispatch_system m instruction
      else if opcode == opcode_misc_mem
      then run dispatch_misc_mem
      else on_cpu (λ cpu. raise_exception cpu exc_illegal_instruction instruction.raw) m

  unfoldable pub dispatch_instruction : Machine S → ℕ → Machine S
  dispatch_instruction m instruction =
      let opcode = field instruction 0 7 in
      if opcode == opcode_lui || opcode == opcode_auipc
      then on_cpu (λ cpu. execute_u cpu (decode_u instruction)) m
      else if opcode == opcode_jal
      then on_cpu (λ cpu. dispatch_jal cpu (decode_j instruction)) m
      else if opcode == opcode_jalr
          || opcode == opcode_load
          || opcode == opcode_op_imm
          || opcode == opcode_system
          || opcode == opcode_misc_mem
          || opcode == opcode_op_imm_32
      then execute_i m (decode_i instruction)
      else if opcode == opcode_branch
      then on_cpu (λ cpu. dispatch_branch cpu (decode_b instruction)) m
      else if opcode == opcode_store
      then dispatch_store m (decode_s instruction)
      else if opcode == opcode_op || opcode == opcode_op_32
      then on_cpu (λ cpu. execute_r cpu (decode_r instruction)) m
      else if opcode == opcode_amo
      then dispatch_a_extension m (decode_a instruction)
      else on_cpu (λ cpu. raise_exception cpu exc_illegal_instruction instruction) m

  unfoldable pub cpu_begin : Machine S → Machine S
  cpu_begin m = on_cpu (λ cpu. count Names.csr_mcycle (record cpu { trap_taken = false })) m

  unfoldable pub cpu_step : Machine S → Machine S
  unfolding cpu_begin cpu_finish
  cpu_step m =
      let (result, fetched) = cpu_fetch (cpu_begin m) in
      if not result.success
      then fetched
      else on_cpu cpu_finish (dispatch_instruction fetched (u32 result.value))
