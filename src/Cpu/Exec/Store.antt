-- ===== src/Cpu/Exec/Store.antt =====
-- Stores: src/cpu/instructions/dispatchers/store.c.
use risc_v_virtual_machine.Common.{◌==◌, if◌then◌else◌, u8, u16, u32, add64}
use risc_v_virtual_machine.Cpu.{Machine, on_cpu, cpu_read_reg}
use risc_v_virtual_machine.Cpu.Trap.{raise_exception, exc_illegal_instruction}
use risc_v_virtual_machine.Cpu.Decode.{SType}
use risc_v_virtual_machine.Bus.{Bus}
use risc_v_virtual_machine.Cpu.Access.{cpu_store8, cpu_store16, cpu_store32, cpu_store64}

module _ {S : Type 0} ⦃bus : Bus S⦄ where
  unfoldable pub sb : Machine S → SType → Machine S
  sb m instruction =
      let value = u8 (cpu_read_reg m.cpu instruction.rs2) in
      let addr = add64 (cpu_read_reg m.cpu instruction.rs1) instruction.imm in
      (cpu_store8 m addr value).1

  unfoldable pub sh : Machine S → SType → Machine S
  sh m instruction =
      let value = u16 (cpu_read_reg m.cpu instruction.rs2) in
      let addr = add64 (cpu_read_reg m.cpu instruction.rs1) instruction.imm in
      (cpu_store16 m addr value).1

  unfoldable pub sw : Machine S → SType → Machine S
  sw m instruction =
      let value = u32 (cpu_read_reg m.cpu instruction.rs2) in
      let addr = add64 (cpu_read_reg m.cpu instruction.rs1) instruction.imm in
      (cpu_store32 m addr value).1

  unfoldable pub sd : Machine S → SType → Machine S
  sd m instruction =
      let value = cpu_read_reg m.cpu instruction.rs2 in
      let addr = add64 (cpu_read_reg m.cpu instruction.rs1) instruction.imm in
      (cpu_store64 m addr value).1

  unfoldable pub dispatch_store : Machine S → SType → Machine S
  dispatch_store m instruction =
      let funct3 = instruction.funct3 in
      if funct3 == 0x0
      then sb m instruction
      else if funct3 == 0x1
      then sh m instruction
      else if funct3 == 0x2
      then sw m instruction
      else if funct3 == 0x3
      then sd m instruction
      else on_cpu (λ cpu. raise_exception cpu exc_illegal_instruction instruction.raw) m
