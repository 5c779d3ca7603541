-- ===== src/Debugger/Shell.antt =====
-- The state of the debugger and what its commands share: tools/debugger/src/cli.c. What `printf`
-- and `fprintf` are given is a list of outputs, the newest first.
pub mod Inspect
pub mod Control
pub mod Storage
pub mod Dispatch
use risc_v_virtual_machine.Common.{
  ℕ, zero, suc, ◌+◌, ◌-◌, ◌*◌, ◌%◌, ◌^◌, List, [], ◌∷◌, Option, none, some, Bool, true, false, not,
  ◌==◌, ◌||◌, if◌then◌else◌, field, u32, add64, sub64, leb, ltb, length,
}
use risc_v_virtual_machine.Memory.{Memory, mem_size}
use risc_v_virtual_machine.Bus.{vm_bus, vm_bus_read64, vm_bus_write64, ram_base, ram_size}
use risc_v_virtual_machine.Cpu.{Cpu, Machine, cpu_read_reg}
use risc_v_virtual_machine.Cpu.Access.{cpu_fetch}
use risc_v_virtual_machine.Cpu.Decode.{opcode_jal, opcode_jalr, decode_j}
use risc_v_virtual_machine.Cpu.Step.{cpu_reset, cpu_step}
use risc_v_virtual_machine.Vm.{Vm}
use risc_v_virtual_machine.Vm.Load.{memcpy, take, drop}
use risc_v_virtual_machine.Debugger.Numbers.{strtoll}
use risc_v_virtual_machine.Debugger.Breakpoints.{
  Breakpoints, max_breakpoints, add_breakpoint, is_breakpoint,
}
use risc_v_virtual_machine.Debugger.Disassembler.{disassemble_line}

-- What is printed: the help of the command that `argv[0]` names, a line of disassembly with its
-- address, values, the registers, and the messages.
pub data Output : Type 0 where
  help : List ℕ → Output
  not_recognized : List ℕ → Output
  line : ℕ → List ℕ → Output
  breakpoint_reached : Output
  value : ℕ → Output
  pc_is : ℕ → Output
  instruction : Option ℕ → Output
  registers : List ℕ → Output
  not_opened : Output
  not_in_ram : ℕ → Output
  loaded : List ℕ → ℕ → Output
  echo : ℕ → List ℕ → Output

-- The debugger: the machine, the table of breakpoints, the file `save.dump` and what is printed.
pub record Debugger : Type 0 where
  pub vm : Vm
  pub breakpoints : Breakpoints
  pub save_dump : Option Memory
  pub out : List Output

-- How a command ends. It is `undefined` where C leaves open what happens, and `running` if the
-- fuel of its loop was not enough.
pub data Outcome : Type 0 where
  done : Debugger → Outcome
  undefined : Outcome
  running : Outcome

abbrev pub print : Debugger → Output → Debugger
print d o = record d { out = o ∷ d.out }

-- The address and the text of the instruction at it.
unfoldable pub print_line : Debugger → ℕ → Debugger
print_line d addr =
    let (text, vm) = disassemble_line d.vm addr in
    let read = record d { vm = vm } in print read (line addr text)

-- `help: %s …` of `argv[0]`.
abbrev pub usage : Debugger → List (List ℕ) → Outcome
usage d [] = done (print d (help []))
usage d (name ∷ args) = done (print d (help name))

abbrev pub whole : ℕ × List ℕ → Option ℕ
whole (n, []) = some n
whole (n, c ∷ rest) = none

-- A number that fills the whole argument, or nothing.
unfoldable pub number : List ℕ → Option ℕ
number text = whole (strtoll text)
