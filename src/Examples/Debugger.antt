-- ===== src/Examples/Debugger.antt =====
-- The debugger at concrete inputs.
use mathlib.Core.List.{Mem}
use risc_v_virtual_machine.Common.{
  ℕ, ◌+◌, ◌≡◌, ◌↔◌, refl, arith, List, [], ◌∷◌, Option, some, none, true, false, to_word, leb,
}
use risc_v_virtual_machine.Common.Text.{codes}
use risc_v_virtual_machine.Memory.{valid_access}
use risc_v_virtual_machine.Memory.Bytes.{IsBytes}
use risc_v_virtual_machine.Bits.{bit}
use risc_v_virtual_machine.Bus.{vm_bus}
use risc_v_virtual_machine.Cpu.Csr.Names
use risc_v_virtual_machine.Cpu.Decode.{RType, IType, SType, BType}
use risc_v_virtual_machine.Cpu.Exec.Load.{dispatch_load}
use risc_v_virtual_machine.Cpu.Exec.Store.{dispatch_store}
use risc_v_virtual_machine.Cpu.Exec.Branch.{dispatch_branch}
use risc_v_virtual_machine.Cpu.Exec.Op.{dispatch_op}
use risc_v_virtual_machine.Vm.{Vm}
use risc_v_virtual_machine.Vm.Load.{vm_load_bin}
use risc_v_virtual_machine.Vm.Ticks.{ticks, ticks-mtip}
use risc_v_virtual_machine.Debugger.Text.Words.{join}
use risc_v_virtual_machine.Debugger.Numbers.Hex.{printed}
use risc_v_virtual_machine.Debugger.Breakpoints.{is_breakpoint}
use risc_v_virtual_machine.Debugger.Breakpoints.Set.{add_breakpoints, is_breakpoint-add_breakpoints}
use risc_v_virtual_machine.Debugger.Tables.{
  entry, load_mnemonics, store_mnemonics, branch_mnemonics, op_mnemonics,
}
use risc_v_virtual_machine.Debugger.Disassembler.Names.{
  named, loads, stores, branches, register_operations, illegal_load, illegal_store, illegal_branch,
  illegal_operation, dispatch-named,
}
use risc_v_virtual_machine.Debugger.Shell.{Debugger, done, print, value, loaded}
use risc_v_virtual_machine.Debugger.Shell.Control.{cmd_run, step_vm}
use risc_v_virtual_machine.Debugger.Shell.Control.Run.{
  Stops, at_breakpoint, after_step, stopped, cmd_run-Stops, Stops-cmd_run,
}
use risc_v_virtual_machine.Debugger.Shell.Storage.{load_file}
use risc_v_virtual_machine.Debugger.Shell.Storage.Load.{load_file-vm_load_bin}
use risc_v_virtual_machine.Debugger.Shell.Dispatch.{dispatch_command}
use risc_v_virtual_machine.Debugger.Shell.Dispatch.Lines.{on_bus, mem_line-write_line}
use risc_v_virtual_machine.Examples.User.{user_machine, steps_without_trap}

-- The breakpoint is behind the first instruction.
abbrev session : Debugger
session = record {
  vm = user_machine;
  breakpoints = record { table = λ _. 0x80000004; count = 1 };
  save_dump = none;
  out = [];
}

abbrev no_files : List ℕ → Option (List ℕ)
no_files path = none

bytes : IsBytes user_machine.ctx.ram
bytes = record { byte_lt = λ i. ground arith }

not_yet : is_breakpoint session.breakpoints 0x80000000 ≡ false
unfolding is_breakpoint
not_yet = refl

at_next : is_breakpoint session.breakpoints (step_vm session).vm.cpu.pc ≡ true
unfolding is_breakpoint
at_next = rw (steps_without_trap.1) refl

is_breakpoint-add_breakpoints_example :
    (is_breakpoint (add_breakpoints (5 ∷ 8 ∷ [])) 8 ≡ true) ↔ Mem {A = ℕ} 8 (5 ∷ 8 ∷ [])
is_breakpoint-add_breakpoints_example = is_breakpoint-add_breakpoints (5 ∷ 8 ∷ []) 8 (omega arith)

cmd_run-Stops_example : cmd_run 3 session [] ≡ done (stopped (step_vm session))
cmd_run-Stops_example =
    cmd_run-Stops 3 [] (after_step not_yet (at_breakpoint at_next)) (omega arith)

Stops-cmd_run_example :
    (n : ℕ) × (stop : Debugger) × Stops session n stop × (stopped (step_vm session) ≡ stopped stop)
Stops-cmd_run_example =
    Stops-cmd_run 3 session (stopped (step_vm session)) []
      (cmd_run-Stops 3 [] (after_step not_yet (at_breakpoint at_next)) (omega arith))

mem_line-write_line_example :
    let written = on_bus session 0x80000100 77 in
    (dispatch_command no_files 1 session
        (join (codes "write" ∷ printed 16 0x80000100 ∷ printed 16 77 ∷ []))
      ≡ (done written, true))
    × (dispatch_command no_files 1 written (join (codes "mem" ∷ printed 16 0x80000100 ∷ []))
        ≡ (done (print written (value 77)), true))
mem_line-write_line_example =
    mem_line-write_line no_files 0 session 16 0x80000100 77 bytes (unfold valid_access in refl)
      (omega arith) (omega arith)

load_file-vm_load_bin_example :
    (vm' : Vm) × (vm_load_bin user_machine (some (7 ∷ 8 ∷ [])) 0x80000100 ≡ some (0, vm'))
    × (load_file session (codes "a") (some (7 ∷ 8 ∷ [])) 0x80000100
        ≡ done (print (record session { vm = vm' }) (loaded (codes "a") 0x80000100)))
load_file-vm_load_bin_example =
    load_file-vm_load_bin session (codes "a") (7 ∷ 8 ∷ []) 0x80000100 (omega arith) (omega arith)
      (omega arith)

abbrev a_load : IType
a_load = record { raw = 0x00052083; imm = 0; rs1 = 10; funct3 = 2; rd = 1; opcode = 3 }

abbrev a_store : SType
a_store = record { raw = 0; imm = 0; rs2 = 1; rs1 = 10; funct3 = 3; opcode = 35 }

abbrev a_branch : BType
a_branch = record { raw = 0; imm = 8; rs2 = 1; rs1 = 10; funct3 = 4; opcode = 99 }

abbrev an_operation : RType
an_operation = record { raw = 0; funct7 = 0; rs2 = 1; rs1 = 10; funct3 = 7; rd = 1; opcode = 51 }

dispatch-named_example :
    (dispatch_load user_machine a_load
      ≡ named loads (entry load_mnemonics 2) illegal_load user_machine a_load)
    × (dispatch_store user_machine a_store
        ≡ named stores (entry store_mnemonics 3) illegal_store user_machine a_store)
    × (dispatch_branch user_machine.cpu a_branch
        ≡ named branches (entry branch_mnemonics 4) illegal_branch user_machine.cpu a_branch)
    × (dispatch_op user_machine.cpu an_operation
        ≡ named register_operations
            (entry op_mnemonics 7)
            illegal_operation
            user_machine.cpu
            an_operation)
dispatch-named_example =
    dispatch-named user_machine a_load a_store a_branch an_operation (omega arith) (omega arith)
      (omega arith) (omega arith) refl

ticks-mtip_example : bit ((ticks 3 user_machine).cpu.csrs Names.csr_mip) 7 ≡ to_word (leb 0 (0 + 3))
ticks-mtip_example = ticks-mtip 2 user_machine (omega arith)
