-- ===== src/Debugger/Shell/Control.antt =====
-- The commands that run the machine: `step`, `next`, `run`, `break` and `reset` of
-- tools/debugger/src/cli.c.
pub mod Run
use risc_v_virtual_machine.Common.{
  ℕ, zero, suc, List, [], ◌∷◌, none, some, not, ◌==◌, ◌||◌, if◌then◌else◌, field, u32, add64, ltb,
}
use risc_v_virtual_machine.Bus.{vm_bus, ram_base}
use risc_v_virtual_machine.Cpu.Access.{cpu_fetch}
use risc_v_virtual_machine.Cpu.Decode.{opcode_jal, opcode_jalr, decode_j}
use risc_v_virtual_machine.Cpu.Step.{cpu_reset, cpu_step}
use risc_v_virtual_machine.Debugger.Breakpoints.{max_breakpoints, add_breakpoint, is_breakpoint}
use risc_v_virtual_machine.Debugger.Shell.{
  breakpoint_reached, Debugger, Outcome, done, undefined, running, print, print_line, usage, number,
}

abbrev pub step_vm : Debugger → Debugger
step_vm d = record d { vm = cpu_step d.vm }

-- The loop of `next`, until the program counter is at the target.
unfoldable pub run_to : ℕ → Debugger → ℕ → Outcome
run_to zero d target = running
run_to (suc fuel) d target =
    let rest = run_to fuel (step_vm d) target in if d.vm.cpu.pc == target then done d else rest

-- A call or a jump that links by x1 or x5 is run until it has returned.
unfoldable pub cmd_next : ℕ → Debugger → List (List ℕ) → Outcome
unfolding run_to
cmd_next fuel d args =
    let (result, vm) = cpu_fetch d.vm in
    let fetched = record d { vm = vm } in
    let word = u32 result.value in
    let opcode = field word 0 7 in
    let decoded = decode_j word in
    if not result.success
    then done fetched
    else if opcode == opcode_jal || opcode == opcode_jalr
    then (if decoded.rd == 1 || decoded.rd == 5
        then run_to fuel fetched (add64 vm.cpu.pc 4)
        else done fetched)
    else done fetched

unfoldable pub cmd_break : Debugger → List (List ℕ) → Outcome
cmd_break d [] = usage d []
cmd_break d (name ∷ []) = usage d (name ∷ [])
cmd_break d (name ∷ address ∷ args) = elim (number address) [
  | none ↦ usage d (name ∷ [])
  | some addr ↦
      if ltb d.breakpoints.count max_breakpoints
      then done (record d { breakpoints = add_breakpoint d.breakpoints addr })
      else undefined
]

-- The loop of `run`, until the program counter is at a breakpoint.
unfoldable pub cmd_run : ℕ → Debugger → List (List ℕ) → Outcome
cmd_run zero d args = running
cmd_run (suc fuel) d args =
    let rest = cmd_run fuel (step_vm d) args in
    if is_breakpoint d.breakpoints d.vm.cpu.pc
    then done (print_line (print d breakpoint_reached) d.vm.cpu.pc)
    else rest

unfoldable pub cmd_reset : Debugger → List (List ℕ) → Outcome
cmd_reset d args =
    let vm = d.vm in done (record d { vm = record vm { cpu = cpu_reset vm.cpu ram_base } })

unfoldable pub run_steps : ℕ → Debugger → Debugger
run_steps zero d = d
run_steps (suc steps) d = run_steps steps (step_vm (print_line d d.vm.cpu.pc))

unfoldable pub cmd_step : Debugger → List (List ℕ) → Outcome
unfolding run_steps
cmd_step d [] = done (run_steps 1 d)
cmd_step d (name ∷ []) = done (run_steps 1 d)
cmd_step d (name ∷ count ∷ args) = elim (number count) [
  | none ↦ usage d (name ∷ [])
  | some steps ↦ done (run_steps (u32 steps) d)
]
