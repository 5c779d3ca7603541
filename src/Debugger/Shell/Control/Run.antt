-- ===== src/Debugger/Shell/Control/Run.antt =====
-- The command `run` of tools/debugger/src/cli.c, and a whole line that sets a breakpoint.
use mathlib.Core.Bool.{false≢true}
use risc_v_virtual_machine.Common.{
  ℕ, zero, suc, ◌<◌, List, ◌≡◌, refl, ◌∙◌, sym, ap, arith, Bool, true, false, Bool-cases, inl, inr,
}
use risc_v_virtual_machine.Bus.{vm_bus}
use risc_v_virtual_machine.Debugger.Breakpoints.{is_breakpoint}
use risc_v_virtual_machine.Debugger.Shell.{
  Debugger, Outcome, done, undefined, running, breakpoint_reached, print, print_line,
}
use risc_v_virtual_machine.Debugger.Shell.Control.{cmd_run, step_vm}

-- The debugger's machine comes to its first breakpoint after a number of steps.
pub data Stops : Debugger → ℕ → Debugger → Type 0 where
  at_breakpoint : {d : Debugger} → is_breakpoint d.breakpoints d.vm.cpu.pc ≡ true → Stops d 0 d
  after_step :
      {d stop : Debugger} {n : ℕ}
      → is_breakpoint d.breakpoints d.vm.cpu.pc ≡ false
      → Stops (step_vm d) n stop
      → Stops d (suc n) stop

-- What `run` leaves where the machine has stopped.
abbrev pub stopped : Debugger → Debugger
stopped stop = print_line (print stop breakpoint_reached) stop.vm.cpu.pc

-- A machine that comes to a breakpoint is stopped at the first one, on any fuel above the number of
-- its steps.
pub cmd_run-Stops :
    {d stop : Debugger} {n : ℕ} (fuel : ℕ) (args : List (List ℕ))
    → Stops d n stop
    → n < fuel
    → cmd_run fuel d args ≡ done (stopped stop)
unfolding cmd_run
cmd_run-Stops zero args s h = absurd (omega arith)
cmd_run-Stops (suc fuel) args (at_breakpoint e) h = rw e refl
cmd_run-Stops {d = d} (suc fuel) args (after_step e s) h =
    rw e (cmd_run-Stops {d = step_vm d} fuel args s (omega arith))

abbrev outcome : Debugger → Outcome → Debugger
outcome d (done after) = after
outcome d undefined = d
outcome d running = d

abbrev is_done : Outcome → Bool
is_done (done after) = true
is_done undefined = false
is_done running = false

-- If `run` comes to an end, then at the first breakpoint that the machine comes to.
pub Stops-cmd_run :
    (fuel : ℕ) (d after : Debugger) (args : List (List ℕ))
    → cmd_run fuel d args ≡ done after
    → (n : ℕ) × (stop : Debugger) × Stops d n stop × (after ≡ stopped stop)
unfolding cmd_run
Stops-cmd_run zero d after args h = absurd (false≢true (ap is_done h))
Stops-cmd_run (suc fuel) d after args h =
    elim (Bool-cases (is_breakpoint d.breakpoints d.vm.cpu.pc)) [
      | inl e ↦ (0, d, at_breakpoint e, ap (outcome d) (sym h) ∙ rw e refl)
      | inr e ↦
          let (n, stop, s, found) = Stops-cmd_run fuel (step_vm d) after args ((rw e refl) ∙ h) in
          (suc n, stop, after_step e s, found)
    ]
