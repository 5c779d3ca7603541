-- ===== src/Debugger/Shell/Dispatch.antt =====
-- The dispatch of a line to its command, `script`, the loop of the debugger and its main program:
-- tools/debugger/src/cli.c and tools/debugger/src/debugger_main.c. No text contains the byte 0.
pub mod Lines
use risc_v_virtual_machine.Common.{
  ℕ, zero, suc, ◌+◌, ◌-◌, List, [], ◌∷◌, Option, none, some, Bool, true, false, ◌==◌, if◌then◌else◌,
  ltb, leb, length,
}
use risc_v_virtual_machine.Common.Int.{ℤ, pos, negsuc}
use risc_v_virtual_machine.Common.Text.{codes}
use risc_v_virtual_machine.Cpu.{u_mode}
use risc_v_virtual_machine.Vm.{vm_init}
use risc_v_virtual_machine.Debugger.Text.{tokens, first_string, same_text}
use risc_v_virtual_machine.Debugger.Breakpoints.{no_breakpoints}
use risc_v_virtual_machine.Debugger.Shell.{
  not_recognized, not_opened, echo, Debugger, Outcome, done, undefined, running, print, usage,
}
use risc_v_virtual_machine.Debugger.Shell.Inspect.{cmd_disassemble, cmd_state, cmd_mem}
use risc_v_virtual_machine.Debugger.Shell.Control.{
  cmd_run, cmd_step, cmd_next, cmd_break, cmd_reset,
}
use risc_v_virtual_machine.Debugger.Shell.Storage.{cmd_write, cmd_save, cmd_reload, cmd_load}

abbrev pub max_args : ℕ
max_args = 16

abbrev pub input_size : ℕ
input_size = 1024

abbrev pub newline : ℕ
newline = 10

abbrev attach : ℕ → List (List ℕ) → List (List ℕ)
attach c [] = (c ∷ []) ∷ []
attach c (piece ∷ pieces) = (c ∷ piece) ∷ pieces

-- What the calls of `fgets` put into a buffer of `size` bytes: each takes at most `size - 1`
-- characters and stops behind a newline. `room` is what the present one may still take.
unfoldable pub fgets_from : ℕ → ℕ → List ℕ → List (List ℕ)
fgets_from size room [] = []
fgets_from size room (c ∷ text) =
    let next = fgets_from size (size - 1) text in
    let same = fgets_from size (room - 1) text in
    if c == newline then (c ∷ []) ∷ next else if leb room 1 then (c ∷ []) ∷ next else attach c same

abbrev pub fgets : ℕ → List ℕ → List (List ℕ)
fgets size text = fgets_from size (size - 1) text

-- `buffer[strlen(buffer) - 1] = '\0'`.
unfoldable pub drop_last : List ℕ → List ℕ
drop_last [] = []
drop_last (c ∷ []) = []
drop_last (c ∷ d ∷ text) = c ∷ drop_last (d ∷ text)

-- `buffer[strcspn(buffer, "\n")] = '\0'`.
unfoldable pub strip_newline : List ℕ → List ℕ
strip_newline [] = []
strip_newline (c ∷ text) = let rest = strip_newline text in if c == newline then [] else c ∷ rest

-- The function pointers of the table of commands.
pub data Command : Type 0 where
  run_command : Command
  step_command : Command
  state_command : Command
  mem_command : Command
  write_command : Command
  reset_command : Command
  load_command : Command
  break_command : Command
  next_command : Command
  save_command : Command
  reload_command : Command
  disassemble_command : Command
  script_command : Command

abbrev pub commands : List (List ℕ × Command)
commands =
    (codes "run", run_command)
    ∷ (codes "step", step_command)
    ∷ (codes "state", state_command)
    ∷ (codes "mem", mem_command)
    ∷ (codes "write", write_command)
    ∷ (codes "reset", reset_command)
    ∷ (codes "load", load_command)
    ∷ (codes "break", break_command)
    ∷ (codes "next", next_command)
    ∷ (codes "save", save_command)
    ∷ (codes "reload", reload_command)
    ∷ (codes "disassemble", disassemble_command)
    ∷ (codes "script", script_command)
    ∷ []

-- The first command of the table with the name.
unfoldable pub find_command : List (List ℕ × Command) → List ℕ → Option Command
find_command [] name = none
find_command (entry ∷ entries) name =
    let rest = find_command entries name in if same_text name entry.0 then some entry.1 else rest

abbrev not_found : Debugger → List (List ℕ) → Outcome
not_found d [] = done (print d (not_recognized (codes "(null)")))
not_found d (name ∷ args) = done (print d (not_recognized name))

-- The loop of `script` over the lines, numbered from `i` on. What the dispatch returns is ignored,
-- so `exit` does not end a script.
unfoldable pub run_script :
    (Debugger → List ℕ → Outcome × Bool) → ℕ → List (List ℕ) → Debugger → Outcome
run_script dispatch i [] d = done d
run_script dispatch i (line ∷ lines) d =
    let text = drop_last line in
    elim (dispatch (print d (echo i text)) text).0 [
      | done after ↦ run_script dispatch (i + 1) lines after
      | undefined ↦ undefined
      | running ↦ running
    ]

-- The contents of the files, by their paths.
module _ (files : List ℕ → Option (List ℕ)) where
  unfoldable pub cmd_script :
      (Debugger → List ℕ → Outcome × Bool) → Debugger → List (List ℕ) → Outcome
  cmd_script dispatch d [] = usage d []
  cmd_script dispatch d (name ∷ []) = usage d (name ∷ [])
  cmd_script dispatch d (name ∷ path ∷ args) = elim (files path) [
    | none ↦ done (print d not_opened)
    | some text ↦ run_script dispatch 0 (fgets 256 text) d
  ]

  -- The call through the pointer, with the dispatch that `script` calls.
  unfoldable pub call :
      ℕ → (Debugger → List ℕ → Outcome × Bool) → Command → Debugger → List (List ℕ) → Outcome
  call fuel dispatch run_command d args = cmd_run fuel d args
  call fuel dispatch step_command d args = cmd_step d args
  call fuel dispatch state_command d args = cmd_state d args
  call fuel dispatch mem_command d args = cmd_mem d args
  call fuel dispatch write_command d args = cmd_write d args
  call fuel dispatch reset_command d args = cmd_reset d args
  call fuel dispatch load_command d args = cmd_load files d args
  call fuel dispatch break_command d args = cmd_break d args
  call fuel dispatch next_command d args = cmd_next fuel d args
  call fuel dispatch save_command d args = cmd_save d args
  call fuel dispatch reload_command d args = cmd_reload d args
  call fuel dispatch disassemble_command d args = cmd_disassemble d args
  call fuel dispatch script_command d args = cmd_script dispatch d args

  abbrev pub call_found :
      ℕ → (Debugger → List ℕ → Outcome × Bool) → Option Command → Debugger → List (List ℕ) → Outcome
  call_found fuel dispatch none d argv = not_found d argv
  call_found fuel dispatch (some command) d argv = call fuel dispatch command d argv

  -- A line of text, and whether the debugger goes on. The fuel bounds the loops of the commands and
  -- the depth of the scripts.
  unfoldable pub dispatch_command : ℕ → Debugger → List ℕ → Outcome × Bool
  unfolding cmd_script call
  dispatch_command zero d text = (running, true)
  dispatch_command (suc fuel) d text =
      let argv = tokens text in
      let name = first_string text in
      let found = call_found fuel (dispatch_command fuel) (find_command commands name) d argv in
      if ltb max_args (length argv)
      then (undefined, true)
      else if same_text name (codes "exit")
      then (done d, false)
      else (found, true)

  -- The loop over the lines of the input, and its result: 0 after `exit`, and -1 at the end.
  unfoldable pub cli_run : ℕ → List (List ℕ) → Debugger → Outcome × ℤ
  unfolding dispatch_command
  cli_run fuel [] d = (done d, negsuc 0)
  cli_run fuel (line ∷ lines) d =
      let (outcome, more) = dispatch_command fuel d (strip_newline line) in
      elim outcome [
        | done after ↦
            let rest = cli_run fuel lines after in if more then rest else (done after, pos 0)
        | undefined ↦ (undefined, pos 0)
        | running ↦ (running, pos 0)
      ]

  abbrev pub debugger_main : ℕ → List ℕ → Outcome × ℤ
  debugger_main fuel stdin =
      let vm = vm_init in
      let cpu = vm.cpu in
      let d : Debugger = record {
        vm = record vm { cpu = record cpu { priviledge = u_mode } };
        breakpoints = no_breakpoints;
        save_dump = none;
        out = [];
      } in
      cli_run fuel (fgets input_size stdin) d
