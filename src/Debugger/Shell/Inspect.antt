-- ===== src/Debugger/Shell/Inspect.antt =====
-- The commands that show the machine: `disassemble`, `state` and `mem` of
-- tools/debugger/src/cli.c.
use risc_v_virtual_machine.Common.{
  ℕ, zero, suc, List, [], ◌∷◌, none, some, if◌then◌else◌, u32, add64,
}
use risc_v_virtual_machine.Bus.{vm_bus, vm_bus_read64}
use risc_v_virtual_machine.Cpu.{Cpu, cpu_read_reg}
use risc_v_virtual_machine.Cpu.Access.{cpu_fetch}
use risc_v_virtual_machine.Debugger.Shell.{
  value, pc_is, instruction, registers, Debugger, Outcome, done, print, print_line, usage, number,
}

unfoldable pub disassemble_lines : ℕ → Debugger → ℕ → Debugger
disassemble_lines zero d addr = d
disassemble_lines (suc lines) d addr = disassemble_lines lines (print_line d addr) (add64 addr 4)

unfoldable pub cmd_disassemble : Debugger → List (List ℕ) → Outcome
unfolding disassemble_lines
cmd_disassemble d [] = usage d []
cmd_disassemble d (name ∷ []) = usage d (name ∷ [])
cmd_disassemble d (name ∷ address ∷ []) = elim (number address) [
  | none ↦ usage d (name ∷ [])
  | some addr ↦ done (disassemble_lines 1 d addr)
]
cmd_disassemble d (name ∷ address ∷ count ∷ args) = elim (number address) [
  | none ↦ usage d (name ∷ [])
  | some addr ↦ elim (number count) [
    | none ↦ usage d (name ∷ [])
    | some lines ↦ done (disassemble_lines (u32 lines) d addr)
  ]
]

-- The registers from `i` on, in the order of the numbers.
unfoldable pub read_registers : ℕ → Cpu → ℕ → List ℕ
read_registers zero cpu i = []
read_registers (suc n) cpu i = cpu_read_reg cpu i ∷ read_registers n cpu (suc i)

-- A fetch that fails traps, as it does in a step.
unfoldable pub cmd_state : Debugger → List (List ℕ) → Outcome
unfolding read_registers
cmd_state d args =
    let told = print d (pc_is d.vm.cpu.pc) in
    let (result, vm) = cpu_fetch told.vm in
    let fetched = record told { vm = vm } in
    let shown = print fetched (instruction (if result.success then some result.value else none)) in
    let lined = print_line shown shown.vm.cpu.pc in
    done (print lined (registers (read_registers 32 lined.vm.cpu 0)))

unfoldable pub cmd_mem : Debugger → List (List ℕ) → Outcome
cmd_mem d [] = usage d []
cmd_mem d (name ∷ []) = usage d (name ∷ [])
cmd_mem d (name ∷ address ∷ args) = elim (number address) [
  | none ↦ usage d (name ∷ [])
  | some addr ↦
      let vm = d.vm in
      let (word, platform) = vm_bus_read64 vm.ctx addr in
      let read = record d { vm = record vm { ctx = platform } } in done (print read (value word))
]
