-- ===== src/Debugger/Shell/Storage.antt =====
-- The commands that write the memory: `write`, `save`, `reload` and `load` of
-- tools/debugger/src/cli.c.
pub mod Load
use risc_v_virtual_machine.Common.{
  ℕ, zero, suc, ◌+◌, List, [], ◌∷◌, Option, none, some, ◌==◌, if◌then◌else◌, sub64, leb, ltb,
  length,
}
use risc_v_virtual_machine.Memory.{Memory}
use risc_v_virtual_machine.Bus.{vm_bus, vm_bus_write64, ram_base, ram_size}
use risc_v_virtual_machine.Cpu.Step.{cpu_reset}
use risc_v_virtual_machine.Vm.Load.{memcpy, take, drop}
use risc_v_virtual_machine.Debugger.Shell.{
  not_opened, not_in_ram, loaded, Debugger, Outcome, done, undefined, print, usage, number,
}

unfoldable pub cmd_write : Debugger → List (List ℕ) → Outcome
cmd_write d [] = usage d []
cmd_write d (name ∷ []) = usage d (name ∷ [])
cmd_write d (name ∷ address ∷ []) = usage d (name ∷ [])
cmd_write d (name ∷ address ∷ word ∷ args) = elim (number address) [
  | none ↦ usage d (name ∷ [])
  | some addr ↦ elim (number word) [
    | none ↦ usage d (name ∷ [])
    | some n ↦
        let vm = d.vm in done (record d { vm = record vm { ctx = vm_bus_write64 vm.ctx addr n } })
  ]
]

-- The file is taken to open for writing.
unfoldable pub cmd_save : Debugger → List (List ℕ) → Outcome
cmd_save d args = done (record d { save_dump = some d.vm.ctx.ram })

unfoldable pub cmd_reload : Debugger → List (List ℕ) → Outcome
cmd_reload d args = elim (d.save_dump) [
  | none ↦ undefined
  | some ram ↦
      let vm = d.vm in
      let platform = vm.ctx in
      done (record d {
        vm = record { cpu = cpu_reset vm.cpu ram_base; ctx = record platform { ram = ram } };
      })
]

-- The loop of `load`, on fuel: it ends with the first read of less than 1024 bytes; `none` where it
-- writes beyond RAM.
unfoldable pub load_blocks : ℕ → Memory → ℕ → List ℕ → Option Memory
load_blocks zero m offset file = some m
load_blocks (suc fuel) m offset file =
    let block = take 1024 file in
    elim (memcpy m offset block) [
      | none ↦ none
      | some copied ↦
          let rest = load_blocks fuel copied (offset + length block) (drop 1024 file) in
          if length block == 1024 then rest else some copied
    ]

-- The file at the address, with the program counter as it is by then.
unfoldable pub load_file : Debugger → List ℕ → Option (List ℕ) → ℕ → Outcome
load_file d path none addr = done (print d not_opened)
load_file d path (some file) addr =
    let offset = sub64 addr ram_base in
    let vm = d.vm in
    let platform = vm.ctx in
    let copied : Outcome = elim (load_blocks (suc (length file)) platform.ram offset file) [
      | none ↦ undefined
      | some ram ↦
          let copied = record d { vm = record vm { ctx = record platform { ram = ram } } } in
          done (print copied (loaded path addr))
    ] in
    if leb ram_size offset then done (print d (not_in_ram addr)) else copied

-- The contents of the files, by their paths.
module _ (files : List ℕ → Option (List ℕ)) where
  unfoldable pub cmd_load : Debugger → List (List ℕ) → Outcome
  unfolding load_file
  cmd_load d [] = usage d []
  cmd_load d (name ∷ []) = usage d (name ∷ [])
  cmd_load d (name ∷ path ∷ []) = load_file d path (files path) ram_base
  cmd_load d (name ∷ path ∷ address ∷ args) = elim (number address) [
    | none ↦ usage d (name ∷ [])
    | some addr ↦
        let vm = d.vm in
        let cpu = vm.cpu in
        load_file (record d { vm = record vm { cpu = record cpu { pc = addr } } }) path (files path)
          addr
  ]
