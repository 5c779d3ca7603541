-- ===== src/Debugger/Shell/Storage/Load.antt =====
-- The command `load` of tools/debugger/src/cli.c against the load of the main program.
use mathlib.Core.Bool.{true≢false}
use risc_v_virtual_machine.Common.{
  ℕ, zero, suc, ◌+◌, ◌-◌, ◌≤◌, ◌<◌, List, [], ◌∷◌, ◌≡◌, refl, ap, arith, false, ◌==◌, Bool-cases,
  ==_iff, inl, inr, if◌then◌else◌, length, some, leb, sub64,
}
use risc_v_virtual_machine.Memory.{Memory, mem_base, mem_size}
use risc_v_virtual_machine.Bus.{ram_base, ram_size}
use risc_v_virtual_machine.Vm.{Vm}
use risc_v_virtual_machine.Vm.Load.{
  take, drop, vm_load_bin, filled, filled_split, length-take-drop, memcpy-filled,
  load_chunks-filled,
}
use risc_v_virtual_machine.Debugger.Shell.{Debugger, done, print, loaded}
use risc_v_virtual_machine.Debugger.Shell.Storage.{load_blocks, load_file}

take_all : (n : ℕ) (xs : List ℕ) → (length (take n xs) == n) ≡ false → take n xs ≡ xs
take_all zero xs h = absurd (true≢false h)
take_all (suc n) [] h = refl
take_all (suc n) (x ∷ xs) h = ap (λ rest. x ∷ rest) (take_all n xs (ground (arith, h)))

load_blocks-filled :
    (fuel : ℕ) (m : Memory) (offset : ℕ) (file : List ℕ)
    → length file < fuel
    → offset + length file ≤ mem_size
    → load_blocks fuel m offset file ≡ some (filled m offset file)
unfolding load_blocks
load_blocks-filled zero m offset file h fits = absurd (omega arith)
load_blocks-filled (suc fuel) m offset file h fits =
    let block = take 1024 file in
    let parts = length-take-drop 1024 file in
    let copied = memcpy-filled m offset block (omega (arith, parts)) in
    elim (Bool-cases (length block == 1024)) [
      | inl e ↦
          let whole = (==_iff (length block) 1024).0 e in
          rw
            (
              load_blocks,
              copied,
              e,
              load_blocks-filled fuel (filled m offset block) (offset + length block)
                  (drop 1024 file) (omega (arith, whole, parts)) (omega (arith, parts)),
              filled_split 1024 m offset file,
            )
            refl
      | inr e ↦
          rw (load_blocks, copied, e)
            (ap (λ bytes. some (filled m offset bytes)) (take_all 1024 file e))
    ]

starts_inside :
    {A : Type 0} (limit offset : ℕ) (x y : A)
    → offset < limit
    → (if leb limit offset then x else y) ≡ y
starts_inside limit offset x y h = ground (arith, h)

-- A file that fits into RAM at the address is loaded as `vm_load_bin` loads it.
pub load_file-vm_load_bin :
    (d : Debugger) (path file : List ℕ) (addr : ℕ)
    → ram_base ≤ addr
    → addr < ram_base + ram_size
    → addr + length file ≤ ram_base + ram_size
    → (vm' : Vm) × (vm_load_bin d.vm (some file) addr ≡ some (0, vm'))
      × (load_file d path (some file) addr
          ≡ done (print (record d { vm = vm' }) (loaded path addr)))
unfolding vm_load_bin load_file
load_file-vm_load_bin d path file addr h k fits =
    let offset : sub64 addr ram_base ≡ addr - mem_base = omega arith in
    let n = suc (length file) in
    let vm = d.vm in
    let platform = vm.ctx in
    (
      record vm { ctx = record platform { ram = filled platform.ram (addr - mem_base) file } },
      rw
          (
            vm_load_bin,
            offset,
            load_chunks-filled n platform.ram (addr - mem_base) file (omega arith) (omega arith),
          )
          refl,
      rw
          (
            load_file,
            offset,
            load_blocks-filled n platform.ram (addr - mem_base) file (omega arith) (omega arith),
          )
          (starts_inside ram_size (addr - mem_base) _ _ (omega arith)),
    )
