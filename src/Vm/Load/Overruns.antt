-- ===== src/Vm/Load/Overruns.antt =====
-- Files that `vm_load_bin` of src/vm/vm.c writes beyond RAM.
use risc_v_virtual_machine.Common.{
  ℕ, zero, suc, Bool, false, ◌^◌, ◌+◌, sub64, ◌≤◌, ◌<◌, ◌≡◌, refl, arith, List, [], ◌∷◌, none, some,
  if◌then◌else◌, ltb, length, update, inl, inr, ◌⊎◌, true,
}
use risc_v_virtual_machine.Memory.{Memory, mem_base, mem_size}
use risc_v_virtual_machine.Vm.{Vm}
use risc_v_virtual_machine.Vm.Load.{
  take, drop, memcpy, load_chunks, vm_load_bin, filled, memcpy-filled, some_read, length-drop,
  length-take-drop,
}

memcpy-overruns :
    (m : Memory) (dst : ℕ) (bytes : List ℕ)
    → 0 < length bytes
    → mem_size < dst + length bytes
    → memcpy m dst bytes ≡ none
unfolding memcpy
memcpy-overruns m dst [] h over = absurd (omega arith)
memcpy-overruns m dst (byte ∷ []) h over = ground (arith, over)
memcpy-overruns m dst (byte ∷ next ∷ bytes) h over =
    rw
      (memcpy-overruns (record { mem = update m.mem dst byte }) (suc dst) (next ∷ bytes)
        (omega arith) (omega arith))
      (same (ltb dst mem_size) none)
  where
    same : {A : Type 0} (test : Bool) (x : A) → (if test then x else x) ≡ x
    same true x = refl
    same false x = refl

chunk_fits : (dst n : ℕ) → (dst + n ≤ mem_size) ⊎ (mem_size < dst + n)
chunk_fits dst n = ground arith

load_chunks-overruns :
    (fuel : ℕ) (m : Memory) (dst : ℕ) (file : List ℕ)
    → length file < fuel
    → 0 < length file
    → mem_size < dst + length file
    → load_chunks fuel m dst file ≡ none
unfolding load_chunks
load_chunks-overruns zero m dst file h some_bytes over = absurd (omega arith)
load_chunks-overruns (suc fuel) m dst [] h some_bytes over = absurd (omega arith)
load_chunks-overruns (suc fuel) m dst (byte ∷ bytes) h some_bytes over =
    let chunk = take 256 (byte ∷ bytes) in
    let parts = length-take-drop 256 (byte ∷ bytes) in
    elim (chunk_fits dst (length chunk)) [
      | inr too_long ↦ rw (load_chunks, memcpy-overruns m dst chunk (omega arith) too_long) refl
      | inl fits ↦
          rw
            (
              load_chunks,
              memcpy-filled m dst chunk fits,
              some_read (length (take 255 bytes)),
              load_chunks-overruns fuel (filled m dst chunk) (dst + length chunk)
                  (drop 256 (byte ∷ bytes)) (omega (arith, length-drop 255 bytes))
                  (omega (arith, parts)) (omega (arith, parts)),
            )
            refl
    ]

-- A file with a byte that opens and does not fit into RAM at the address, which may also lie below
-- RAM, is written beyond the mapping.
pub vm_load_bin-overruns :
    (vm : Vm) (file : List ℕ) (addr : ℕ)
    → 0 < length file
    → addr < 2 ^ 64
    → (addr < mem_base) ⊎ (mem_base + mem_size < addr + length file)
    → vm_load_bin vm (some file) addr ≡ none
unfolding vm_load_bin
vm_load_bin-overruns vm file addr h word over =
    rw
      (
        vm_load_bin,
        load_chunks-overruns (suc (length file)) vm.ctx.ram (sub64 addr mem_base) file (omega arith)
            h (ground (arith, over)),
      )
      refl
