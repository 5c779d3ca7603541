-- ===== src/Cpu/Access.antt =====
-- Virtual memory accesses of the processor: `cpu_fetch`, `cpu_load8` to `cpu_store64` of
-- src/cpu/cpu.c.
pub mod Untranslated
use risc_v_virtual_machine.Common.{ℕ, Bool, true, false, not, if◌then◌else◌}
use risc_v_virtual_machine.Bus.{Bus}
use risc_v_virtual_machine.Cpu.{Machine, on_cpu, cpu_invalidate_reservation}
use risc_v_virtual_machine.Cpu.Trap.{raise_exception}
use risc_v_virtual_machine.Cpu.Paging.{access_store, access_fetch, access_load}
use risc_v_virtual_machine.Cpu.Paging.{TranslationResult, error_code, is_success, translate_address}

pub record LoadResult : Type 0 where
  pub success : Bool
  pub value : ℕ

abbrev pub failed : LoadResult
failed = record { success = false; value = 0 }

module _ {S : Type 0} ⦃bus : Bus S⦄ where
  -- The trap of a failed translation of `vaddr`.
  abbrev pub raise_fault : TranslationResult → ℕ → Machine S → Machine S
  raise_fault tr vaddr m = on_cpu (λ cpu. raise_exception cpu (error_code tr.result) vaddr) m

  unfoldable pub cpu_fetch : Machine S → LoadResult × Machine S
  cpu_fetch m =
      let (tr, m') = translate_address m.cpu.pc access_fetch m in
      let read = bus.read32 m'.ctx tr.physical_address in
      if not (is_success tr.result)
      then (failed, raise_fault tr m'.cpu.pc m')
      else (record { success = true; value = read.0 }, record m' { ctx = read.1 })

  unfoldable pub cpu_load8 : Machine S → ℕ → LoadResult × Machine S
  cpu_load8 m vaddr =
      let (tr, m') = translate_address vaddr access_load m in
      let read = bus.read8 m'.ctx tr.physical_address in
      if not (is_success tr.result)
      then (failed, raise_fault tr vaddr m')
      else (record { success = true; value = read.0 }, record m' { ctx = read.1 })

  unfoldable pub cpu_load16 : Machine S → ℕ → LoadResult × Machine S
  cpu_load16 m vaddr =
      let (tr, m') = translate_address vaddr access_load m in
      let read = bus.read16 m'.ctx tr.physical_address in
      if not (is_success tr.result)
      then (failed, raise_fault tr vaddr m')
      else (record { success = true; value = read.0 }, record m' { ctx = read.1 })

  unfoldable pub cpu_load32 : Machine S → ℕ → LoadResult × Machine S
  cpu_load32 m vaddr =
      let (tr, m') = translate_address vaddr access_load m in
      let read = bus.read32 m'.ctx tr.physical_address in
      if not (is_success tr.result)
      then (failed, raise_fault tr vaddr m')
      else (record { success = true; value = read.0 }, record m' { ctx = read.1 })

  unfoldable pub cpu_load64 : Machine S → ℕ → LoadResult × Machine S
  cpu_load64 m vaddr =
      let (tr, m') = translate_address vaddr access_load m in
      let read = bus.read64 m'.ctx tr.physical_address in
      if not (is_success tr.result)
      then (failed, raise_fault tr vaddr m')
      else (record { success = true; value = read.0 }, record m' { ctx = read.1 })

  unfoldable pub cpu_store8 : Machine S → ℕ → ℕ → LoadResult × Machine S
  cpu_store8 m vaddr value =
      let (tr, m') = translate_address vaddr access_store m in
      let stored = record m' {
        cpu = cpu_invalidate_reservation m'.cpu tr.physical_address 1;
        ctx = bus.write8 m'.ctx tr.physical_address value;
      } in
      if not (is_success tr.result)
      then (failed, raise_fault tr vaddr m')
      else (record { success = true; value = 0 }, stored)

  unfoldable pub cpu_store16 : Machine S → ℕ → ℕ → LoadResult × Machine S
  cpu_store16 m vaddr value =
      let (tr, m') = translate_address vaddr access_store m in
      let stored = record m' {
        cpu = cpu_invalidate_reservation m'.cpu tr.physical_address 2;
        ctx = bus.write16 m'.ctx tr.physical_address value;
      } in
      if not (is_success tr.result)
      then (failed, raise_fault tr vaddr m')
      else (record { success = true; value = 0 }, stored)

  unfoldable pub cpu_store32 : Machine S → ℕ → ℕ → LoadResult × Machine S
  cpu_store32 m vaddr value =
      let (tr, m') = translate_address vaddr access_store m in
      let stored = record m' {
        cpu = cpu_invalidate_reservation m'.cpu tr.physical_address 4;
        ctx = bus.write32 m'.ctx tr.physical_address value;
      } in
      if not (is_success tr.result)
      then (failed, raise_fault tr vaddr m')
      else (record { success = true; value = 0 }, stored)

  unfoldable pub cpu_store64 : Machine S → ℕ → ℕ → LoadResult × Machine S
  cpu_store64 m vaddr value =
      let (tr, m') = translate_address vaddr access_store m in
      let stored = record m' {
        cpu = cpu_invalidate_reservation m'.cpu tr.physical_address 8;
        ctx = bus.write64 m'.ctx tr.physical_address value;
      } in
      if not (is_success tr.result)
      then (failed, raise_fault tr vaddr m')
      else (record { success = true; value = 0 }, stored)
