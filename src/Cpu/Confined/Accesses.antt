-- ===== src/Cpu/Confined/Accesses.antt =====
-- The loads, stores and the fetch of src/cpu/cpu.c keep the privileged state or take an exception.
use risc_v_virtual_machine.Common.{ℕ, ◌≡◌, true, not, if◌then◌else◌, Bool-cases, inl, inr}
use risc_v_virtual_machine.Bus.{Bus}
use risc_v_virtual_machine.Cpu.{Cpu, Machine, cpu_invalidate_reservation}
use risc_v_virtual_machine.Cpu.Confined.{
  Same, Confined, keeps, traps, Same-trans, cpu_invalidate_reservation-Same,
}
use risc_v_virtual_machine.Cpu.Access.{
  LoadResult, failed, raise_fault, cpu_fetch, cpu_load8, cpu_load16, cpu_load32, cpu_load64,
  cpu_store8, cpu_store16, cpu_store32, cpu_store64,
}
use risc_v_virtual_machine.Cpu.Paging.{
  access_load, access_store, access_fetch, is_success, error_code, TranslationResult,
  translate_address,
}
use risc_v_virtual_machine.Cpu.Confined.{Same-eq}
use risc_v_virtual_machine.Cpu.Confined.Translation.{cpu-translate_address}

module _ {S : Type 0} ⦃bus : Bus S⦄ where
  -- A load or a store keeps the privileged state if it succeeds, and else takes an exception.
  pub data Accessed (cpu : Cpu) : LoadResult × Machine S → Type 0 where
    succeeded :
        {value : ℕ} {m : Machine S}
        → Same cpu m.cpu
        → Accessed cpu (record { success = true; value = value }, m)
    faulted : {m : Machine S} → Confined cpu m.cpu → Accessed cpu (failed, m)

  load-Accessed :
      (cpu : Cpu) (tr : TranslationResult) (m : Machine S) (va value : ℕ) (ctx : S)
      → m.cpu ≡ cpu
      → Accessed cpu (
          if not (is_success tr.result)
          then (failed, raise_fault tr va m)
          else (record { success = true; value = value }, record m { ctx = ctx }))
  load-Accessed cpu tr m va value ctx e = elim (Bool-cases (is_success tr.result)) [
    | inl t ↦ rw t (succeeded (Same-eq e))
    | inr f ↦ rw f (faulted (traps (error_code tr.result) va (Same-eq e)))
  ]

  store-Accessed :
      (cpu : Cpu) (tr : TranslationResult) (m : Machine S) (va n : ℕ) (ctx : S)
      → m.cpu ≡ cpu
      → Accessed cpu (
          if not (is_success tr.result) then (failed, raise_fault tr va m) else (
            record { success = true; value = 0 },
            record { cpu = cpu_invalidate_reservation m.cpu tr.physical_address n; ctx = ctx },
          ))
  store-Accessed cpu tr m va n ctx e = elim (Bool-cases (is_success tr.result)) [
    | inl t ↦ rw t (
        succeeded
          (Same-trans (Same-eq e) (cpu_invalidate_reservation-Same m.cpu tr.physical_address n)))
    | inr f ↦ rw f (faulted (traps (error_code tr.result) va (Same-eq e)))
  ]

  pub cpu_load8-Accessed : (m : Machine S) (va : ℕ) → Accessed m.cpu (cpu_load8 m va)
  unfolding cpu_load8
  cpu_load8-Accessed m va =
      let (tr, m') = translate_address va access_load m in
      load-Accessed m.cpu tr m' va _ _ (cpu-translate_address va access_load m)

  pub cpu_load16-Accessed : (m : Machine S) (va : ℕ) → Accessed m.cpu (cpu_load16 m va)
  unfolding cpu_load16
  cpu_load16-Accessed m va =
      let (tr, m') = translate_address va access_load m in
      load-Accessed m.cpu tr m' va _ _ (cpu-translate_address va access_load m)

  pub cpu_load32-Accessed : (m : Machine S) (va : ℕ) → Accessed m.cpu (cpu_load32 m va)
  unfolding cpu_load32
  cpu_load32-Accessed m va =
      let (tr, m') = translate_address va access_load m in
      load-Accessed m.cpu tr m' va _ _ (cpu-translate_address va access_load m)

  pub cpu_load64-Accessed : (m : Machine S) (va : ℕ) → Accessed m.cpu (cpu_load64 m va)
  unfolding cpu_load64
  cpu_load64-Accessed m va =
      let (tr, m') = translate_address va access_load m in
      load-Accessed m.cpu tr m' va _ _ (cpu-translate_address va access_load m)

  pub cpu_store8-Accessed : (m : Machine S) (va value : ℕ) → Accessed m.cpu (cpu_store8 m va value)
  unfolding cpu_store8
  cpu_store8-Accessed m va value =
      let (tr, m') = translate_address va access_store m in
      store-Accessed m.cpu tr m' va 1 _ (cpu-translate_address va access_store m)

  pub cpu_store16-Accessed :
      (m : Machine S) (va value : ℕ) → Accessed m.cpu (cpu_store16 m va value)
  unfolding cpu_store16
  cpu_store16-Accessed m va value =
      let (tr, m') = translate_address va access_store m in
      store-Accessed m.cpu tr m' va 2 _ (cpu-translate_address va access_store m)

  pub cpu_store32-Accessed :
      (m : Machine S) (va value : ℕ) → Accessed m.cpu (cpu_store32 m va value)
  unfolding cpu_store32
  cpu_store32-Accessed m va value =
      let (tr, m') = translate_address va access_store m in
      store-Accessed m.cpu tr m' va 4 _ (cpu-translate_address va access_store m)

  pub cpu_store64-Accessed :
      (m : Machine S) (va value : ℕ) → Accessed m.cpu (cpu_store64 m va value)
  unfolding cpu_store64
  cpu_store64-Accessed m va value =
      let (tr, m') = translate_address va access_store m in
      store-Accessed m.cpu tr m' va 8 _ (cpu-translate_address va access_store m)

  pub cpu_fetch-Accessed : (m : Machine S) → Accessed m.cpu (cpu_fetch m)
  unfolding cpu_fetch
  cpu_fetch-Accessed m =
      let (tr, m') = translate_address m.cpu.pc access_fetch m in
      load-Accessed m.cpu tr m' m'.cpu.pc _ _ (cpu-translate_address m.cpu.pc access_fetch m)

  pub Accessed-Confined :
      {cpu : Cpu} {p : LoadResult × Machine S} → Accessed cpu p → Confined cpu p.1.cpu
  Accessed-Confined (succeeded s) = keeps s
  Accessed-Confined (faulted c) = c
