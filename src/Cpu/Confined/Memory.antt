-- ===== src/Cpu/Confined/Memory.antt =====
-- The load and store instructions.
use risc_v_virtual_machine.Common.{ℕ, arith, not, if◌then◌else◌}
use risc_v_virtual_machine.Bus.{Bus}
use risc_v_virtual_machine.Cpu.{Cpu, Machine, on_cpu, cpu_write_reg}
use risc_v_virtual_machine.Cpu.Confined.{Confined, keeps, Same-trans, cpu_write_reg-Same}
use risc_v_virtual_machine.Cpu.Access.{LoadResult, cpu_load8, cpu_load16, cpu_load32, cpu_load64}
use risc_v_virtual_machine.Cpu.Decode.{IType, SType}
use risc_v_virtual_machine.Cpu.Exec.Load.{lb, lh, lw, ld, lbu, lhu, lwu, dispatch_load}
use risc_v_virtual_machine.Cpu.Exec.Store.{sb, sh, sw, sd, dispatch_store}
use risc_v_virtual_machine.Cpu.Confined.{raises}
use risc_v_virtual_machine.Cpu.Confined.Accesses.{
  Accessed, succeeded, faulted, Accessed-Confined, cpu_load8-Accessed, cpu_load16-Accessed,
  cpu_load32-Accessed, cpu_load64-Accessed, cpu_store8-Accessed, cpu_store16-Accessed,
  cpu_store32-Accessed, cpu_store64-Accessed,
}

module _ {S : Type 0} ⦃bus : Bus S⦄ where
  -- What a load does with its result.
  load_then_write :
      {cpu : Cpu} (p : LoadResult × Machine S) (r value : ℕ)
      → Accessed cpu p
      → Confined cpu
          (if not p.0.success then p.1 else on_cpu (λ c. cpu_write_reg c r value) p.1).cpu
  load_then_write {cpu} p r value (succeeded {m = m} s) =
      keeps (Same-trans s (cpu_write_reg-Same m.cpu r value))
  load_then_write p r value (faulted c) = c

  lb-Confined : (m : Machine S) (i : IType) → Confined m.cpu (lb m i).cpu
  unfolding lb
  lb-Confined m i = load_then_write (cpu_load8 m _) i.rd _ (cpu_load8-Accessed m _)

  lh-Confined : (m : Machine S) (i : IType) → Confined m.cpu (lh m i).cpu
  unfolding lh
  lh-Confined m i = load_then_write (cpu_load16 m _) i.rd _ (cpu_load16-Accessed m _)

  lw-Confined : (m : Machine S) (i : IType) → Confined m.cpu (lw m i).cpu
  unfolding lw
  lw-Confined m i = load_then_write (cpu_load32 m _) i.rd _ (cpu_load32-Accessed m _)

  ld-Confined : (m : Machine S) (i : IType) → Confined m.cpu (ld m i).cpu
  unfolding ld
  ld-Confined m i = load_then_write (cpu_load64 m _) i.rd _ (cpu_load64-Accessed m _)

  lbu-Confined : (m : Machine S) (i : IType) → Confined m.cpu (lbu m i).cpu
  unfolding lbu
  lbu-Confined m i = load_then_write (cpu_load8 m _) i.rd _ (cpu_load8-Accessed m _)

  lhu-Confined : (m : Machine S) (i : IType) → Confined m.cpu (lhu m i).cpu
  unfolding lhu
  lhu-Confined m i = load_then_write (cpu_load16 m _) i.rd _ (cpu_load16-Accessed m _)

  lwu-Confined : (m : Machine S) (i : IType) → Confined m.cpu (lwu m i).cpu
  unfolding lwu
  lwu-Confined m i = load_then_write (cpu_load32 m _) i.rd _ (cpu_load32-Accessed m _)

  sb-Confined : (m : Machine S) (i : SType) → Confined m.cpu (sb m i).cpu
  unfolding sb
  sb-Confined m i = Accessed-Confined (cpu_store8-Accessed m _ _)

  sh-Confined : (m : Machine S) (i : SType) → Confined m.cpu (sh m i).cpu
  unfolding sh
  sh-Confined m i = Accessed-Confined (cpu_store16-Accessed m _ _)

  sw-Confined : (m : Machine S) (i : SType) → Confined m.cpu (sw m i).cpu
  unfolding sw
  sw-Confined m i = Accessed-Confined (cpu_store32-Accessed m _ _)

  sd-Confined : (m : Machine S) (i : SType) → Confined m.cpu (sd m i).cpu
  unfolding sd
  sd-Confined m i = Accessed-Confined (cpu_store64-Accessed m _ _)

  pub dispatch_load-Confined : (m : Machine S) (i : IType) → Confined m.cpu (dispatch_load m i).cpu
  unfolding dispatch_load
  dispatch_load-Confined m i = grind (
    arith, raises, lb-Confined, lh-Confined, lw-Confined, ld-Confined, lbu-Confined, lhu-Confined,
    lwu-Confined,
  )

  pub dispatch_store-Confined :
      (m : Machine S) (i : SType) → Confined m.cpu (dispatch_store m i).cpu
  unfolding dispatch_store
  dispatch_store-Confined m i =
      grind (arith, raises, sb-Confined, sh-Confined, sw-Confined, sd-Confined)
