-- ===== src/Cpu/Confined/Atomics.antt =====
-- The atomic instructions.
use risc_v_virtual_machine.Common.{
  is_set, u32, Option, none, some, ◌&&◌, ℕ, arith, ◌≡◌, Bool, true, false, not, ◌==◌, if◌then◌else◌,
  field,
}
use risc_v_virtual_machine.Bus.{Bus}
use risc_v_virtual_machine.Cpu.{
  Reservation, cpu_read_reg, Cpu, Machine, on_cpu, cpu_write_reg, cpu_invalidate_reservation,
}
use risc_v_virtual_machine.Cpu.Confined.{
  Same, Confined, keeps, traps, Same-trans, cpu_write_reg-Same, cpu_invalidate_reservation-Same,
}
use risc_v_virtual_machine.Cpu.Decode.{AType}
use risc_v_virtual_machine.Cpu.Paging.{
  access_load, access_store, is_success, error_code, translate_address,
}
use risc_v_virtual_machine.Cpu.Confined.{Same-eq}
use risc_v_virtual_machine.Cpu.Confined.Translation.{cpu-translate_address}
use risc_v_virtual_machine.Cpu.Confined.{raises}
use risc_v_virtual_machine.Cpu.Trap.{
  exc_illegal_instruction, exc_store_addr_misaligned, exc_load_addr_misaligned,
}
use risc_v_virtual_machine.Cpu.Exec.AExtension.{
  illegal, amo_result, amo_w, amo_d, lr_w, lr_d, sc_w, sc_d, dispatch_a_extension,
}

reserves-Same :
    {a b : Cpu} (r value : ℕ) (reserved : Reservation)
    → Same a b
    → Same a (let written = cpu_write_reg b r value in record written { reservation = reserved })
reserves-Same {b = b} r value reserved s =
    let written = Same-trans s (cpu_write_reg-Same b r value) in
    record { same_csrs = written.same_csrs; same_mode = written.same_mode }

module _ {S : Type 0} ⦃bus : Bus S⦄ where
  Confined-if_machine :
      {cpu : Cpu} (test : Bool) (x y : Machine S)
      → Confined cpu x.cpu
      → Confined cpu y.cpu
      → Confined cpu (if test then x else y).cpu
  Confined-if_machine true x y h k = h
  Confined-if_machine false x y h k = k

  -- The end of an atomic operation, with the new word if the operation is known.
  abbrev finished : Machine S → AType → ℕ → ℕ → ℕ → S → Machine S
  finished m i addr n old ctx =
      on_cpu (λ cpu. cpu_write_reg cpu i.rd old)
        (record m { cpu = cpu_invalidate_reservation m.cpu addr n; ctx = ctx })

  finished-Same :
      (m : Machine S) (i : AType) (addr n old : ℕ) (ctx : S)
      → Same m.cpu (finished m i addr n old ctx).cpu
  finished-Same m i addr n old ctx =
      let kept = cpu_invalidate_reservation m.cpu addr n in
      Same-trans (cpu_invalidate_reservation-Same m.cpu addr n) (cpu_write_reg-Same kept i.rd old)

  known_or_illegal :
      {cpu : Cpu} (result : Option ℕ) (m : Machine S) (i : AType) (addr n old : ℕ) (ctx : ℕ → S)
      → m.cpu ≡ cpu
      → Confined cpu
          (elim result as (λ r. Machine S) [
            | none ↦ illegal i m
            | some new ↦ finished m i addr n old (ctx new)
          ]).cpu
  known_or_illegal none m i addr n old ctx e = traps exc_illegal_instruction i.raw (Same-eq e)
  known_or_illegal (some new) m i addr n old ctx e =
      keeps (Same-trans (Same-eq e) (finished-Same m i addr n old (ctx new)))

  amo_w-Confined : (m : Machine S) (i : AType) → Confined m.cpu (amo_w m i).cpu
  unfolding amo_w
  amo_w-Confined m i =
      let addr = cpu_read_reg m.cpu i.rs1 in
      let (tr, m1) = translate_address addr access_store m in
      let e = cpu-translate_address addr access_store m in
      Confined-if_machine (is_set (field addr 0 2)) _ _
        (raises m.cpu exc_store_addr_misaligned addr)
        (Confined-if_machine (not (is_success tr.result)) _ _
          (traps (error_code tr.result) addr (Same-eq e))
          (known_or_illegal
            (amo_result 32 i.funct5 (bus.read32 m1.ctx tr.physical_address).0
              (u32 (cpu_read_reg m.cpu i.rs2)))
            (record m1 { ctx = (bus.read32 m1.ctx tr.physical_address).1 }) i tr.physical_address 4
            _ (λ new. bus.write32 (bus.read32 m1.ctx tr.physical_address).1 tr.physical_address new)
            e))

  amo_d-Confined : (m : Machine S) (i : AType) → Confined m.cpu (amo_d m i).cpu
  unfolding amo_d
  amo_d-Confined m i =
      let addr = cpu_read_reg m.cpu i.rs1 in
      let (tr, m1) = translate_address addr access_store m in
      let e = cpu-translate_address addr access_store m in
      Confined-if_machine (is_set (field addr 0 3)) _ _
        (raises m.cpu exc_store_addr_misaligned addr)
        (Confined-if_machine (not (is_success tr.result)) _ _
          (traps (error_code tr.result) addr (Same-eq e))
          (known_or_illegal
            (amo_result 64 i.funct5 (bus.read64 m1.ctx tr.physical_address).0
              (cpu_read_reg m.cpu i.rs2))
            (record m1 { ctx = (bus.read64 m1.ctx tr.physical_address).1 }) i tr.physical_address 8
            _ (λ new. bus.write64 (bus.read64 m1.ctx tr.physical_address).1 tr.physical_address new)
            e))

  -- The result of a store conditional in `rd`, and the reservation given up.
  releases-Same :
      {a : Cpu} (m : Machine S) (test : Bool) (r : ℕ) (ctx : S) (reserved : Reservation)
      → Same a m.cpu
      → Same a
          (on_cpu
            (λ cpu. record cpu { reservation = reserved })
            (if test
              then record { cpu = cpu_write_reg m.cpu r 0; ctx = ctx }
              else on_cpu (λ cpu. cpu_write_reg cpu r 1) m)).cpu
  releases-Same m true r ctx reserved s = reserves-Same r 0 reserved s
  releases-Same m false r ctx reserved s = reserves-Same r 1 reserved s

  lr_w-Confined : (m : Machine S) (i : AType) → Confined m.cpu (lr_w m i).cpu
  unfolding lr_w
  lr_w-Confined m i =
      let addr = cpu_read_reg m.cpu i.rs1 in
      let (tr, m1) = translate_address addr access_load m in
      let e = cpu-translate_address addr access_load m in
      Confined-if_machine (not (i.rs2 == 0)) _ _ (raises m.cpu exc_illegal_instruction i.raw) (
        Confined-if_machine (is_set (field addr 0 2)) _ _
          (raises m.cpu exc_load_addr_misaligned addr)
          (Confined-if_machine (not (is_success tr.result)) _ _
            (traps (error_code tr.result) addr (Same-eq e))
            (keeps (reserves-Same i.rd _ _ (Same-eq e)))))

  lr_d-Confined : (m : Machine S) (i : AType) → Confined m.cpu (lr_d m i).cpu
  unfolding lr_d
  lr_d-Confined m i =
      let addr = cpu_read_reg m.cpu i.rs1 in
      let (tr, m1) = translate_address addr access_load m in
      let e = cpu-translate_address addr access_load m in
      Confined-if_machine (not (i.rs2 == 0)) _ _ (raises m.cpu exc_illegal_instruction i.raw) (
        Confined-if_machine (is_set (field addr 0 3)) _ _
          (raises m.cpu exc_load_addr_misaligned addr)
          (Confined-if_machine (not (is_success tr.result)) _ _
            (traps (error_code tr.result) addr (Same-eq e))
            (keeps (reserves-Same i.rd _ _ (Same-eq e)))))

  sc_w-Confined : (m : Machine S) (i : AType) → Confined m.cpu (sc_w m i).cpu
  unfolding sc_w
  sc_w-Confined m i =
      let addr = cpu_read_reg m.cpu i.rs1 in
      let (tr, m1) = translate_address addr access_store m in
      let e = cpu-translate_address addr access_store m in
      let reserved = m1.cpu.reservation in
      Confined-if_machine (is_set (field addr 0 2)) _ _
        (raises m.cpu exc_store_addr_misaligned addr)
        (Confined-if_machine (not (is_success tr.result)) _ _
          (traps (error_code tr.result) addr (Same-eq e))
          (keeps (
            releases-Same m1
              (reserved.phys_addr == tr.physical_address && reserved.valid && reserved.size == 4)
              i.rd _ _ (Same-eq e))))

  sc_d-Confined : (m : Machine S) (i : AType) → Confined m.cpu (sc_d m i).cpu
  unfolding sc_d
  sc_d-Confined m i =
      let addr = cpu_read_reg m.cpu i.rs1 in
      let (tr, m1) = translate_address addr access_store m in
      let e = cpu-translate_address addr access_store m in
      let reserved = m1.cpu.reservation in
      Confined-if_machine (is_set (field addr 0 3)) _ _
        (raises m.cpu exc_store_addr_misaligned addr)
        (Confined-if_machine (not (is_success tr.result)) _ _
          (traps (error_code tr.result) addr (Same-eq e))
          (keeps (
            releases-Same m1
              (reserved.phys_addr == tr.physical_address && reserved.valid && reserved.size == 8)
              i.rd _ _ (Same-eq e))))

  pub dispatch_a_extension-Confined :
      (m : Machine S) (i : AType) → Confined m.cpu (dispatch_a_extension m i).cpu
  unfolding dispatch_a_extension
  dispatch_a_extension-Confined m i = grind (
    arith, raises, amo_w-Confined, amo_d-Confined, lr_w-Confined, lr_d-Confined, sc_w-Confined,
    sc_d-Confined,
  )
