-- ===== src/Cpu/Fits/Atomics.antt =====
-- The atomic instructions of src/cpu/instructions/dispatchers/a_extension.c.
use risc_v_virtual_machine.Common.{
  ℕ, arith, ◌==◌, ◌&&◌, ◌<◌, ◌^◌, ◌≡◌, refl, Bool, true, false, not, if◌then◌else◌, Option, none,
  some, is_set, field, u32,
}
use risc_v_virtual_machine.Bits.{bit_or-lt, bit_and-lt, bit_xor-lt}
use risc_v_virtual_machine.Bus.{Bus}
use risc_v_virtual_machine.Cpu.{
  Cpu, Machine, Reservation, on_cpu, cpu_read_reg, cpu_write_reg, cpu_invalidate_reservation,
}
use risc_v_virtual_machine.Cpu.Paging.{
  access_load, access_store, is_success, error_code, translate_address,
}
use risc_v_virtual_machine.Cpu.Decode.{AType, sign_extend}
use risc_v_virtual_machine.Cpu.Trap.{
  exc_illegal_instruction, exc_store_addr_misaligned, exc_load_addr_misaligned,
}
use risc_v_virtual_machine.Cpu.Fits.{
  Fits, cpu_read_reg-lt, cpu_write_reg-Fits, cpu_invalidate_reservation-Fits,
}
use risc_v_virtual_machine.Cpu.Fits.Values.{sign_extend-lt}
use risc_v_virtual_machine.Cpu.Fits.Memory.{Sound, Valid, error_code-lt, translate_address-Valid}
use risc_v_virtual_machine.Cpu.Exec.AExtension.{
  illegal, amo_result, amo_w, amo_d, lr_w, lr_d, sc_w, sc_d, dispatch_a_extension,
}
use risc_v_virtual_machine.Cpu.Fits.LoadStore.{raises-Valid}

reserve-Fits :
    (cpu : Cpu) (reserved : Reservation) → Fits cpu → Fits (record cpu { reservation = reserved })
reserve-Fits cpu reserved f = record { regs_lt = f.regs_lt; csrs_lt = f.csrs_lt; pc_lt = f.pc_lt }

amo_result_32-lt :
    (funct5 old rhs new : ℕ)
    → old < 2 ^ 32
    → rhs < 2 ^ 32
    → amo_result 32 funct5 old rhs ≡ some new
    → new < 2 ^ 32
unfolding amo_result
amo_result_32-lt funct5 old rhs new h k e =
    grind (arith, e, bit_xor-lt 32 old rhs h k, bit_and-lt 32 old rhs h, bit_or-lt 32 old rhs h k)

amo_result_64-lt :
    (funct5 old rhs new : ℕ)
    → old < 2 ^ 64
    → rhs < 2 ^ 64
    → amo_result 64 funct5 old rhs ≡ some new
    → new < 2 ^ 64
unfolding amo_result
amo_result_64-lt funct5 old rhs new h k e =
    grind (arith, e, bit_xor-lt 64 old rhs h k, bit_and-lt 64 old rhs h, bit_or-lt 64 old rhs h k)

module _ {S : Type 0} ⦃bus : Bus S⦄ {I : S → Type 0} (sound : Sound I) where
  Valid-if :
      (test : Bool) (x y : Machine S) → Valid I x → Valid I y → Valid I (if test then x else y)
  Valid-if true x y h k = h
  Valid-if false x y h k = k

  known_or_illegal :
      (result : Option ℕ) (m : Machine S) (i : AType) (addr n old : ℕ) (ctx : ℕ → S)
      → Valid I m
      → i.raw < 2 ^ 64
      → old < 2 ^ 64
      → ((new : ℕ) → result ≡ some new → I (ctx new))
      → Valid I (elim result as (λ r. Machine S) [
        | none ↦ illegal i m
        | some new ↦
            on_cpu
              (λ cpu. cpu_write_reg cpu i.rd old)
              (record m { cpu = cpu_invalidate_reservation m.cpu addr n; ctx = ctx new })
      ])
  known_or_illegal none m i addr n old ctx v h k c =
      raises-Valid sound m exc_illegal_instruction i.raw v (omega arith) h
  known_or_illegal (some new) m i addr n old ctx v h k c = record {
    fits = cpu_write_reg-Fits _ i.rd old (cpu_invalidate_reservation-Fits m.cpu addr n v.fits) k;
    devices = c new refl;
  }

  release-Valid :
      (m : Machine S) (reserved : Reservation)
      → Valid I m
      → Valid I (on_cpu (λ cpu. record cpu { reservation = reserved }) m)
  release-Valid m reserved v = record {
    fits = reserve-Fits m.cpu reserved v.fits;
    devices = v.devices;
  }

  amo_w-Valid : (m : Machine S) (i : AType) → Valid I m → i.raw < 2 ^ 64 → Valid I (amo_w m i)
  unfolding amo_w
  amo_w-Valid m i v h =
      let addr = cpu_read_reg m.cpu i.rs1 in
      let addr_lt = cpu_read_reg-lt m.cpu i.rs1 v.fits in
      let (tr, m1) = translate_address addr access_store m in
      let w = translate_address-Valid sound addr access_store m v in
      let (old, ctx) = bus.read32 m1.ctx tr.physical_address in
      let old_lt = sound.read32_lt m1.ctx tr.physical_address w.devices in
      let kept = sound.read32_keeps m1.ctx tr.physical_address w.devices in
      let result = amo_result 32 i.funct5 old (u32 (cpu_read_reg m.cpu i.rs2)) in
      Valid-if (is_set (field addr 0 2)) _ _
        (raises-Valid sound m exc_store_addr_misaligned addr v (omega arith) addr_lt)
        (Valid-if (not (is_success tr.result)) _ _
          (raises-Valid sound m1 (error_code tr.result) addr w (error_code-lt tr.result) addr_lt)
          (known_or_illegal result (record m1 { ctx = ctx }) i tr.physical_address 4
            (sign_extend old 32) (λ new. bus.write32 ctx tr.physical_address new)
            (record { fits = w.fits; devices = kept }) h
            (sign_extend-lt old 32 (omega (arith, old_lt)))
            (λ new e. sound.write32_keeps ctx tr.physical_address new kept (
              amo_result_32-lt i.funct5 old (u32 (cpu_read_reg m.cpu i.rs2)) new old_lt
                (omega arith) e))))

  amo_d-Valid : (m : Machine S) (i : AType) → Valid I m → i.raw < 2 ^ 64 → Valid I (amo_d m i)
  unfolding amo_d
  amo_d-Valid m i v h =
      let addr = cpu_read_reg m.cpu i.rs1 in
      let addr_lt = cpu_read_reg-lt m.cpu i.rs1 v.fits in
      let (tr, m1) = translate_address addr access_store m in
      let w = translate_address-Valid sound addr access_store m v in
      let (old, ctx) = bus.read64 m1.ctx tr.physical_address in
      let old_lt = sound.read64_lt m1.ctx tr.physical_address w.devices in
      let kept = sound.read64_keeps m1.ctx tr.physical_address w.devices in
      let result = amo_result 64 i.funct5 old (cpu_read_reg m.cpu i.rs2) in
      Valid-if (is_set (field addr 0 3)) _ _
        (raises-Valid sound m exc_store_addr_misaligned addr v (omega arith) addr_lt)
        (Valid-if (not (is_success tr.result)) _ _
          (raises-Valid sound m1 (error_code tr.result) addr w (error_code-lt tr.result) addr_lt)
          (known_or_illegal result (record m1 { ctx = ctx }) i tr.physical_address 8 old
            (λ new. bus.write64 ctx tr.physical_address new)
            (record { fits = w.fits; devices = kept }) h old_lt
            (λ new e. sound.write64_keeps ctx tr.physical_address new kept (
              amo_result_64-lt i.funct5 old (cpu_read_reg m.cpu i.rs2) new old_lt
                (cpu_read_reg-lt m.cpu i.rs2 v.fits) e))))

  lr_w-Valid : (m : Machine S) (i : AType) → Valid I m → i.raw < 2 ^ 64 → Valid I (lr_w m i)
  unfolding lr_w
  lr_w-Valid m i v h =
      let addr = cpu_read_reg m.cpu i.rs1 in
      let addr_lt = cpu_read_reg-lt m.cpu i.rs1 v.fits in
      let (tr, m1) = translate_address addr access_load m in
      let w = translate_address-Valid sound addr access_load m v in
      let value_lt = sound.read32_lt m1.ctx tr.physical_address w.devices in
      let kept = sound.read32_keeps m1.ctx tr.physical_address w.devices in
      Valid-if (not (i.rs2 == 0)) _ _
        (raises-Valid sound m exc_illegal_instruction i.raw v (omega arith) h)
        (Valid-if (is_set (field addr 0 2)) _ _
          (raises-Valid sound m exc_load_addr_misaligned addr v (omega arith) addr_lt)
          (Valid-if (not (is_success tr.result)) _ _
            (raises-Valid sound m1 (error_code tr.result) addr w (error_code-lt tr.result) addr_lt)
            (record {
              fits = reserve-Fits _ _ (
                  cpu_write_reg-Fits m1.cpu i.rd _ w.fits
                    (sign_extend-lt _ 32 (omega (arith, value_lt))));
              devices = kept;
            })))

  lr_d-Valid : (m : Machine S) (i : AType) → Valid I m → i.raw < 2 ^ 64 → Valid I (lr_d m i)
  unfolding lr_d
  lr_d-Valid m i v h =
      let addr = cpu_read_reg m.cpu i.rs1 in
      let addr_lt = cpu_read_reg-lt m.cpu i.rs1 v.fits in
      let (tr, m1) = translate_address addr access_load m in
      let w = translate_address-Valid sound addr access_load m v in
      let value_lt = sound.read64_lt m1.ctx tr.physical_address w.devices in
      let kept = sound.read64_keeps m1.ctx tr.physical_address w.devices in
      Valid-if (not (i.rs2 == 0)) _ _
        (raises-Valid sound m exc_illegal_instruction i.raw v (omega arith) h)
        (Valid-if (is_set (field addr 0 3)) _ _
          (raises-Valid sound m exc_load_addr_misaligned addr v (omega arith) addr_lt)
          (Valid-if (not (is_success tr.result)) _ _
            (raises-Valid sound m1 (error_code tr.result) addr w (error_code-lt tr.result) addr_lt)
            (record {
              fits = reserve-Fits _ _ (cpu_write_reg-Fits m1.cpu i.rd _ w.fits value_lt);
              devices = kept;
            })))

  sc_w-Valid : (m : Machine S) (i : AType) → Valid I m → Valid I (sc_w m i)
  unfolding sc_w
  sc_w-Valid m i v =
      let addr = cpu_read_reg m.cpu i.rs1 in
      let addr_lt = cpu_read_reg-lt m.cpu i.rs1 v.fits in
      let (tr, m1) = translate_address addr access_store m in
      let w = translate_address-Valid sound addr access_store m v in
      let r = m1.cpu.reservation in
      Valid-if (is_set (field addr 0 2)) _ _
        (raises-Valid sound m exc_store_addr_misaligned addr v (omega arith) addr_lt)
        (Valid-if (not (is_success tr.result)) _ _
          (raises-Valid sound m1 (error_code tr.result) addr w (error_code-lt tr.result) addr_lt)
          (release-Valid _ _ (
            Valid-if (r.phys_addr == tr.physical_address && r.valid && r.size == 4) _ _
              (record {
                fits = cpu_write_reg-Fits m1.cpu i.rd 0 w.fits (omega arith);
                devices = sound.write32_keeps m1.ctx tr.physical_address _ w.devices (omega arith);
              })
              (record {
                fits = cpu_write_reg-Fits m1.cpu i.rd 1 w.fits (omega arith);
                devices = w.devices;
              }))))

  sc_d-Valid : (m : Machine S) (i : AType) → Valid I m → Valid I (sc_d m i)
  unfolding sc_d
  sc_d-Valid m i v =
      let addr = cpu_read_reg m.cpu i.rs1 in
      let addr_lt = cpu_read_reg-lt m.cpu i.rs1 v.fits in
      let (tr, m1) = translate_address addr access_store m in
      let w = translate_address-Valid sound addr access_store m v in
      let r = m1.cpu.reservation in
      Valid-if (is_set (field addr 0 3)) _ _
        (raises-Valid sound m exc_store_addr_misaligned addr v (omega arith) addr_lt)
        (Valid-if (not (is_success tr.result)) _ _
          (raises-Valid sound m1 (error_code tr.result) addr w (error_code-lt tr.result) addr_lt)
          (release-Valid _ _ (
            Valid-if (r.phys_addr == tr.physical_address && r.valid && r.size == 8) _ _
              (record {
                fits = cpu_write_reg-Fits m1.cpu i.rd 0 w.fits (omega arith);
                devices =
                    sound.write64_keeps m1.ctx tr.physical_address _ w.devices
                      (cpu_read_reg-lt m.cpu i.rs2 v.fits);
              })
              (record {
                fits = cpu_write_reg-Fits m1.cpu i.rd 1 w.fits (omega arith);
                devices = w.devices;
              }))))

  pub dispatch_a_extension-Valid :
      (m : Machine S) (i : AType) → Valid I m → i.raw < 2 ^ 64 → Valid I (dispatch_a_extension m i)
  unfolding dispatch_a_extension
  dispatch_a_extension-Valid m i v h = grind (
    arith,
    raises-Valid sound m exc_illegal_instruction i.raw v (omega arith) h,
    amo_w-Valid m i v h,
    amo_d-Valid m i v h,
    lr_w-Valid m i v h,
    lr_d-Valid m i v h,
    sc_w-Valid m i v,
    sc_d-Valid m i v,
  )
