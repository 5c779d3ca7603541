-- ===== src/Cpu/Fits/LoadStore.antt =====
-- The instructions of load.c and store.c in src/cpu/instructions/dispatchers.
use risc_v_virtual_machine.Common.{
  ℕ, arith, ◌<◌, ◌^◌, not, if◌then◌else◌, Bool-cases, inl, inr, add64,
}
use risc_v_virtual_machine.Bus.{Bus}
use risc_v_virtual_machine.Cpu.{Machine, on_cpu, cpu_read_reg, cpu_write_reg}
use risc_v_virtual_machine.Cpu.Access.{LoadResult, cpu_load8, cpu_load16, cpu_load32, cpu_load64}
use risc_v_virtual_machine.Cpu.Decode.{IType, SType}
use risc_v_virtual_machine.Cpu.Trap.{raise_exception, exc_illegal_instruction}
use risc_v_virtual_machine.Cpu.Fits.{cpu_read_reg-lt, cpu_write_reg-Fits}
use risc_v_virtual_machine.Cpu.Fits.Values.{sign_extend-lt}
use risc_v_virtual_machine.Cpu.Fits.Traps.{raise_exception-Fits}
use risc_v_virtual_machine.Cpu.Fits.Memory.{Sound, Valid}
use risc_v_virtual_machine.Cpu.Fits.Accesses.{
  cpu_load8-Loaded, cpu_load16-Loaded, cpu_load32-Loaded, cpu_load64-Loaded, cpu_store8-Loaded,
  cpu_store16-Loaded, cpu_store32-Loaded, cpu_store64-Loaded,
}
use risc_v_virtual_machine.Cpu.Exec.Load.{lb, lh, lw, ld, lbu, lhu, lwu, dispatch_load}
use risc_v_virtual_machine.Cpu.Exec.Store.{sb, sh, sw, sd, dispatch_store}

module _ {S : Type 0} ⦃bus : Bus S⦄ {I : S → Type 0} (sound : Sound I) where
  load_then_write :
      (p : LoadResult × Machine S) (r value : ℕ)
      → (p.0.value < 2 ^ 64) × Valid I p.1
      → value < 2 ^ 64
      → Valid I (if not p.0.success then p.1 else on_cpu (λ c. cpu_write_reg c r value) p.1)
  load_then_write p r value l h = elim (Bool-cases (p.0.success)) [
    | inl t ↦
        rw t
          (record { fits = cpu_write_reg-Fits p.1.cpu r value l.1.fits h; devices = l.1.devices })
    | inr f ↦ rw f (l.1)
  ]

  lb-Valid : (m : Machine S) (i : IType) → Valid I m → Valid I (lb m i)
  unfolding lb
  lb-Valid m i v =
      let l = cpu_load8-Loaded sound m (add64 i.imm (cpu_read_reg m.cpu i.rs1)) v (omega arith) in
      load_then_write (cpu_load8 m (add64 i.imm (cpu_read_reg m.cpu i.rs1))) i.rd _ l
        (sign_extend-lt _ 8 (omega arith))

  lh-Valid : (m : Machine S) (i : IType) → Valid I m → Valid I (lh m i)
  unfolding lh
  lh-Valid m i v =
      let l = cpu_load16-Loaded sound m (add64 i.imm (cpu_read_reg m.cpu i.rs1)) v (omega arith) in
      load_then_write (cpu_load16 m (add64 i.imm (cpu_read_reg m.cpu i.rs1))) i.rd _ l
        (sign_extend-lt _ 16 (omega arith))

  lw-Valid : (m : Machine S) (i : IType) → Valid I m → Valid I (lw m i)
  unfolding lw
  lw-Valid m i v =
      let l = cpu_load32-Loaded sound m (add64 i.imm (cpu_read_reg m.cpu i.rs1)) v (omega arith) in
      load_then_write (cpu_load32 m (add64 i.imm (cpu_read_reg m.cpu i.rs1))) i.rd _ l
        (sign_extend-lt _ 32 (omega arith))

  ld-Valid : (m : Machine S) (i : IType) → Valid I m → Valid I (ld m i)
  unfolding ld
  ld-Valid m i v =
      let l = cpu_load64-Loaded sound m (add64 i.imm (cpu_read_reg m.cpu i.rs1)) v (omega arith) in
      load_then_write (cpu_load64 m (add64 i.imm (cpu_read_reg m.cpu i.rs1))) i.rd _ l l.0

  lbu-Valid : (m : Machine S) (i : IType) → Valid I m → Valid I (lbu m i)
  unfolding lbu
  lbu-Valid m i v =
      let l = cpu_load8-Loaded sound m (add64 i.imm (cpu_read_reg m.cpu i.rs1)) v (omega arith) in
      load_then_write (cpu_load8 m (add64 i.imm (cpu_read_reg m.cpu i.rs1))) i.rd _ l l.0

  lhu-Valid : (m : Machine S) (i : IType) → Valid I m → Valid I (lhu m i)
  unfolding lhu
  lhu-Valid m i v =
      let l = cpu_load16-Loaded sound m (add64 i.imm (cpu_read_reg m.cpu i.rs1)) v (omega arith) in
      load_then_write (cpu_load16 m (add64 i.imm (cpu_read_reg m.cpu i.rs1))) i.rd _ l l.0

  lwu-Valid : (m : Machine S) (i : IType) → Valid I m → Valid I (lwu m i)
  unfolding lwu
  lwu-Valid m i v =
      let l = cpu_load32-Loaded sound m (add64 i.imm (cpu_read_reg m.cpu i.rs1)) v (omega arith) in
      load_then_write (cpu_load32 m (add64 i.imm (cpu_read_reg m.cpu i.rs1))) i.rd _ l l.0

  sb-Valid : (m : Machine S) (i : SType) → Valid I m → Valid I (sb m i)
  unfolding sb
  sb-Valid m i v = (cpu_store8-Loaded sound m _ _ v (omega arith) (omega arith)).1

  sh-Valid : (m : Machine S) (i : SType) → Valid I m → Valid I (sh m i)
  unfolding sh
  sh-Valid m i v = (cpu_store16-Loaded sound m _ _ v (omega arith) (omega arith)).1

  sw-Valid : (m : Machine S) (i : SType) → Valid I m → Valid I (sw m i)
  unfolding sw
  sw-Valid m i v = (cpu_store32-Loaded sound m _ _ v (omega arith) (omega arith)).1

  sd-Valid : (m : Machine S) (i : SType) → Valid I m → Valid I (sd m i)
  unfolding sd
  sd-Valid m i v =
      (cpu_store64-Loaded sound m _ _ v (omega arith) (cpu_read_reg-lt m.cpu i.rs2 v.fits)).1

  -- An exception of the machine.
  pub raises-Valid :
      (m : Machine S) (cause tvalue : ℕ)
      → Valid I m
      → cause < 2 ^ 64
      → tvalue < 2 ^ 64
      → Valid I (on_cpu (λ cpu. raise_exception cpu cause tvalue) m)
  raises-Valid m cause tvalue v h k = record {
    fits = raise_exception-Fits m.cpu cause tvalue v.fits h k;
    devices = v.devices;
  }

  pub dispatch_load-Valid :
      (m : Machine S) (i : IType) → Valid I m → i.raw < 2 ^ 64 → Valid I (dispatch_load m i)
  unfolding dispatch_load
  dispatch_load-Valid m i v h = grind (
    arith,
    raises-Valid m exc_illegal_instruction i.raw v (omega arith) h,
    lb-Valid m i v,
    lh-Valid m i v,
    lw-Valid m i v,
    ld-Valid m i v,
    lbu-Valid m i v,
    lhu-Valid m i v,
    lwu-Valid m i v,
  )

  pub dispatch_store-Valid :
      (m : Machine S) (i : SType) → Valid I m → i.raw < 2 ^ 64 → Valid I (dispatch_store m i)
  unfolding dispatch_store
  dispatch_store-Valid m i v h = grind (
    arith,
    raises-Valid m exc_illegal_instruction i.raw v (omega arith) h,
    sb-Valid m i v,
    sh-Valid m i v,
    sw-Valid m i v,
    sd-Valid m i v,
  )
