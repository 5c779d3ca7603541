-- ===== src/Cpu/Fits/Returns.antt =====
-- MRET, SRET and the dispatch of system.c in src/cpu/instructions/dispatchers.
use risc_v_virtual_machine.Common.{ℕ, arith, ◌==◌, ◌<◌, ◌^◌, true, not, field}
use risc_v_virtual_machine.Bus.{Bus}
use risc_v_virtual_machine.Cpu.{u_mode, m_mode, Cpu, Machine, on_cpu, set_csr}
use risc_v_virtual_machine.Cpu.Csr.Names
use risc_v_virtual_machine.Cpu.Decode.{IType}
use risc_v_virtual_machine.Cpu.Trap.{exc_illegal_instruction}
use risc_v_virtual_machine.Cpu.Exec.System.{
  ecall, ebreak, sfence_vma, sret, mret, wfi, dispatch_system,
}
use risc_v_virtual_machine.Cpu.Fits.{Fits, Fits-if, set_csr-Fits}
use risc_v_virtual_machine.Cpu.Fits.Traps.{raise_exception-Fits, set_bit-lt}
use risc_v_virtual_machine.Cpu.Fits.Memory.{Sound, Valid}
use risc_v_virtual_machine.Cpu.Fits.LoadStore.{raises-Valid}
use risc_v_virtual_machine.Cpu.Fits.System.{
  csrrw-Valid, csrrwi-Valid, csrrs-Valid, csrrc-Valid, csrrsi-Valid, csrrci-Valid,
}

-- A return from a trap, to a program counter and a mode.
restored-Fits :
    (cpu : Cpu) (mstatus pc mode : ℕ)
    → Fits cpu
    → mstatus < 2 ^ 64
    → pc < 2 ^ 64
    → Fits (
        let lowered = record cpu { priviledge = mode } in
        let c = set_csr lowered Names.csr_mstatus mstatus in
        record c { pc = pc; pc_written = true })
restored-Fits cpu mstatus pc mode f h k =
    let g = set_csr-Fits cpu Names.csr_mstatus mstatus f h in
    record { regs_lt = g.regs_lt; csrs_lt = g.csrs_lt; pc_lt = k }

sret-Fits : (cpu : Cpu) (i : IType) → Fits cpu → i.raw < 2 ^ 64 → Fits (sret cpu i)
unfolding sret
sret-Fits cpu i f h =
    let s = f.csrs_lt Names.csr_mstatus in
    let status =
      set_bit-lt _ 8 0
        (set_bit-lt _ 5 1
          (set_bit-lt (cpu.csrs Names.csr_mstatus) 1 (field (cpu.csrs Names.csr_mstatus) 5 1) s
            (omega arith))
          (omega arith))
        (omega arith) in
    Fits-if (cpu.priviledge == u_mode) _ _
      (raise_exception-Fits cpu exc_illegal_instruction i.raw f (omega arith) h)
      (restored-Fits cpu _ _ _ f status (f.csrs_lt Names.csr_sepc))

mret-Fits : (cpu : Cpu) (i : IType) → Fits cpu → i.raw < 2 ^ 64 → Fits (mret cpu i)
unfolding mret
mret-Fits cpu i f h =
    let s = f.csrs_lt Names.csr_mstatus in
    let status =
      set_bit-lt _ 12 0
        (set_bit-lt _ 11 0
          (set_bit-lt _ 7 1
            (set_bit-lt (cpu.csrs Names.csr_mstatus) 3 (field (cpu.csrs Names.csr_mstatus) 7 1) s
              (omega arith))
            (omega arith))
          (omega arith))
        (omega arith) in
    Fits-if (not (cpu.priviledge == m_mode)) _ _
      (raise_exception-Fits cpu exc_illegal_instruction i.raw f (omega arith) h)
      (restored-Fits cpu _ _ _ f status (f.csrs_lt Names.csr_mepc))

ecall-Fits : (cpu : Cpu) (i : IType) → Fits cpu → Fits (ecall cpu i)
unfolding ecall
ecall-Fits cpu i f = raise_exception-Fits cpu _ 0 f (ground arith) (omega arith)

ebreak-Fits : (cpu : Cpu) (i : IType) → Fits cpu → Fits (ebreak cpu i)
unfolding ebreak
ebreak-Fits cpu i f = raise_exception-Fits cpu _ 0 f (omega arith) (omega arith)

sfence_vma-Fits : (cpu : Cpu) (i : IType) → Fits cpu → i.raw < 2 ^ 64 → Fits (sfence_vma cpu i)
unfolding sfence_vma
sfence_vma-Fits cpu i f h =
    grind (arith, f, raise_exception-Fits cpu exc_illegal_instruction i.raw f (omega arith) h)

wfi-Fits : (cpu : Cpu) (i : IType) → Fits cpu → Fits (wfi cpu i)
unfolding wfi
wfi-Fits cpu i f = f

module _ {S : Type 0} ⦃bus : Bus S⦄ {I : S → Type 0} (sound : Sound I) where
  pub on_cpu-Valid :
      (f : Cpu → Cpu) (m : Machine S) → Valid I m → Fits (f m.cpu) → Valid I (on_cpu f m)
  on_cpu-Valid f m v h = record { fits = h; devices = v.devices }

  pub dispatch_system-Valid :
      (m : Machine S) (i : IType)
      → Valid I m
      → i.raw < 2 ^ 64
      → i.rs1 < 2 ^ 64
      → Valid I (dispatch_system m i)
  unfolding dispatch_system
  dispatch_system-Valid m i v h u = grind (
    arith,
    raises-Valid sound m exc_illegal_instruction i.raw v (omega arith) h,
    on_cpu-Valid (λ cpu. sfence_vma cpu i) m v (sfence_vma-Fits m.cpu i v.fits h),
    on_cpu-Valid (λ cpu. ecall cpu i) m v (ecall-Fits m.cpu i v.fits),
    on_cpu-Valid (λ cpu. ebreak cpu i) m v (ebreak-Fits m.cpu i v.fits),
    on_cpu-Valid (λ cpu. sret cpu i) m v (sret-Fits m.cpu i v.fits h),
    on_cpu-Valid (λ cpu. mret cpu i) m v (mret-Fits m.cpu i v.fits h),
    on_cpu-Valid (λ cpu. wfi cpu i) m v (wfi-Fits m.cpu i v.fits),
    csrrw-Valid sound m i v h u,
    csrrs-Valid sound m i v h u,
    csrrc-Valid sound m i v h u,
    csrrwi-Valid sound m i v h u,
    csrrsi-Valid sound m i v h u,
    csrrci-Valid sound m i v h u,
  )
