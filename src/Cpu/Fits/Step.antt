-- ===== src/Cpu/Fits/Step.antt =====
-- A step of the processor: `cpu_step` of src/cpu/cpu.c.
use risc_v_virtual_machine.Common.{
  ℕ, arith, ◌&&◌, ◌<◌, ◌^◌, false, not, if◌then◌else◌, Bool-cases, inl, inr, is_set, u32, bit_and,
  List, [], ◌∷◌,
}
use risc_v_virtual_machine.Bits.{bit_and-lt}
use risc_v_virtual_machine.Bus.{Bus}
use risc_v_virtual_machine.Cpu.{Cpu, Machine, on_cpu}
use risc_v_virtual_machine.Cpu.Csr.Names
use risc_v_virtual_machine.Cpu.Decode.{IType}
use risc_v_virtual_machine.Cpu.Trap.{exc_illegal_instruction}
use risc_v_virtual_machine.Cpu.Fits.{Fits, Fits-if, set_csr-Fits}
use risc_v_virtual_machine.Cpu.Fits.Memory.{Sound, Valid}
use risc_v_virtual_machine.Cpu.Fits.LoadStore.{raises-Valid}
use risc_v_virtual_machine.Cpu.Access.{cpu_fetch, LoadResult}
use risc_v_virtual_machine.Cpu.Decode.{
  decode_r, decode_i, decode_s, decode_b, decode_u, decode_j, decode_a,
}
use risc_v_virtual_machine.Cpu.Interrupts.{check_causes, cpu_check_interrupts}
use risc_v_virtual_machine.Cpu.Step.{
  increment_pc, cpu_begin, cpu_finish, cpu_step, dispatch_instruction, execute_i, execute_r,
  execute_u,
}
use risc_v_virtual_machine.Cpu.Fits.Values.{sign_extend-lt}
use risc_v_virtual_machine.Cpu.Fits.Traps.{raise_interrupt-Fits}
use risc_v_virtual_machine.Cpu.Fits.Memory.{Loaded}
use risc_v_virtual_machine.Cpu.Fits.Accesses.{cpu_fetch-Loaded}
use risc_v_virtual_machine.Cpu.Fits.Immediates.{
  dispatch_op_imm-Fits, dispatch_op_imm_32-Fits, dispatch_branch-Fits, dispatch_jal-Fits,
  dispatch_jalr-Fits, execute_u-Fits, dispatch_misc_mem-Fits, execute_r-Fits,
}
use risc_v_virtual_machine.Cpu.Fits.LoadStore.{dispatch_load-Valid, dispatch_store-Valid}
use risc_v_virtual_machine.Cpu.Fits.Atomics.{dispatch_a_extension-Valid}
use risc_v_virtual_machine.Cpu.Fits.Returns.{on_cpu-Valid, dispatch_system-Valid}
use risc_v_virtual_machine.Cpu.Exec.OpImm.{dispatch_op_imm}
use risc_v_virtual_machine.Cpu.Exec.OpImm32.{dispatch_op_imm_32}
use risc_v_virtual_machine.Cpu.Exec.Jumps.{dispatch_jalr, dispatch_jal, dispatch_misc_mem}
use risc_v_virtual_machine.Cpu.Exec.Branch.{dispatch_branch}

decode_i-lt :
    (x : ℕ)
    → x < 2 ^ 32
    → ((decode_i x).imm < 2 ^ 64) × ((decode_i x).raw < 2 ^ 64) × ((decode_i x).rs1 < 2 ^ 64)
unfolding decode_i
decode_i-lt x h = (sign_extend-lt _ 12 (omega arith), omega arith, omega arith)

decode_u-lt : (x : ℕ) → x < 2 ^ 32 → ((decode_u x).imm < 2 ^ 64) × ((decode_u x).raw < 2 ^ 64)
unfolding decode_u
decode_u-lt x h = (sign_extend-lt _ 32 (bit_and-lt 64 x _ (omega arith)), omega arith)

raws-lt :
    (x : ℕ)
    → x < 2 ^ 32
    → ((decode_r x).raw < 2 ^ 64)
      × ((decode_s x).raw < 2 ^ 64)
      × ((decode_b x).raw < 2 ^ 64)
      × ((decode_j x).raw < 2 ^ 64)
      × ((decode_a x).raw < 2 ^ 64)
unfolding decode_r decode_s decode_b decode_j decode_a
raws-lt x h = (omega arith, omega arith, omega arith, omega arith, omega arith)

check_causes-Fits :
    (mstatus mideleg pending : ℕ) (cpu : Cpu) (cause : ℕ) (causes : List ℕ)
    → Fits cpu
    → cause < 64
    → Fits (check_causes mstatus mideleg pending cpu causes)
    → Fits (check_causes mstatus mideleg pending cpu (cause ∷ causes))
unfolding check_causes
check_causes-Fits mstatus mideleg pending cpu cause causes f h rest =
    grind (arith, f, rest, raise_interrupt-Fits cpu cause f h)

pub cpu_check_interrupts-Fits : (cpu : Cpu) → Fits cpu → Fits (cpu_check_interrupts cpu)
unfolding cpu_check_interrupts check_causes
cpu_check_interrupts-Fits cpu f =
    let a = cpu.csrs Names.csr_mstatus in
    let b = cpu.csrs Names.csr_mideleg in
    let c = bit_and (cpu.csrs Names.csr_mip) (cpu.csrs Names.csr_mie) in
    Fits-if (is_set c) _ _
      (check_causes-Fits a b c cpu 11 (3 ∷ 7 ∷ 9 ∷ 1 ∷ 5 ∷ []) f (omega arith) (
        check_causes-Fits a b c cpu 3 (7 ∷ 9 ∷ 1 ∷ 5 ∷ []) f (omega arith) (
          check_causes-Fits a b c cpu 7 (9 ∷ 1 ∷ 5 ∷ []) f (omega arith) (
            check_causes-Fits a b c cpu 9 (1 ∷ 5 ∷ []) f (omega arith) (
              check_causes-Fits a b c cpu 1 (5 ∷ []) f (omega arith)
                (check_causes-Fits a b c cpu 5 [] f (omega arith) f))))))
      f

increment_pc-Fits : (cpu : Cpu) → Fits cpu → Fits (increment_pc cpu)
unfolding increment_pc
increment_pc-Fits cpu f =
    Fits-if (not cpu.trap_taken && not cpu.pc_written) _ _
      (record { regs_lt = f.regs_lt; csrs_lt = f.csrs_lt; pc_lt = omega arith }) f

cpu_finish-Fits : (cpu : Cpu) → Fits cpu → Fits (cpu_finish cpu)
unfolding cpu_finish
cpu_finish-Fits cpu f =
    let advanced = increment_pc-Fits cpu f in
    let counted =
      Fits-if (not (increment_pc cpu).trap_taken) _ _
        (set_csr-Fits (increment_pc cpu) Names.csr_minstret _ advanced (omega arith)) advanced in
    let checked = cpu_check_interrupts-Fits _ counted in
    record { regs_lt = checked.regs_lt; csrs_lt = checked.csrs_lt; pc_lt = checked.pc_lt }

module _ {S : Type 0} ⦃bus : Bus S⦄ {I : S → Type 0} (sound : Sound I) where
  execute_i-Valid :
      (m : Machine S) (i : IType)
      → Valid I m
      → i.imm < 2 ^ 64
      → i.raw < 2 ^ 64
      → i.rs1 < 2 ^ 64
      → Valid I (execute_i m i)
  unfolding execute_i
  execute_i-Valid m i v h k u = grind (
    arith,
    raises-Valid sound m exc_illegal_instruction i.raw v (omega arith) k,
    on_cpu-Valid sound (λ cpu. dispatch_op_imm cpu i) m v (dispatch_op_imm-Fits m.cpu i v.fits h k),
    on_cpu-Valid sound (λ cpu. dispatch_op_imm_32 cpu i) m v
        (dispatch_op_imm_32-Fits m.cpu i v.fits h k),
    dispatch_load-Valid sound m i v k,
    on_cpu-Valid sound (λ cpu. dispatch_jalr cpu i) m v (dispatch_jalr-Fits m.cpu i v.fits),
    dispatch_system-Valid sound m i v k u,
    on_cpu-Valid sound (λ cpu. dispatch_misc_mem cpu i) m v
        (dispatch_misc_mem-Fits m.cpu i v.fits k),
  )

  dispatch_instruction-Valid :
      (m : Machine S) (x : ℕ) → Valid I m → x < 2 ^ 32 → Valid I (dispatch_instruction m x)
  unfolding dispatch_instruction
  dispatch_instruction-Valid m x v h =
      let (ii, ir, is) = decode_i-lt x h in
      let (ui, ur) = decode_u-lt x h in
      let (r, s, b, j, a) = raws-lt x h in
      grind (
        arith,
        raises-Valid sound m exc_illegal_instruction x v (omega arith) (omega arith),
        on_cpu-Valid sound (λ cpu. execute_u cpu (decode_u x)) m v
            (execute_u-Fits m.cpu (decode_u x) v.fits ui ur),
        on_cpu-Valid sound (λ cpu. dispatch_jal cpu (decode_j x)) m v
            (dispatch_jal-Fits m.cpu (decode_j x) v.fits j),
        execute_i-Valid m (decode_i x) v ii ir is,
        on_cpu-Valid sound (λ cpu. dispatch_branch cpu (decode_b x)) m v
            (dispatch_branch-Fits m.cpu (decode_b x) v.fits b),
        dispatch_store-Valid sound m (decode_s x) v s,
        on_cpu-Valid sound (λ cpu. execute_r cpu (decode_r x)) m v
            (execute_r-Fits m.cpu (decode_r x) v.fits r),
        dispatch_a_extension-Valid sound m (decode_a x) v a,
      )

  finish-Valid :
      (p : LoadResult × Machine S)
      → Loaded I p
      → Valid I (
          if not p.0.success
          then p.1
          else on_cpu cpu_finish (dispatch_instruction p.1 (u32 p.0.value)))
  finish-Valid p l = elim (Bool-cases (p.0.success)) [
    | inl t ↦
        let after = dispatch_instruction-Valid p.1 (u32 p.0.value) l.1 (omega arith) in
        rw t (
          on_cpu-Valid sound cpu_finish (dispatch_instruction p.1 (u32 p.0.value)) after
            (cpu_finish-Fits _ after.fits))
    | inr f ↦ rw f (l.1)
  ]

  -- A step over a sound bus keeps all words of the processor words of 64 bits, and the devices as
  -- the bus wants them.
  pub cpu_step-Valid : (m : Machine S) → Valid I m → Valid I (cpu_step m)
  unfolding cpu_step cpu_begin
  cpu_step-Valid m v =
      let begun : Valid I (cpu_begin m) = record {
        fits =
            (let f = v.fits in
              let c = record (m.cpu) { trap_taken = false } in
              set_csr-Fits c Names.csr_mcycle _
                (record { regs_lt = f.regs_lt; csrs_lt = f.csrs_lt; pc_lt = f.pc_lt })
                (omega arith));
        devices = v.devices;
      } in
      finish-Valid (cpu_fetch (cpu_begin m)) (cpu_fetch-Loaded sound (cpu_begin m) begun)
