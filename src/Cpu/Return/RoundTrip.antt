-- ===== src/Cpu/Return/RoundTrip.antt =====
-- A trap and its return give the interrupted program back.
use risc_v_virtual_machine.Common.{ℕ, ◌^◌, ◌≡◌, refl, arith}
use risc_v_virtual_machine.Common.{true, false, if◌then◌else◌, ltb}
use risc_v_virtual_machine.Common.{bit_or, inl, inr, Bool-cases}
use risc_v_virtual_machine.Cpu.{Cpu, m_mode, set_csr}
use risc_v_virtual_machine.Cpu.Csr.Names
use risc_v_virtual_machine.Cpu.Trap.{raise_exception, raise_interrupt, enter_m_trap, enter_s_trap}
use risc_v_virtual_machine.Cpu.Exec.System.{mret, sret}
use risc_v_virtual_machine.Cpu.Decode.{IType}
use risc_v_virtual_machine.Cpu.Return.{Resumes, IsMode, is_delegated, lost_by_mret, lost_by_sret}
use risc_v_virtual_machine.Cpu.Return.{mret-enter_m_trap, sret-enter_s_trap}

-- The registers that a trap into machine mode writes before it enters.
abbrev pub save_m : Cpu → ℕ → ℕ → Cpu
save_m cpu cause tvalue =
    let c = set_csr cpu Names.csr_mepc cpu.pc in
    let c = set_csr c Names.csr_mcause cause in set_csr c Names.csr_mtval tvalue

abbrev pub save_s : Cpu → ℕ → ℕ → Cpu
save_s cpu cause tvalue =
    let c = set_csr cpu Names.csr_sepc cpu.pc in
    let c = set_csr c Names.csr_scause cause in set_csr c Names.csr_stval tvalue

-- Where a trap goes.
pub raise_exception-m :
    (cpu : Cpu) (cause tvalue : ℕ)
    → is_delegated cpu Names.csr_medeleg cause ≡ false
    → raise_exception cpu cause tvalue ≡ enter_m_trap (save_m cpu cause tvalue)
unfolding raise_exception
raise_exception-m cpu cause tvalue own = rw own

pub raise_exception-s :
    (cpu : Cpu) (cause tvalue : ℕ)
    → is_delegated cpu Names.csr_medeleg cause ≡ true
    → raise_exception cpu cause tvalue ≡ enter_s_trap (save_s cpu cause tvalue)
unfolding raise_exception
raise_exception-s cpu cause tvalue delegated = rw delegated

pub raise_interrupt-m :
    (cpu : Cpu) (cause : ℕ)
    → is_delegated cpu Names.csr_mideleg cause ≡ false
    → raise_interrupt cpu cause ≡ enter_m_trap (save_m cpu (bit_or (2 ^ 63) cause) 0)
unfolding raise_interrupt
raise_interrupt-m cpu cause own = rw own

pub raise_interrupt-s :
    (cpu : Cpu) (cause : ℕ)
    → is_delegated cpu Names.csr_mideleg cause ≡ true
    → raise_interrupt cpu cause ≡ enter_s_trap (save_s cpu (bit_or (2 ^ 63) cause) 0)
unfolding raise_interrupt
raise_interrupt-s cpu cause delegated = rw delegated

module _ (cpu : Cpu) (instruction : IType) (mode : IsMode cpu.priviledge) where
  mret-Resumes :
      (cause tvalue : ℕ)
      → Resumes cpu (mret (enter_m_trap (save_m cpu cause tvalue)) instruction) lost_by_mret
  mret-Resumes cause tvalue =
      let r = mret-enter_m_trap (save_m cpu cause tvalue) instruction mode refl in
      record {
        same_pc = r.same_pc;
        same_priviledge = r.same_priviledge;
        same_regs = r.same_regs;
        same_mstatus = r.same_mstatus;
      }

  sret-Resumes :
      (cause tvalue : ℕ)
      → ltb cpu.priviledge m_mode ≡ true
      → Resumes cpu (sret (enter_s_trap (save_s cpu cause tvalue)) instruction) lost_by_sret
  sret-Resumes cause tvalue below =
      let r = sret-enter_s_trap (save_s cpu cause tvalue) instruction (ground arith) refl in
      record {
        same_pc = r.same_pc;
        same_priviledge = r.same_priviledge;
        same_regs = r.same_regs;
        same_mstatus = r.same_mstatus;
      }

  -- From any of the three modes, the return from an exception, SRET if it was delegated to
  -- supervisor mode and else MRET, goes on at the saved program counter in the same mode, with the
  -- registers as they were and with every digit of `mstatus` but the saved mode and enable bit of
  -- the handler's mode as it was.
  pub return-raise_exception :
      (cause tvalue : ℕ)
      → let delegated = is_delegated cpu Names.csr_medeleg cause in
        let trapped = raise_exception cpu cause tvalue in
        Resumes cpu
          (if delegated then sret trapped instruction else mret trapped instruction)
          (if delegated then lost_by_sret else lost_by_mret)
  return-raise_exception cause tvalue =
      elim (Bool-cases (is_delegated cpu Names.csr_medeleg cause)) [
        | inl s ↦
            rw (raise_exception-s cpu cause tvalue s, s)
              (sret-Resumes cause tvalue (ground (arith, s)))
        | inr m ↦ rw (raise_exception-m cpu cause tvalue m, m) (mret-Resumes cause tvalue)
      ]

  -- From any of the three modes, the return from an interrupt, SRET if it was delegated to
  -- supervisor mode and else MRET, goes on at the saved program counter in the same mode, with the
  -- registers as they were and with every digit of `mstatus` but the saved mode and enable bit of
  -- the handler's mode as it was.
  pub return-raise_interrupt :
      (cause : ℕ)
      → let delegated = is_delegated cpu Names.csr_mideleg cause in
        let trapped = raise_interrupt cpu cause in
        Resumes cpu
          (if delegated then sret trapped instruction else mret trapped instruction)
          (if delegated then lost_by_sret else lost_by_mret)
  return-raise_interrupt cause = elim (Bool-cases (is_delegated cpu Names.csr_mideleg cause)) [
    | inl s ↦
        rw (raise_interrupt-s cpu cause s, s)
          (sret-Resumes (bit_or (2 ^ 63) cause) 0 (ground (arith, s)))
    | inr m ↦ rw (raise_interrupt-m cpu cause m, m) (mret-Resumes (bit_or (2 ^ 63) cause) 0)
  ]
