-- ===== src/Cpu/Return/Entry.antt =====
-- The state in which the handler of a trap starts.
use risc_v_virtual_machine.Common.{ℕ, ◌*◌, ◌/◌, ◌%◌, ◌^◌, ◌≤◌, ◌≡◌, refl, arith}
use risc_v_virtual_machine.Common.{Bool, true, false, if◌then◌else◌, bit_and, ltb}
use risc_v_virtual_machine.Common.{bit_or, not64, inl, inr, Bool-cases}
use risc_v_virtual_machine.Bits.{bit, bit_and_step, bit_and_mask}
use risc_v_virtual_machine.Cpu.{Cpu, s_mode, m_mode}
use risc_v_virtual_machine.Cpu.Csr.Names
use risc_v_virtual_machine.Cpu.Trap.{raise_exception, raise_interrupt, enter_m_trap, enter_s_trap}
use risc_v_virtual_machine.Cpu.Return.{IsMode, is_delegated, mstatus}
use risc_v_virtual_machine.Cpu.Return.{mstatus-enter_m_trap, mstatus-enter_s_trap}
use risc_v_virtual_machine.Cpu.Return.RoundTrip.{save_m, save_s, raise_exception-m}
use risc_v_virtual_machine.Cpu.Return.RoundTrip.{raise_exception-s, raise_interrupt-m}
use risc_v_virtual_machine.Cpu.Return.RoundTrip.{raise_interrupt-s}

-- The handler runs in the mode that the trap is for, and no less privileged than the code that it
-- interrupts, at an address that is a multiple of four, with the interrupts of that mode off. The
-- mode's registers tell the cause, the value and where to go on, and `mstatus` whether the
-- interrupts were on. The general registers are as they were.
pub record Handles (before after : Cpu) (delegated : Bool) (cause tvalue : ℕ) : Type 0 where
  pub mode : after.priviledge ≡ (if delegated then s_mode else m_mode)
  pub not_lower : before.priviledge ≤ after.priviledge
  pub handler :
      after.pc
      ≡ before.csrs (if delegated then Names.csr_stvec else Names.csr_mtvec) % 2 ^ 64 / 4 * 4
  pub masks : bit (mstatus after) (if delegated then 1 else 3) ≡ 0
  pub enabled_before :
      bit (mstatus after) (if delegated then 5 else 7)
      ≡ bit (mstatus before) (if delegated then 1 else 3)
  pub epc : after.csrs (if delegated then Names.csr_sepc else Names.csr_mepc) ≡ before.pc
  pub tells_cause : after.csrs (if delegated then Names.csr_scause else Names.csr_mcause) ≡ cause
  pub tells_value : after.csrs (if delegated then Names.csr_stval else Names.csr_mtval) ≡ tvalue
  pub same_regs : after.regs ≡ before.regs
  pub traps : after.trap_taken ≡ true

-- The base of a trap vector.
clear_low : (x : ℕ) → bit_and x (not64 0x3) ≡ x % 2 ^ 64 / 4 * 4
clear_low x = omega (
  arith,
  bit_and_step x (not64 0x3),
  bit_and_step (x / 2) (not64 0x3 / 2),
  bit_and_mask 62 (x / 2 / 2),
)

enter_m_trap-Handles :
    (cpu : Cpu) (cause tvalue : ℕ)
    → IsMode cpu.priviledge
    → Handles cpu (enter_m_trap (save_m cpu cause tvalue)) false cause tvalue
enter_m_trap-Handles cpu cause tvalue mode = record {
  mode = unfold enter_m_trap in refl;
  not_lower = unfold enter_m_trap in ground arith;
  handler = unfold enter_m_trap in clear_low (cpu.csrs Names.csr_mtvec);
  masks = mstatus-enter_m_trap (save_m cpu cause tvalue) 3 (omega arith);
  enabled_before = mstatus-enter_m_trap (save_m cpu cause tvalue) 7 (omega arith);
  epc = unfold enter_m_trap in refl;
  tells_cause = unfold enter_m_trap in refl;
  tells_value = unfold enter_m_trap in refl;
  same_regs = unfold enter_m_trap in refl;
  traps = unfold enter_m_trap in refl;
}

enter_s_trap-Handles :
    (cpu : Cpu) (cause tvalue : ℕ)
    → IsMode cpu.priviledge
    → ltb cpu.priviledge m_mode ≡ true
    → Handles cpu (enter_s_trap (save_s cpu cause tvalue)) true cause tvalue
enter_s_trap-Handles cpu cause tvalue mode below = record {
  mode = unfold enter_s_trap in refl;
  not_lower = unfold enter_s_trap in ground arith;
  handler = unfold enter_s_trap in clear_low (cpu.csrs Names.csr_stvec);
  masks = mstatus-enter_s_trap (save_s cpu cause tvalue) 1 (omega arith);
  enabled_before = mstatus-enter_s_trap (save_s cpu cause tvalue) 5 (omega arith);
  epc = unfold enter_s_trap in refl;
  tells_cause = unfold enter_s_trap in refl;
  tells_value = unfold enter_s_trap in refl;
  same_regs = unfold enter_s_trap in refl;
  traps = unfold enter_s_trap in refl;
}

-- From any of the three modes, an exception starts the handler of supervisor mode if it comes from
-- below machine mode and `medeleg` delegates its cause, and else that of machine mode.
pub raise_exception-Handles :
    (cpu : Cpu) (cause tvalue : ℕ)
    → IsMode cpu.priviledge
    → Handles cpu
        (raise_exception cpu cause tvalue)
        (is_delegated cpu Names.csr_medeleg cause)
        cause
        tvalue
raise_exception-Handles cpu cause tvalue mode =
    elim (Bool-cases (is_delegated cpu Names.csr_medeleg cause)) [
      | inl s ↦
          rw (raise_exception-s cpu cause tvalue s, s)
            (enter_s_trap-Handles cpu cause tvalue mode (ground (arith, s)))
      | inr m ↦
          rw (raise_exception-m cpu cause tvalue m, m) (enter_m_trap-Handles cpu cause tvalue mode)
    ]

-- From any of the three modes, an interrupt starts the handler of supervisor mode if it comes from
-- below machine mode and `mideleg` delegates its cause, and else that of machine mode; the cause
-- that the handler finds has the interrupt bit, and the value is 0.
pub raise_interrupt-Handles :
    (cpu : Cpu) (cause : ℕ)
    → IsMode cpu.priviledge
    → Handles cpu
        (raise_interrupt cpu cause)
        (is_delegated cpu Names.csr_mideleg cause)
        (bit_or (2 ^ 63) cause)
        0
raise_interrupt-Handles cpu cause mode =
    elim (Bool-cases (is_delegated cpu Names.csr_mideleg cause)) [
      | inl s ↦
          rw (raise_interrupt-s cpu cause s, s)
            (enter_s_trap-Handles cpu (bit_or (2 ^ 63) cause) 0 mode (ground (arith, s)))
      | inr m ↦
          rw (raise_interrupt-m cpu cause m, m)
            (enter_m_trap-Handles cpu (bit_or (2 ^ 63) cause) 0 mode)
    ]
