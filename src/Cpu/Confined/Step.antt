-- ===== src/Cpu/Confined/Step.antt =====
-- A step in user mode: `cpu_step` of src/cpu/cpu.c.
use mathlib.Core.Bool.{true≢false}
use risc_v_virtual_machine.Common.{
  if◌then◌else◌, ℕ, arith, List, [], ◌∷◌, ◌≡◌, ◌≢◌, ◌⊎◌, inl, inr, refl, sym, ap, ◌∙◌, true, false,
  Bool-cases, not, u32, update_ne, is_set, bit_and,
}
use risc_v_virtual_machine.Bus.{Bus}
use risc_v_virtual_machine.Cpu.{Cpu, Machine, on_cpu, u_mode}
use risc_v_virtual_machine.Cpu.Csr.Names
use risc_v_virtual_machine.Cpu.Trap.{raise_exception, raise_interrupt, enter_m_trap, enter_s_trap}
use risc_v_virtual_machine.Cpu.Interrupts.{check_causes, cpu_check_interrupts, priority}
use risc_v_virtual_machine.Cpu.Access.{LoadResult, cpu_fetch}
use risc_v_virtual_machine.Cpu.Step.{
  count, increment_pc, cpu_begin, cpu_finish, cpu_step, dispatch_instruction,
}
use risc_v_virtual_machine.Cpu.Confined.{Same, Same-trans, Confined, keeps, traps}
use risc_v_virtual_machine.Cpu.Confined.Accesses.{Accessed, succeeded, faulted, cpu_fetch-Accessed}
use risc_v_virtual_machine.Cpu.Confined.User.{dispatch_instruction-Confined}

raise_exception-trap_taken :
    (cpu : Cpu) (cause tvalue : ℕ) → (raise_exception cpu cause tvalue).trap_taken ≡ true
unfolding raise_exception enter_m_trap enter_s_trap
raise_exception-trap_taken cpu cause tvalue = ground arith

raise_interrupt-trap_taken : (cpu : Cpu) (cause : ℕ) → (raise_interrupt cpu cause).trap_taken ≡ true
unfolding raise_interrupt enter_m_trap enter_s_trap
raise_interrupt-trap_taken cpu cause = ground arith

check_causes-cases :
    (mstatus mideleg pending : ℕ) (cpu : Cpu) (causes : List ℕ)
    → (check_causes mstatus mideleg pending cpu causes ≡ cpu)
      ⊎ ((check_causes mstatus mideleg pending cpu causes).trap_taken ≡ true)
unfolding check_causes
check_causes-cases mstatus mideleg pending cpu [] = inl refl
check_causes-cases mstatus mideleg pending cpu (cause ∷ causes) =
    elim (check_causes-cases mstatus mideleg pending cpu causes) [
      | inl e ↦ grind (arith, raise_interrupt-trap_taken cpu cause, e)
      | inr e ↦ grind (arith, raise_interrupt-trap_taken cpu cause, e)
    ]

cpu_check_interrupts-cases :
    (cpu : Cpu) → (cpu_check_interrupts cpu ≡ cpu) ⊎ ((cpu_check_interrupts cpu).trap_taken ≡ true)
unfolding cpu_check_interrupts
cpu_check_interrupts-cases cpu =
    elim (Bool-cases (is_set (bit_and (cpu.csrs Names.csr_mip) (cpu.csrs Names.csr_mie)))) [
      | inl e ↦ rw e (
          check_causes-cases (cpu.csrs Names.csr_mstatus) (cpu.csrs Names.csr_mideleg)
            (bit_and (cpu.csrs Names.csr_mip) (cpu.csrs Names.csr_mie)) cpu priority)
      | inr e ↦ rw e (inl refl)
    ]

-- The mode is the same, and of the control and status registers all but the two counters.
pub record Isolated (cpu cpu' : Cpu) : Type 0 where
  pub isolated_mode : cpu'.priviledge ≡ cpu.priviledge
  pub isolated_csrs :
      (csr : ℕ) → csr ≢ Names.csr_mcycle → csr ≢ Names.csr_minstret → cpu'.csrs csr ≡ cpu.csrs csr

increment_pc-Same :
    (cpu : Cpu) → Same cpu (increment_pc cpu) × ((increment_pc cpu).trap_taken ≡ cpu.trap_taken)
unfolding increment_pc
increment_pc-Same cpu =
    (record { same_csrs = ground arith; same_mode = ground arith }, ground arith)

-- The count of the instruction, unless it trapped.
abbrev counted : Cpu → Cpu
counted c = if not c.trap_taken then count Names.csr_minstret c else c

counted-Isolated :
    (cpu : Cpu) → Isolated cpu (counted cpu) × ((counted cpu).trap_taken ≡ cpu.trap_taken)
counted-Isolated cpu = elim (Bool-cases (cpu.trap_taken)) [
  | inl t ↦ rw t (record { isolated_mode = refl; isolated_csrs = λ csr h k. refl }, refl)
  | inr f ↦ rw f (
    record {
      isolated_mode = refl;
      isolated_csrs = λ csr h k. update_ne cpu.csrs Names.csr_minstret _ csr k;
    },
    refl,
  )
]

Isolated-trans : {a b c : Cpu} → Isolated a b → Isolated b c → Isolated a c
Isolated-trans s t = record {
  isolated_mode = t.isolated_mode ∙ s.isolated_mode;
  isolated_csrs = λ csr h k. t.isolated_csrs csr h k ∙ s.isolated_csrs csr h k;
}

Same-Isolated : {a b : Cpu} → Same a b → Isolated a b
Same-Isolated s = record {
  isolated_mode = s.same_mode;
  isolated_csrs = λ csr h k. ap (λ csrs. csrs csr) s.same_csrs;
}

settled :
    (c : Cpu)
    → (cpu_check_interrupts c).trap_taken ≡ false
    → (cpu_check_interrupts c ≡ c) × (c.trap_taken ≡ false)
settled c h = elim (cpu_check_interrupts-cases c) [
  | inl e ↦ (e, sym (ap (λ cpu. cpu.trap_taken) e) ∙ h)
  | inr e ↦ absurd (true≢false (sym e ∙ h))
]

cpu_finish-Isolated :
    (cpu : Cpu)
    → (cpu_finish cpu).trap_taken ≡ false
    → Isolated cpu (cpu_finish cpu) × (cpu.trap_taken ≡ false)
unfolding cpu_finish
cpu_finish-Isolated cpu h =
    let (same_pc, taken_pc) = increment_pc-Same cpu in
    let (isolated, taken) = counted-Isolated (increment_pc cpu) in
    let (e, none_taken) = settled (counted (increment_pc cpu)) h in
    let all = Isolated-trans (Same-Isolated same_pc) isolated in
    (
      record {
        isolated_mode = ap (λ c. c.priviledge) e ∙ all.isolated_mode;
        isolated_csrs = λ csr p q. ap (λ c. c.csrs csr) e ∙ all.isolated_csrs csr p q;
      },
      sym taken_pc ∙ (sym taken ∙ none_taken),
    )

no_trap : {a b : Cpu} → Confined a b → b.trap_taken ≡ false → Same a b
no_trap (keeps s) h = s
no_trap (traps {cpu' = c} cause tvalue s) h =
    absurd (true≢false (sym (raise_exception-trap_taken c cause tvalue) ∙ h))

module _ {S : Type 0} ⦃bus : Bus S⦄ where
  finish_step :
      {cpu : Cpu} (p : LoadResult × Machine S)
      → Accessed cpu p
      → cpu.priviledge ≡ u_mode
      → let after =
          (if not p.0.success
            then p.1
            else on_cpu cpu_finish (dispatch_instruction p.1 (u32 p.0.value))).cpu in
        after.trap_taken ≡ false → Isolated cpu after
  finish_step p (succeeded {value = value} {m = m} s) u h =
      let confined = dispatch_instruction-Confined m (u32 value) (s.same_mode ∙ u) in
      let (isolated, none_taken) = cpu_finish-Isolated (dispatch_instruction m (u32 value)).cpu h in
      Isolated-trans (Same-Isolated (Same-trans s (no_trap confined none_taken))) isolated
  finish_step p (faulted {m = m} c) u h = Same-Isolated (no_trap c h)

  -- A step in user mode that ends without a trap ends in user mode, and changes of the control and
  -- status registers none but the counters of cycles and instructions.
  pub cpu_step-Isolated :
      (m : Machine S)
      → m.cpu.priviledge ≡ u_mode
      → (cpu_step m).cpu.trap_taken ≡ false
      → Isolated m.cpu (cpu_step m).cpu
  unfolding cpu_step cpu_begin
  cpu_step-Isolated m u h =
      Isolated-trans
        (record {
          isolated_mode = refl;
          isolated_csrs = λ csr p q. update_ne m.cpu.csrs Names.csr_mcycle _ csr p;
        })
        (finish_step (cpu_fetch (cpu_begin m)) (cpu_fetch-Accessed (cpu_begin m)) u h)

  -- The machines that steps without a trap lead to.
  pub data Runs (m : Machine S) : Machine S → Type 0 where
    started : Runs m m
    stepped :
        {m' : Machine S} → Runs m m' → (cpu_step m').cpu.trap_taken ≡ false → Runs m (cpu_step m')

  -- After any number of steps from user mode of which none traps, the mode is user mode, and of the
  -- control and status registers only the counters of cycles and instructions may have changed.
  pub Runs-Isolated :
      {m m' : Machine S} → m.cpu.priviledge ≡ u_mode → Runs m m' → Isolated m.cpu m'.cpu
  Runs-Isolated u started = record { isolated_mode = refl; isolated_csrs = λ csr p q. refl }
  Runs-Isolated u (stepped {m' = m'} r h) =
      let before = Runs-Isolated u r in
      Isolated-trans before (cpu_step-Isolated m' (before.isolated_mode ∙ u) h)
