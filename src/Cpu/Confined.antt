-- ===== src/Cpu/Confined.antt =====
-- What an instruction that is not a CSR instruction or a return from a trap does to the privileged
-- state of src/cpu: nothing, or an exception.
pub mod Registers
pub mod Translation
pub mod Accesses
pub mod Memory
pub mod Atomics
pub mod System
pub mod User
pub mod Step
use risc_v_virtual_machine.Common.{
  arith, ℕ, ◌≡◌, refl, ap, ◌∙◌, Bool, true, false, if◌then◌else◌, ◌==◌, leb,
}
use risc_v_virtual_machine.Cpu.{Cpu, Machine, cpu_write_reg, cpu_invalidate_reservation}
use risc_v_virtual_machine.Cpu.Trap.{raise_exception}

-- The control and status registers and the mode are the same.
pub record Same (cpu cpu' : Cpu) : Type 0 where
  pub same_csrs : cpu'.csrs ≡ cpu.csrs
  pub same_mode : cpu'.priviledge ≡ cpu.priviledge

-- A processor is confined if it keeps them, or takes an exception where they are the same.
pub data Confined (cpu : Cpu) : Cpu → Type 0 where
  keeps : {cpu' : Cpu} → Same cpu cpu' → Confined cpu cpu'
  traps :
      {cpu' : Cpu} (cause tvalue : ℕ)
      → Same cpu cpu'
      → Confined cpu (raise_exception cpu' cause tvalue)

abbrev pub same : {cpu : Cpu} → Same cpu cpu
same = record { same_csrs = refl; same_mode = refl }

pub Same-trans : {a b c : Cpu} → Same a b → Same b c → Same a c
Same-trans s t = record {
  same_csrs = t.same_csrs ∙ s.same_csrs;
  same_mode = t.same_mode ∙ s.same_mode;
}

pub Same-eq : {a b : Cpu} → b ≡ a → Same a b
Same-eq e = record { same_csrs = ap (λ cpu. cpu.csrs) e; same_mode = ap (λ cpu. cpu.priviledge) e }

pub Confined-after : {a b c : Cpu} → Same a b → Confined b c → Confined a c
Confined-after s (keeps t) = keeps (Same-trans s t)
Confined-after s (traps cause tvalue t) = traps cause tvalue (Same-trans s t)

pub Confined-if :
    (test : Bool) {a b c : Cpu} → Confined a b → Confined a c → Confined a (if test then b else c)
Confined-if true h k = h
Confined-if false h k = k

pub Same-if : (test : Bool) {a b c : Cpu} → Same a b → Same a c → Same a (if test then b else c)
Same-if true h k = h
Same-if false h k = k

abbrev pub stays : {cpu : Cpu} → Confined cpu cpu
stays = keeps same

abbrev pub raises : (cpu : Cpu) (cause tvalue : ℕ) → Confined cpu (raise_exception cpu cause tvalue)
raises cpu cause tvalue = traps cause tvalue same

pub cpu_write_reg-Same : (cpu : Cpu) (r value : ℕ) → Same cpu (cpu_write_reg cpu r value)
unfolding cpu_write_reg
cpu_write_reg-Same cpu r value = record { same_csrs = ground arith; same_mode = ground arith }

pub cpu_invalidate_reservation-Same :
    (cpu : Cpu) (addr n : ℕ) → Same cpu (cpu_invalidate_reservation cpu addr n)
unfolding cpu_invalidate_reservation
cpu_invalidate_reservation-Same cpu addr n = record {
  same_csrs = ground arith;
  same_mode = ground arith;
}

abbrev pub writes : (cpu : Cpu) (r value : ℕ) → Confined cpu (cpu_write_reg cpu r value)
writes cpu r value = keeps (cpu_write_reg-Same cpu r value)

pub jumps : (cpu : Cpu) (pc : ℕ) → Confined cpu (record cpu { pc = pc; pc_written = true })
jumps cpu pc = keeps (record { same_csrs = refl; same_mode = refl })

-- The jumps that leave the address of the next instruction in a register.
pub links :
    (cpu : Cpu) (pc r value : ℕ)
    → Confined cpu (cpu_write_reg (record cpu { pc = pc; pc_written = true }) r value)
links cpu pc r value =
    let jumped = record cpu { pc = pc; pc_written = true } in
    keeps (
      Same-trans (record { same_csrs = refl; same_mode = refl })
        (cpu_write_reg-Same jumped r value))

pub links_then_jumps :
    (cpu : Cpu) (pc r value : ℕ)
    → Confined cpu
        (let linked = cpu_write_reg cpu r value in record linked { pc = pc; pc_written = true })
links_then_jumps cpu pc r value =
    let linked = cpu_write_reg-Same cpu r value in
    keeps (record { same_csrs = linked.same_csrs; same_mode = linked.same_mode })
