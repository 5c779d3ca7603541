-- ===== src/Cpu/Fits.antt =====
-- The widths of the words of the processor of src/cpu/cpu.c.
pub mod Values
pub mod Traps
pub mod Registers
pub mod Products
pub mod Immediates
pub mod Memory
pub mod Accesses
pub mod LoadStore
pub mod Atomics
pub mod Csr
pub mod System
pub mod Returns
pub mod Step
use risc_v_virtual_machine.Common.{
  ℕ, arith, ◌≡◌, ◌<◌, ◌^◌, ◌%◌, refl, Bool, true, false, if◌then◌else◌, ◌==◌, leb, update,
}
use risc_v_virtual_machine.Cpu.{
  Cpu, cpu_read_reg, cpu_write_reg, set_csr, cpu_invalidate_reservation,
}

pub record Fits (cpu : Cpu) : Type 0 where
  pub regs_lt : (r : ℕ) → cpu.regs r < 2 ^ 64
  pub csrs_lt : (csr : ℕ) → cpu.csrs csr < 2 ^ 64
  pub pc_lt : cpu.pc < 2 ^ 64

pub cpu_read_reg-lt : (cpu : Cpu) (r : ℕ) → Fits cpu → cpu_read_reg cpu r < 2 ^ 64
unfolding cpu_read_reg
cpu_read_reg-lt cpu r f = ground (arith, f.regs_lt r)

pub cpu_write_reg-Fits :
    (cpu : Cpu) (r value : ℕ) → Fits cpu → value < 2 ^ 64 → Fits (cpu_write_reg cpu r value)
unfolding cpu_write_reg
cpu_write_reg-Fits cpu r value f h = record {
  regs_lt = λ j. ground (arith, h, f.regs_lt j);
  csrs_lt = λ j. ground (arith, f.csrs_lt j);
  pc_lt = ground (arith, f.pc_lt);
}

pub Fits-if : (test : Bool) (a b : Cpu) → Fits a → Fits b → Fits (if test then a else b)
Fits-if true a b f g = f
Fits-if false a b f g = g

pub set_csr-Fits :
    (cpu : Cpu) (csr value : ℕ) → Fits cpu → value < 2 ^ 64 → Fits (set_csr cpu csr value)
set_csr-Fits cpu csr value f h = record {
  regs_lt = f.regs_lt;
  csrs_lt = λ j. ground (arith, h, f.csrs_lt j);
  pc_lt = f.pc_lt;
}

pub set_pc-Fits :
    (cpu : Cpu) (pc : ℕ) → Fits cpu → pc < 2 ^ 64 → Fits (record cpu { pc = pc; pc_written = true })
set_pc-Fits cpu pc f h = record { regs_lt = f.regs_lt; csrs_lt = f.csrs_lt; pc_lt = h }

pub cpu_invalidate_reservation-Fits :
    (cpu : Cpu) (addr n : ℕ) → Fits cpu → Fits (cpu_invalidate_reservation cpu addr n)
unfolding cpu_invalidate_reservation
cpu_invalidate_reservation-Fits cpu addr n f = record {
  regs_lt = λ r. ground (arith, f.regs_lt r);
  csrs_lt = λ csr. ground (arith, f.csrs_lt csr);
  pc_lt = ground (arith, f.pc_lt);
}
