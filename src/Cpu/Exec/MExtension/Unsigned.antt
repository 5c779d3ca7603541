-- ===== src/Cpu/Exec/MExtension/Unsigned.antt =====
-- Unsigned products, quotients and remainders of
-- src/cpu/instructions/dispatchers/m_extension.c.
use native.Mathlib.Nat.{div-add-mod}
use risc_v_virtual_machine.Common.{
  ℕ, ◌+◌, ◌-◌, ◌*◌, ◌/◌, ◌%◌, ◌^◌, ◌<◌, ◌≡◌, refl, arith, true, false, ◌==◌, ◌>>>◌, u64,
  zero_or_pos, inl, inr, ◌⊎◌,
}
use risc_v_virtual_machine.Cpu.{Cpu, cpu_read_reg, cpu_write_reg}
use risc_v_virtual_machine.Cpu.Registers.{cpu_read_reg-cpu_write_reg, is_writable}
use risc_v_virtual_machine.Cpu.Decode.{RType}
use risc_v_virtual_machine.Cpu.Exec.MExtension.{mul, mulhu, divu, remu}

written :
    (cpu : Cpu) (r value : ℕ)
    → is_writable r ≡ true
    → cpu_read_reg (cpu_write_reg cpu r value) r ≡ value
written cpu r value h = rw (cpu_read_reg-cpu_write_reg cpu r value r) (ground (arith, h))

split : (p : ℕ) → (p >>> 64) * 2 ^ 64 + u64 p ≡ p
split p = omega arith

not_zero : (b : ℕ) → 0 < b → (b == 0) ≡ false
not_zero b h = ground arith

euclid : (a b : ℕ) → 0 < b → (b * (a / b) + a % b ≡ a) × (a % b < b)
euclid a b h = (div-add-mod a b, grind arith)

-- `mulhu` and `mul` give the high and the low word of the product.
pub mulhu-mul :
    (cpu : Cpu) (instruction : RType)
    → is_writable instruction.rd ≡ true
    → cpu_read_reg (mulhu cpu instruction) instruction.rd * 2 ^ 64
        + cpu_read_reg (mul cpu instruction) instruction.rd
      ≡ cpu_read_reg cpu instruction.rs1 * cpu_read_reg cpu instruction.rs2
unfolding mulhu mul
mulhu-mul cpu instruction h =
    rw (written cpu instruction.rd _ h, written cpu instruction.rd _ h)
      (split (cpu_read_reg cpu instruction.rs1 * cpu_read_reg cpu instruction.rs2))

-- `divu` and `remu` give the quotient and the remainder; by zero, they give the word of ones and
-- the dividend.
pub divu-remu :
    (cpu : Cpu) (instruction : RType)
    → is_writable instruction.rd ≡ true
    → let a = cpu_read_reg cpu instruction.rs1 in
      let b = cpu_read_reg cpu instruction.rs2 in
      let q = cpu_read_reg (divu cpu instruction) instruction.rd in
      let r = cpu_read_reg (remu cpu instruction) instruction.rd in
      ((b ≡ 0) × (q ≡ 2 ^ 64 - 1) × (r ≡ a)) ⊎ ((b * q + r ≡ a) × (r < b))
unfolding divu remu
divu-remu cpu instruction h =
    rw (written cpu instruction.rd _ h, written cpu instruction.rd _ h)
      (elim (zero_or_pos (cpu_read_reg cpu instruction.rs2)) [
        | inl none ↦ rw none (inl (refl, refl, refl))
        | inr more ↦ rw (not_zero (cpu_read_reg cpu instruction.rs2) more) (
            inr (euclid (cpu_read_reg cpu instruction.rs1) (cpu_read_reg cpu instruction.rs2) more))
      ])
