-- ===== src/Cpu/Registers.antt =====
-- The register file and the reservation of src/cpu/cpu.c.
use risc_v_virtual_machine.Common.{ℕ, ◌+◌, ◌^◌, ◌≤◌, ◌<◌, ◌≡◌, ◌↔◌, arith}
use risc_v_virtual_machine.Common.{
  Bool, true, if◌then◌else◌, ltb, leb, ◌==◌, ◌&&◌, not, Bool-cases, inl, inr,
}
use risc_v_virtual_machine.Cpu.{Cpu, cpu_read_reg, cpu_write_reg, cpu_invalidate_reservation}

-- The number of a register that a write changes: not `x0`, and one of the 32.
abbrev pub is_writable : ℕ → Bool
is_writable r = not (r == 0) && ltb r 32

-- A read after a write gives the value written if it is of the same writable register, and else
-- what it gave before.
pub cpu_read_reg-cpu_write_reg :
    (cpu : Cpu) (r value q : ℕ)
    → cpu_read_reg (cpu_write_reg cpu r value) q
      ≡ (if q == r && is_writable r then value else cpu_read_reg cpu q)
unfolding cpu_read_reg cpu_write_reg
cpu_read_reg-cpu_write_reg cpu r value q = elim (Bool-cases (r == 0)) [
  | inl zero_reg ↦ rw zero_reg (ground arith)
  | inr other ↦ rw other (elim (Bool-cases (leb 32 r)) [
    | inl out ↦ rw out (ground arith)
    | inr writable ↦ rw writable (ground arith)
  ])
]

-- Two ranges of addresses share one.
abbrev pub Shares : ℕ → ℕ → ℕ → ℕ → ℕ → Type 0
Shares a size b size' x = (a ≤ x) × (x < a + size) × (b ≤ x) × (x < b + size')

pub cpu_invalidate_reservation-Shares :
    (cpu : Cpu) (address size : ℕ)
    → 0 < size
    → 0 < cpu.reservation.size
    → address + size < 2 ^ 64
    → cpu.reservation.phys_addr + cpu.reservation.size < 2 ^ 64
    → ((cpu_invalidate_reservation cpu address size).reservation.valid ≡ true) ↔ (
        (cpu.reservation.valid ≡ true)
        × ((x : ℕ) → ¬ Shares address size cpu.reservation.phys_addr cpu.reservation.size x))
unfolding cpu_invalidate_reservation
cpu_invalidate_reservation-Shares cpu address size h h' k k' = (
  ground arith,
  λ p.
      let valid = p.0 in
      let apart = p.1 in ground (arith, valid, apart address, apart cpu.reservation.phys_addr),
)
