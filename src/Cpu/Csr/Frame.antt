-- ===== src/Cpu/Csr/Frame.antt =====
-- What a write to a control and status register changes: `csr_write` of src/cpu/csrs/csr.c.
use risc_v_virtual_machine.Common.{
  ℕ, arith, ◌≡◌, ◌≢◌, ◌≤◌, sym, ap, Bool, false, not, none, some, field, ◌==◌, if◌then◌else◌, leb,
}
use mathlib.Core.Path.{subst}
use risc_v_virtual_machine.Bus.{Bus}
use risc_v_virtual_machine.Cpu.{Cpu, Machine, set_csr}
use risc_v_virtual_machine.Cpu.Csr.Names
use risc_v_virtual_machine.Cpu.Csr.Handlers.{
  masked, misa_write, mtvec_write, sstatus_write, stvec_write, sie_write, sip_write,
}
use risc_v_virtual_machine.Cpu.Csr.{csr_table, csr_can_write, csr_write, csr_read_only}
use risc_v_virtual_machine.Cpu.Csr.Table.{
  csr_load, mcsr_load_table, scsr_load_table, ucsr_load_table,
}

-- The register that holds what is written at an address: those of supervisor mode that are views
-- of registers of machine mode are held there.
abbrev pub holder : ℕ → ℕ
holder address =
    if address == Names.csr_sstatus
    then Names.csr_mstatus
    else if address == Names.csr_sie
    then Names.csr_mie
    else if address == Names.csr_sip
    then Names.csr_mip
    else address

-- The processor after the write, whether it is allowed or not.
abbrev pub written : (S : Type 0) ⦃bus : Bus S⦄ → Cpu → ℕ → ℕ → Cpu
written S cpu address value = elim ((csr_table {S = S} address).write) as (λ w. Cpu) [
  | none ↦
      set_csr cpu address (masked (cpu.csrs address) (csr_table {S = S} address).write_mask value)
  | some write ↦ write cpu value
]

-- All but one control and status register is the same.
pub record Changes (csr : ℕ) (cpu cpu' : Cpu) : Type 0 where
  pub other_csrs : (other : ℕ) → other ≢ csr → cpu'.csrs other ≡ cpu.csrs other
  pub regs_same : cpu'.regs ≡ cpu.regs
  pub pc_same : cpu'.pc ≡ cpu.pc
  pub mode_same : cpu'.priviledge ≡ cpu.priviledge

pub written-Changes :
    (S : Type 0) ⦃bus : Bus S⦄ (cpu : Cpu) (address value : ℕ)
    → Changes (holder address) cpu (written S cpu address value)
unfolding csr_table csr_load mcsr_load_table scsr_load_table ucsr_load_table misa_write mtvec_write
    sstatus_write stvec_write sie_write sip_write
written-Changes S cpu address value = record {
  other_csrs = λ other h. ground (arith, h);
  regs_same = ground arith;
  pc_same = ground arith;
  mode_same = ground arith;
}

pub guarded :
    {A : Type 0} (a b c : Bool) (x y : A)
    → (if a then none else if b then none else if c then none else some x) ≡ some y
    → (c ≡ false) × (x ≡ y)
guarded a b c x y h = ground (arith, h)

allowed :
    (address mode : ℕ)
    → not (csr_can_write address mode) ≡ false
    → (field address 8 2 ≤ mode) × (field address 10 2 ≢ csr_read_only)
unfolding csr_can_write
allowed address mode h = ground (arith, h)

module _ {S : Type 0} ⦃bus : Bus S⦄ where
  -- A write that is not refused is to a register of the current mode or below it that is not
  -- read-only. It changes of the control and status registers none but the one that holds the
  -- register, and leaves the other registers, the program counter, the mode and the devices as
  -- they are.
  pub csr_write-Changes :
      (m m' : Machine S) (address value : ℕ)
      → csr_write m address value ≡ some m'
      → Changes (holder address) m.cpu m'.cpu
        × (m'.ctx ≡ m.ctx)
        × (field address 8 2 ≤ m.cpu.priviledge)
        × (field address 10 2 ≢ csr_read_only)
  unfolding csr_write
  csr_write-Changes m m' address value h =
      let (can, e) =
        guarded (leb 4096 address) (not (csr_table {S = S} address).implemented)
          (not (csr_can_write address m.cpu.priviledge))
          (record m { cpu = written S m.cpu address value }) m' h in
      (
        subst (λ (after : Machine S). Changes (holder address) m.cpu after.cpu) e
            (written-Changes S m.cpu address value),
        sym (ap (λ (after : Machine S). after.ctx) e),
        (allowed address m.cpu.priviledge can).0,
        (allowed address m.cpu.priviledge can).1,
      )
