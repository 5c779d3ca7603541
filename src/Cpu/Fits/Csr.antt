-- ===== src/Cpu/Fits/Csr.antt =====
-- Reads and writes of the control and status registers, of src/cpu/csrs.
use risc_v_virtual_machine.Common.{
  ℕ, arith, ◌+◌, ◌*◌, ◌==◌, ◌<◌, ◌^◌, ◌⊎◌, ◌≡◌, sym, false, not, leb, Bool-cases, ==_iff, ◌≢◌, inl,
  inr, Option, some, bit_and, not64,
}
use mathlib.Core.Path.{subst}
use risc_v_virtual_machine.Bits.{bit_or-lt, bit_and-lt}
use risc_v_virtual_machine.Bus.{Bus}
use risc_v_virtual_machine.Cpu.{Cpu, Machine}
use risc_v_virtual_machine.Cpu.Csr.Names
use risc_v_virtual_machine.Cpu.Csr.{csr_table, csr_read, csr_write}
use risc_v_virtual_machine.Cpu.Csr.Frame.{holder, written, written-Changes, guarded}
use risc_v_virtual_machine.Cpu.Csr.Handlers.{
  masked, sstatus_read, sepc_read, sie_read, sip_read, cycle_read, instret_read, misa_write,
  mtvec_write, sstatus_write, stvec_write, sie_write, sip_write, sstatus_write_mask,
  supervisor_interrupt_mask,
}
use risc_v_virtual_machine.Cpu.Csr.Table.{
  csr_load, mcsr_load_table, scsr_load_table, ucsr_load_table, time_read,
}
use risc_v_virtual_machine.Cpu.Exec.System.{}
use risc_v_virtual_machine.Cpu.Confined.System.{cpu-csr_read}
use risc_v_virtual_machine.Cpu.Csr.{csr_can_write}
use risc_v_virtual_machine.Cpu.Fits.{Fits}
use risc_v_virtual_machine.Cpu.Fits.Memory.{Sound, Valid}

masked-lt : (old mask value : ℕ) → old < 2 ^ 64 → value < 2 ^ 64 → masked old mask value < 2 ^ 64
unfolding masked
masked-lt old mask value h k = bit_or-lt 64 _ _ (bit_and-lt 64 old _ h) (bit_and-lt 64 value mask k)

module _ (S : Type 0) ⦃bus : Bus S⦄ where
  held-lt :
      (cpu : Cpu) (address value : ℕ)
      → Fits cpu
      → value < 2 ^ 64
      → (written S cpu address value).csrs (holder address) < 2 ^ 64
  unfolding csr_table csr_load mcsr_load_table scsr_load_table ucsr_load_table misa_write
      mtvec_write sstatus_write stvec_write sie_write sip_write
  held-lt cpu address value f h = ground (
    arith,
    f.csrs_lt address,
    f.csrs_lt Names.csr_misa,
    bit_and-lt 64 value (not64 0x3) h,
    masked-lt (cpu.csrs address) (csr_table {S = S} address).write_mask value (f.csrs_lt address) h,
    masked-lt (cpu.csrs Names.csr_mstatus) sstatus_write_mask value (f.csrs_lt Names.csr_mstatus) h,
    masked-lt (cpu.csrs Names.csr_mie)
        (bit_and supervisor_interrupt_mask (cpu.csrs Names.csr_mideleg)) value
        (f.csrs_lt Names.csr_mie) h,
    masked-lt (cpu.csrs Names.csr_mip)
        (bit_and supervisor_interrupt_mask (cpu.csrs Names.csr_mideleg)) value
        (f.csrs_lt Names.csr_mip) h,
  )

  written-Fits :
      (cpu : Cpu) (address value : ℕ)
      → Fits cpu
      → value < 2 ^ 64
      → Fits (written S cpu address value)
  written-Fits cpu address value f h =
      let c = written-Changes S cpu address value in
      record {
        regs_lt = λ r. subst (λ (regs : ℕ → ℕ). regs r < 2 ^ 64) (sym c.regs_same) (f.regs_lt r);
        csrs_lt = λ csr. elim (Bool-cases (csr == holder address)) [
          | inl e ↦
              subst (λ j. (written S cpu address value).csrs j < 2 ^ 64)
                (sym ((==_iff csr (holder address)).0 e)) (held-lt cpu address value f h)
          | inr n ↦
              subst (λ x. x < 2 ^ 64) (sym (c.other_csrs csr (differs csr (holder address) n)))
                (f.csrs_lt csr)
        ];
        pc_lt = subst (λ x. x < 2 ^ 64) (sym c.pc_same) f.pc_lt;
      }
    where
      differs : (a b : ℕ) → (a == b) ≡ false → a ≢ b
      differs a b h = ground (arith, h)

-- The outcome of a read: a word of 64 bits, if there is one, and a valid machine.
pub record Reads {S : Type 0} (I : S → Type 0) (p : Option ℕ × Machine S) : Type 0 where
  pub value_lt : (value : ℕ) → p.0 ≡ some value → value < 2 ^ 64
  pub machine_ok : Valid I p.1

module _ {S : Type 0} ⦃bus : Bus S⦄ {I : S → Type 0} (sound : Sound I) where
  ctx-csr_read :
      (m : Machine S) (address : ℕ)
      → ((csr_read m address).1.ctx ≡ m.ctx)
        ⊎ ((csr_read m address).1.ctx ≡ (bus.read64 m.ctx (0x02000000 + 0xBFF8)).1)
  unfolding csr_read csr_table csr_load mcsr_load_table scsr_load_table ucsr_load_table time_read
  ctx-csr_read m address = ground arith

  pub csr_read-Reads : (m : Machine S) (address : ℕ) → Valid I m → Reads I (csr_read m address)
  unfolding csr_read csr_table csr_load mcsr_load_table scsr_load_table ucsr_load_table time_read
      sstatus_read sepc_read sie_read sip_read cycle_read instret_read
  csr_read-Reads m address v = record {
    value_lt = λ value e. ground (
      arith,
      e,
      v.fits.csrs_lt address,
      v.fits.csrs_lt Names.csr_mcycle,
      v.fits.csrs_lt Names.csr_minstret,
      bit_or-lt 64 (bit_and (m.cpu.csrs Names.csr_mstatus) sstatus_write_mask) (2 * 2 ^ 32)
          (bit_and-lt 64 (m.cpu.csrs Names.csr_mstatus) sstatus_write_mask
            (v.fits.csrs_lt Names.csr_mstatus))
          (omega arith),
      bit_and-lt 64 (m.cpu.csrs Names.csr_sepc) (not64 0x3) (v.fits.csrs_lt Names.csr_sepc),
      bit_and-lt 64 (bit_and (m.cpu.csrs Names.csr_mie) (m.cpu.csrs Names.csr_mideleg))
          supervisor_interrupt_mask
          (bit_and-lt 64 (m.cpu.csrs Names.csr_mie) (m.cpu.csrs Names.csr_mideleg)
            (v.fits.csrs_lt Names.csr_mie)),
      bit_and-lt 64 (bit_and (m.cpu.csrs Names.csr_mip) (m.cpu.csrs Names.csr_mideleg))
          supervisor_interrupt_mask
          (bit_and-lt 64 (m.cpu.csrs Names.csr_mip) (m.cpu.csrs Names.csr_mideleg)
            (v.fits.csrs_lt Names.csr_mip)),
      sound.read64_lt m.ctx (0x02000000 + 0xBFF8) v.devices,
    );
    machine_ok = record {
      fits = subst (λ cpu. Fits cpu) (sym (cpu-csr_read m address)) v.fits;
      devices = elim (ctx-csr_read m address) [
        | inl e ↦ subst I (sym e) v.devices
        | inr e ↦ subst I (sym e) (sound.read64_keeps m.ctx (0x02000000 + 0xBFF8) v.devices)
      ];
    };
  }

  pub csr_write-Valid :
      (m m' : Machine S) (address value : ℕ)
      → Valid I m
      → value < 2 ^ 64
      → csr_write m address value ≡ some m'
      → Valid I m'
  unfolding csr_write
  csr_write-Valid m m' address value v h e =
      let (can, eq) =
        guarded (leb 4096 address) (not (csr_table {S = S} address).implemented)
          (not (csr_can_write address m.cpu.priviledge))
          (record m { cpu = written S m.cpu address value }) m' e in
      subst (λ (after : Machine S). Valid I after) eq
        (record { fits = written-Fits S m.cpu address value v.fits h; devices = v.devices })
