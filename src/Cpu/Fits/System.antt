-- ===== src/Cpu/Fits/System.antt =====
-- The instructions on control and status registers, of system.c in the dispatchers.
use risc_v_virtual_machine.Common.{
  ℕ, arith, ◌==◌, ◌<◌, ◌^◌, ◌≡◌, refl, Bool, true, false, not, if◌then◌else◌, Option, none, some,
  field, bit_or, bit_and, not64,
}
use risc_v_virtual_machine.Bits.{bit_or-lt, bit_and-lt}
use risc_v_virtual_machine.Bus.{Bus}
use risc_v_virtual_machine.Cpu.{Machine, on_cpu, cpu_read_reg, cpu_write_reg}
use risc_v_virtual_machine.Cpu.Csr.{csr_read, csr_write}
use risc_v_virtual_machine.Cpu.Csr.Handlers.{}
use risc_v_virtual_machine.Cpu.Csr.Table.{}
use risc_v_virtual_machine.Cpu.Decode.{IType}
use risc_v_virtual_machine.Cpu.Trap.{exc_illegal_instruction}
use risc_v_virtual_machine.Cpu.Exec.System.{
  illegal, csr_finish, csrrw, csrrs, csrrc, csrrwi, csrrsi, csrrci,
}
use risc_v_virtual_machine.Cpu.Fits.{cpu_read_reg-lt, cpu_write_reg-Fits}
use risc_v_virtual_machine.Cpu.Fits.Memory.{Sound, Valid}
use risc_v_virtual_machine.Cpu.Fits.LoadStore.{raises-Valid}
use risc_v_virtual_machine.Cpu.Fits.Csr.{Reads, csr_read-Reads, csr_write-Valid}

module _ {S : Type 0} ⦃bus : Bus S⦄ {I : S → Type 0} (sound : Sound I) where
  write_rd-Valid :
      (m : Machine S) (r value : ℕ)
      → Valid I m
      → value < 2 ^ 64
      → Valid I (on_cpu (λ cpu. cpu_write_reg cpu r value) m)
  write_rd-Valid m r value v h = record {
    fits = cpu_write_reg-Fits m.cpu r value v.fits h;
    devices = v.devices;
  }

  after_write :
      (p : Option (Machine S)) (m : Machine S) (i : IType) (old : ℕ)
      → Valid I m
      → i.raw < 2 ^ 64
      → old < 2 ^ 64
      → ((m' : Machine S) → p ≡ some m' → Valid I m')
      → Valid I (elim p as (λ r. Machine S) [
        | none ↦ illegal i m
        | some m' ↦ on_cpu (λ cpu. cpu_write_reg cpu i.rd old) m'
      ])
  after_write none m i old v h k w =
      raises-Valid sound m exc_illegal_instruction i.raw v (omega arith) h
  after_write (some m') m i old v h k w = write_rd-Valid m' i.rd old (w m' refl) k

  csr_finish-Valid :
      (flag : Bool) (new old : ℕ) (i : IType) (m : Machine S)
      → Valid I m
      → i.raw < 2 ^ 64
      → new < 2 ^ 64
      → old < 2 ^ 64
      → Valid I (csr_finish flag new old i m)
  unfolding csr_finish
  csr_finish-Valid true new old i m v h k l =
      after_write (csr_write m (field i.raw 20 12) new) m i old v h l
        (λ m' e. csr_write-Valid sound m m' (field i.raw 20 12) new v k e)
  csr_finish-Valid false new old i m v h k l = write_rd-Valid m i.rd old v l

  read_then_finish :
      (p : Option ℕ × Machine S) (i : IType) (flag : Bool) (new : Machine S → ℕ → ℕ)
      → Reads I p
      → i.raw < 2 ^ 64
      → ((m' : Machine S) (old : ℕ) → Valid I m' → old < 2 ^ 64 → new m' old < 2 ^ 64)
      → Valid I (elim (p.0) as (λ r. Machine S) [
        | none ↦ illegal i p.1
        | some old ↦ csr_finish flag (new p.1 old) old i p.1
      ])
  read_then_finish (none, m) i flag new r h n =
      raises-Valid sound m exc_illegal_instruction i.raw r.machine_ok (omega arith) h
  read_then_finish (some old, m) i flag new r h n =
      let old_lt = r.value_lt old refl in
      csr_finish-Valid flag (new m old) old i m r.machine_ok h (n m old r.machine_ok old_lt) old_lt

  maybe_read-Reads :
      (test : Bool) (m : Machine S) (address : ℕ)
      → Valid I m
      → Reads I (if test then csr_read m address else (some 0, m))
  maybe_read-Reads true m address v = csr_read-Reads sound m address v
  maybe_read-Reads false m address v = record {
    value_lt = λ value e. ground (arith, e);
    machine_ok = v;
  }

  pub csrrw-Valid :
      (m : Machine S) (i : IType)
      → Valid I m
      → i.raw < 2 ^ 64
      → i.rs1 < 2 ^ 64
      → Valid I (csrrw m i)
  unfolding csrrw
  csrrw-Valid m i v h u =
      read_then_finish (if not (i.rd == 0) then csr_read m (field i.raw 20 12) else (some 0, m)) i
        true (λ m' old. cpu_read_reg m.cpu i.rs1)
        (maybe_read-Reads (not (i.rd == 0)) m (field i.raw 20 12) v) h
        (λ m' old w k. cpu_read_reg-lt m.cpu i.rs1 v.fits)

  pub csrrwi-Valid :
      (m : Machine S) (i : IType)
      → Valid I m
      → i.raw < 2 ^ 64
      → i.rs1 < 2 ^ 64
      → Valid I (csrrwi m i)
  unfolding csrrwi
  csrrwi-Valid m i v h u =
      read_then_finish (if not (i.rd == 0) then csr_read m (field i.raw 20 12) else (some 0, m)) i
        true (λ m' old. i.rs1) (maybe_read-Reads (not (i.rd == 0)) m (field i.raw 20 12) v) h
        (λ m' old w k. u)

  pub csrrs-Valid :
      (m : Machine S) (i : IType)
      → Valid I m
      → i.raw < 2 ^ 64
      → i.rs1 < 2 ^ 64
      → Valid I (csrrs m i)
  unfolding csrrs
  csrrs-Valid m i v h u =
      read_then_finish (csr_read m (field i.raw 20 12)) i (not (i.rs1 == 0))
        (λ m' old. bit_or old (cpu_read_reg m'.cpu i.rs1))
        (csr_read-Reads sound m (field i.raw 20 12) v) h
        (λ m' old w k. bit_or-lt 64 old _ k (cpu_read_reg-lt m'.cpu i.rs1 w.fits))

  pub csrrc-Valid :
      (m : Machine S) (i : IType)
      → Valid I m
      → i.raw < 2 ^ 64
      → i.rs1 < 2 ^ 64
      → Valid I (csrrc m i)
  unfolding csrrc
  csrrc-Valid m i v h u =
      read_then_finish (csr_read m (field i.raw 20 12)) i (not (i.rs1 == 0))
        (λ m' old. bit_and old (not64 (cpu_read_reg m'.cpu i.rs1)))
        (csr_read-Reads sound m (field i.raw 20 12) v) h (λ m' old w k. bit_and-lt 64 old _ k)

  pub csrrsi-Valid :
      (m : Machine S) (i : IType)
      → Valid I m
      → i.raw < 2 ^ 64
      → i.rs1 < 2 ^ 64
      → Valid I (csrrsi m i)
  unfolding csrrsi
  csrrsi-Valid m i v h u =
      read_then_finish (csr_read m (field i.raw 20 12)) i (not (i.rs1 == 0))
        (λ m' old. bit_or old i.rs1) (csr_read-Reads sound m (field i.raw 20 12) v) h
        (λ m' old w k. bit_or-lt 64 old _ k u)

  pub csrrci-Valid :
      (m : Machine S) (i : IType)
      → Valid I m
      → i.raw < 2 ^ 64
      → i.rs1 < 2 ^ 64
      → Valid I (csrrci m i)
  unfolding csrrci
  csrrci-Valid m i v h u =
      read_then_finish (csr_read m (field i.raw 20 12)) i (not (i.rs1 == 0))
        (λ m' old. bit_and old (not64 i.rs1)) (csr_read-Reads sound m (field i.raw 20 12) v) h
        (λ m' old w k. bit_and-lt 64 old _ k)
