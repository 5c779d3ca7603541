-- ===== src/Cpu/Confined/System.antt =====
-- The system instructions in user mode: no CSR can be written, and every return from a trap is
-- illegal.
use risc_v_virtual_machine.Common.{
  ℕ, arith, ◌≡◌, ◌≢◌, ◌⊎◌, inl, inr, refl, ap, ◌∙◌, Bool, true, false, not, bit_and, bit_or, not64,
  Option, none, some, field, ◌==◌, if◌then◌else◌,
}
use risc_v_virtual_machine.Bus.{Bus}
use risc_v_virtual_machine.Cpu.{Cpu, Machine, u_mode, cpu_read_reg}
use risc_v_virtual_machine.Cpu.Csr.{csr_table, csr_can_write, csr_read, csr_write}
use risc_v_virtual_machine.Cpu.Csr.Table.{
  csr_load, mcsr_load_table, scsr_load_table, ucsr_load_table, time_read,
}
use risc_v_virtual_machine.Cpu.Decode.{IType}
use risc_v_virtual_machine.Cpu.Exec.System.{
  ecall, ebreak, sfence_vma, sret, mret, wfi, illegal, csr_finish, csrrw, csrrs, csrrc, csrrwi,
  csrrsi, csrrci, dispatch_system,
}
use risc_v_virtual_machine.Cpu.Confined.{Confined, Same-eq, Confined-after, stays, raises, writes}
use risc_v_virtual_machine.Cpu.Confined.Translation.{cpu-if}

-- No register of user mode that is not read-only is implemented.
not_implemented :
    (S : Type 0) ⦃bus : Bus S⦄ (address : ℕ)
    → field address 8 2 ≡ 0
    → field address 10 2 ≢ 3
    → (csr_table {S = S} address).implemented ≡ false
unfolding csr_table csr_load mcsr_load_table scsr_load_table ucsr_load_table
not_implemented S address h k = ground (arith, h, k)

unwritable :
    (address : ℕ)
    → (field address 8 2 ≡ 0) × (field address 10 2 ≢ 3) ⊎ (csr_can_write address u_mode ≡ false)
unfolding csr_can_write
unwritable address = ground arith

module _ {S : Type 0} ⦃bus : Bus S⦄ where
  -- In user mode every write to a control and status register is refused.
  pub csr_write-user :
      (m : Machine S) (address value : ℕ)
      → m.cpu.priviledge ≡ u_mode
      → csr_write m address value ≡ none
  unfolding csr_write
  csr_write-user m address value u = elim (unwritable address) [
    | inl (h, k) ↦ rw (not_implemented S address h k) (ground arith)
    | inr e ↦ rw (u, e) (ground arith)
  ]

  pub cpu-csr_read : (m : Machine S) (address : ℕ) → (csr_read m address).1.cpu ≡ m.cpu
  unfolding csr_read csr_table csr_load mcsr_load_table scsr_load_table ucsr_load_table time_read
  cpu-csr_read m address = ground arith

  csr_finish-Confined :
      (m : Machine S) (i : IType) (flag : Bool) (new old : ℕ)
      → m.cpu.priviledge ≡ u_mode
      → Confined m.cpu (csr_finish flag new old i m).cpu
  unfolding csr_finish
  csr_finish-Confined m i true new old u =
      rw (csr_write-user m (field i.raw 20 12) new u) (raises _ _ _)
  csr_finish-Confined m i false new old u = writes _ _ _

  read_then_finish :
      {cpu : Cpu} (p : Option ℕ × Machine S) (i : IType) (flag : Bool) (new : Machine S → ℕ → ℕ)
      → p.1.cpu ≡ cpu
      → cpu.priviledge ≡ u_mode
      → Confined cpu
          (elim (p.0) as (λ r. Machine S) [
            | none ↦ illegal i p.1
            | some old ↦ csr_finish flag (new p.1 old) old i p.1
          ]).cpu
  read_then_finish (none, m) i flag new e u = Confined-after (Same-eq e) (raises _ _ _)
  read_then_finish (some old, m) i flag new e u =
      Confined-after (Same-eq e)
        (csr_finish-Confined m i flag (new m old) old (ap (λ cpu. cpu.priviledge) e ∙ u))

  abbrev maybe_read : Machine S → IType → Option ℕ × Machine S
  maybe_read m i = if not (i.rd == 0) then csr_read m (field i.raw 20 12) else (some 0, m)

  cpu-maybe_read : (m : Machine S) (i : IType) → (maybe_read m i).1.cpu ≡ m.cpu
  cpu-maybe_read m i = cpu-if (not (i.rd == 0)) _ _ (cpu-csr_read m (field i.raw 20 12)) refl

  csrrw-Confined :
      (m : Machine S) (i : IType) → m.cpu.priviledge ≡ u_mode → Confined m.cpu (csrrw m i).cpu
  unfolding csrrw
  csrrw-Confined m i u =
      read_then_finish (maybe_read m i) i true (λ m' old. cpu_read_reg m.cpu i.rs1)
        (cpu-maybe_read m i) u

  csrrwi-Confined :
      (m : Machine S) (i : IType) → m.cpu.priviledge ≡ u_mode → Confined m.cpu (csrrwi m i).cpu
  unfolding csrrwi
  csrrwi-Confined m i u =
      read_then_finish (maybe_read m i) i true (λ m' old. i.rs1) (cpu-maybe_read m i) u

  csrrs-Confined :
      (m : Machine S) (i : IType) → m.cpu.priviledge ≡ u_mode → Confined m.cpu (csrrs m i).cpu
  unfolding csrrs
  csrrs-Confined m i u =
      read_then_finish (csr_read m (field i.raw 20 12)) i _
        (λ m' old. bit_or old (cpu_read_reg m'.cpu i.rs1)) (cpu-csr_read m (field i.raw 20 12)) u

  csrrc-Confined :
      (m : Machine S) (i : IType) → m.cpu.priviledge ≡ u_mode → Confined m.cpu (csrrc m i).cpu
  unfolding csrrc
  csrrc-Confined m i u =
      read_then_finish (csr_read m (field i.raw 20 12)) i _
        (λ m' old. bit_and old (not64 (cpu_read_reg m'.cpu i.rs1)))
        (cpu-csr_read m (field i.raw 20 12)) u

  csrrsi-Confined :
      (m : Machine S) (i : IType) → m.cpu.priviledge ≡ u_mode → Confined m.cpu (csrrsi m i).cpu
  unfolding csrrsi
  csrrsi-Confined m i u =
      read_then_finish (csr_read m (field i.raw 20 12)) i _ (λ m' old. bit_or old i.rs1)
        (cpu-csr_read m (field i.raw 20 12)) u

  csrrci-Confined :
      (m : Machine S) (i : IType) → m.cpu.priviledge ≡ u_mode → Confined m.cpu (csrrci m i).cpu
  unfolding csrrci
  csrrci-Confined m i u =
      read_then_finish (csr_read m (field i.raw 20 12)) i _ (λ m' old. bit_and old (not64 i.rs1))
        (cpu-csr_read m (field i.raw 20 12)) u

-- The instructions without an operand.
plain-Confined :
    (cpu : Cpu) (i : IType)
    → cpu.priviledge ≡ u_mode
    → Confined cpu (sfence_vma cpu i)
      × Confined cpu (ecall cpu i)
      × Confined cpu (ebreak cpu i)
      × Confined cpu (sret cpu i)
      × Confined cpu (mret cpu i)
      × Confined cpu (wfi cpu i)
unfolding sfence_vma ecall ebreak sret mret wfi
plain-Confined cpu i u = (
  rw u (raises _ _ _),
  raises _ _ _,
  raises _ _ _,
  rw u (raises _ _ _),
  rw u (raises _ _ _),
  stays,
)

module _ {S : Type 0} ⦃bus : Bus S⦄ where
  pub dispatch_system-Confined :
      (m : Machine S) (i : IType)
      → m.cpu.priviledge ≡ u_mode
      → Confined m.cpu (dispatch_system m i).cpu
  unfolding dispatch_system
  dispatch_system-Confined m i u =
      let (a, b, c, d, e, f) = plain-Confined m.cpu i u in
      grind (
        arith,
        raises,
        csrrw-Confined m i u,
        csrrs-Confined m i u,
        csrrc-Confined m i u,
        csrrwi-Confined m i u,
        csrrsi-Confined m i u,
        csrrci-Confined m i u,
      )
