-- ===== src/Cpu/Csr.antt =====
-- The control and status registers: src/cpu/csrs and include/cpu/csrs. `csr_table` is the table
-- that `csr_load` leaves; `cpu_init` runs it before any instruction.
pub mod Names
pub mod Handlers
pub mod Table
pub mod BitLaws
pub mod Access
pub mod Frame
use risc_v_virtual_machine.Common.{ℕ, ◌+◌, ◌-◌, ◌*◌, ◌/◌, ◌%◌, ◌^◌, Bool, true, false, ◌&&◌, ◌||◌}
use risc_v_virtual_machine.Common.{not, Option, none, some, ltb, leb, ◌==◌, if◌then◌else◌, is_set}
use risc_v_virtual_machine.Common.{bit_and, bit_or, not64, field}
use risc_v_virtual_machine.Bus.{Bus}
use risc_v_virtual_machine.Cpu.{Cpu, Machine, u_mode, s_mode, m_mode, set_csr}
use Names.{csr_mcounteren, csr_scounteren, csr_cycle, csr_time, csr_instret}
use Handlers.{masked, mcsr_reset, scsr_reset, ucsr_reset}
use Table.{CsrDescriptor, csr_load}

abbrev pub csr_read_only : ℕ
csr_read_only = 3

unfoldable pub csr_can_write : ℕ → ℕ → Bool
csr_can_write address priviledge =
    if field address 10 2 == csr_read_only
    then false
    else if ltb priviledge (field address 8 2)
    then false
    else true

-- The bit of `mcounteren` and `scounteren` for a counter.
abbrev pub counter_bit : ℕ → ℕ
counter_bit address = if address == csr_cycle then 0 else if address == csr_time then 1 else 2

unfoldable pub csr_can_read : Cpu → ℕ → ℕ → Bool
csr_can_read cpu address priviledge =
    let bit = counter_bit address in
    let mcounteren_bit = is_set (bit_and (cpu.csrs csr_mcounteren) (2 ^ bit)) in
    let scounteren_bit = is_set (bit_and (cpu.csrs csr_scounteren) (2 ^ bit)) in
    if ltb priviledge (field address 8 2)
    then false
    else if address == csr_cycle || address == csr_time || address == csr_instret
    then (if cpu.priviledge == s_mode && not mcounteren_bit
        then false
        else if cpu.priviledge == u_mode && (not mcounteren_bit || not scounteren_bit)
        then false
        else true)
    else true

unfoldable pub csr_reset : Cpu → Cpu
unfolding mcsr_reset scsr_reset ucsr_reset
csr_reset cpu = ucsr_reset (scsr_reset (mcsr_reset cpu))

module _ {S : Type 0} ⦃bus : Bus S⦄ where
  unfoldable pub csr_table : ℕ → CsrDescriptor S
  unfolding csr_load
  csr_table = csr_load

  -- `none` is CSR_ILLEGAL.
  unfoldable pub csr_read : Machine S → ℕ → Option ℕ × Machine S
  csr_read m address =
      let csr : CsrDescriptor S = csr_table address in
      let value : ℕ × Machine S = elim (csr.read) [
        | none ↦ (m.cpu.csrs address, m)
        | some read ↦ read m
      ] in
      if leb 4096 address
      then (none, m)
      else if not csr.implemented
      then (none, m)
      else if not (csr_can_read m.cpu address m.cpu.priviledge)
      then (none, m)
      else (some value.0, value.1)

  -- `none` is CSR_ILLEGAL, which leaves the processor as it was.
  unfoldable pub csr_write : Machine S → ℕ → ℕ → Option (Machine S)
  csr_write m address value =
      let csr : CsrDescriptor S = csr_table address in
      let written : Cpu = elim (csr.write) [
        | none ↦ set_csr m.cpu address (masked (m.cpu.csrs address) csr.write_mask value)
        | some write ↦ write m.cpu value
      ] in
      if leb 4096 address
      then none
      else if not csr.implemented
      then none
      else if not (csr_can_write address m.cpu.priviledge)
      then none
      else some (record m { cpu = written })
