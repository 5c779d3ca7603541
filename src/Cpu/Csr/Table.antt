-- ===== src/Cpu/Csr/Table.antt =====
-- The descriptors of the registers and the functions that load them: mcsr.c, scsr.c, ucsr.c and
-- csr_def.c of src/cpu/csrs.
use risc_v_virtual_machine.Common.{ℕ, ◌+◌, ◌^◌, Bool, true, false}
use risc_v_virtual_machine.Common.{Option, none, some, update, not64, uint64_max}
use risc_v_virtual_machine.Bus.{Bus}
use risc_v_virtual_machine.Cpu.{Cpu, Machine}
use risc_v_virtual_machine.Cpu.Csr.Names
use risc_v_virtual_machine.Cpu.Csr.Handlers.{
  mstatus_write_mask, mie_write_mask, misa_write, mtvec_write,
}
use risc_v_virtual_machine.Cpu.Csr.Handlers.{sstatus_read, sstatus_write, stvec_write, sepc_read}
use risc_v_virtual_machine.Cpu.Csr.Handlers.{sie_read, sie_write, sip_read, sip_write}
use risc_v_virtual_machine.Cpu.Csr.Handlers.{cycle_read, instret_read}

-- `csr_descriptor_t`; `none` is a null pointer.
pub record CsrDescriptor (S : Type 0) : Type 0 where
  pub implemented : Bool
  pub write_mask : ℕ
  pub read : Option (Machine S → ℕ × Machine S)
  pub write : Option (Cpu → ℕ → Cpu)

abbrev pub Table : Type 0 → Type 0
Table S = ℕ → CsrDescriptor S

-- A read function that only looks at the registers.
abbrev reads : {S : Type 0} → (Cpu → ℕ) → Option (Machine S → ℕ × Machine S)
reads f = some (λ m. (f m.cpu, m))

-- The table before the load functions run.
abbrev empty_table : {S : Type 0} → Table S
empty_table address = record { implemented = false; write_mask = 0; read = none; write = none }

-- The three shapes of the load functions: they set `implemented` and either the mask, the write
-- function, both functions, or the read function with a mask.
abbrev load_masked : {S : Type 0} → ℕ → ℕ → Table S → Table S
load_masked address mask table =
    let csr = table address in
    update table address (record csr { implemented = true; write_mask = mask })

abbrev load_write : {S : Type 0} → ℕ → (Cpu → ℕ → Cpu) → Table S → Table S
load_write address write table =
    let csr = table address in
    update table address (record csr { implemented = true; write = some write })

abbrev load_read_write : {S : Type 0} → ℕ → (Cpu → ℕ) → (Cpu → ℕ → Cpu) → Table S → Table S
load_read_write address read write table =
    let csr = table address in
    update table address (record csr { implemented = true; read = reads read; write = some write })

abbrev load_read_masked :
    {S : Type 0} → ℕ → Option (Machine S → ℕ × Machine S) → ℕ → Table S → Table S
load_read_masked address read mask table =
    let csr = table address in
    update table address (record csr { implemented = true; read = read; write_mask = mask })

unfoldable pub mcsr_load_table : {S : Type 0} → Table S → Table S
mcsr_load_table t =
    let t = load_write Names.csr_misa misa_write t in
    let t = load_masked Names.csr_mstatus mstatus_write_mask t in
    let t = load_write Names.csr_mtvec mtvec_write t in
    let t = load_masked Names.csr_medeleg uint64_max t in
    let t = load_masked Names.csr_mideleg uint64_max t in
    let t = load_masked Names.csr_mip (2 ^ 1 + 2 ^ 5) t in
    let t = load_masked Names.csr_mie mie_write_mask t in
    let t = load_masked Names.csr_mscratch uint64_max t in
    let t = load_masked Names.csr_mepc (not64 0x3) t in
    let t = load_masked Names.csr_mcause uint64_max t in
    let t = load_masked Names.csr_mtval uint64_max t in
    let t = load_masked Names.csr_mhartid 0 t in
    let t = load_masked Names.csr_mvendorid 0 t in
    let t = load_masked Names.csr_marchid 0 t in
    let t = load_masked Names.csr_mimpid 0 t in
    let t = load_masked Names.csr_mcounteren 0x7 t in
    let t = load_masked Names.csr_mcycle uint64_max t in load_masked Names.csr_minstret uint64_max t

unfoldable pub scsr_load_table : {S : Type 0} → Table S → Table S
scsr_load_table t =
    let t = load_read_write Names.csr_sstatus sstatus_read sstatus_write t in
    let t = load_write Names.csr_stvec stvec_write t in
    let t = load_masked Names.csr_scause uint64_max t in
    let t = load_read_masked Names.csr_sepc (reads sepc_read) uint64_max t in
    let t = load_masked Names.csr_stval uint64_max t in
    let t = load_masked Names.csr_sscratch uint64_max t in
    let t = load_read_write Names.csr_sie sie_read sie_write t in
    let t = load_read_write Names.csr_sip sip_read sip_write t in
    let t = load_masked Names.csr_satp uint64_max t in load_masked Names.csr_scounteren 0xFFFFFFFF t

module _ {S : Type 0} ⦃bus : Bus S⦄ where
  -- The timer's MTIME, by way of the bus.
  unfoldable pub time_read : Machine S → ℕ × Machine S
  time_read m =
      let (value, ctx) = bus.read64 m.ctx (0x02000000 + 0xBFF8) in (value, record m { ctx = ctx })

  unfoldable pub ucsr_load_table : Table S → Table S
  ucsr_load_table t =
      let t = load_read_masked Names.csr_time (some time_read) 0 t in
      let t = load_read_masked Names.csr_instret (reads instret_read) 0 t in
      load_read_masked Names.csr_cycle (reads cycle_read) 0 t

  unfoldable pub csr_load : Table S
  unfolding mcsr_load_table scsr_load_table ucsr_load_table
  csr_load = ucsr_load_table (scsr_load_table (mcsr_load_table empty_table))
