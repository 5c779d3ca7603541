-- ===== src/Cpu.antt =====
-- The processor: the state of include/cpu/cpu.h, its register file and the reservation of
-- src/cpu/cpu.c. The components of src/cpu are the modules below. C spells `priviledge` so.
pub mod Registers
pub mod Csr
pub mod Trap
pub mod Interrupts
pub mod Paging
pub mod Access
pub mod Decode
pub mod Exec
pub mod Step
pub mod Return
pub mod Confined
pub mod Fits
use risc_v_virtual_machine.Common.{ℕ, ◌+◌, ◌*◌, ◌%◌, ◌^◌, Bool, true, false, ◌&&◌, ltb, leb, ◌==◌}
use risc_v_virtual_machine.Common.{if◌then◌else◌, update, add64, u64}

pub record Reservation : Type 0 where
  pub valid : Bool
  pub phys_addr : ℕ
  pub size : ℕ

-- `uint8_t` fields that hold only 0 and 1 are Booleans. The `bus` field is the instance argument
-- of the functions that use it.
pub record Cpu : Type 0 where
  pub regs : ℕ → ℕ
  pub csrs : ℕ → ℕ
  pub pc : ℕ
  pub priviledge : ℕ
  pub reservation : Reservation
  pub trap_taken : Bool
  pub pc_written : Bool

-- The processor and the context of its bus.
pub record Machine (S : Type 0) : Type 0 where
  pub cpu : Cpu
  pub ctx : S

abbrev pub u_mode : ℕ
u_mode = 0

abbrev pub s_mode : ℕ
s_mode = 1

abbrev pub m_mode : ℕ
m_mode = 3

abbrev pub set_csr : Cpu → ℕ → ℕ → Cpu
set_csr cpu address value = record cpu { csrs = update cpu.csrs address value }

-- A step of the processor alone, within the machine.
abbrev pub on_cpu : {S : Type 0} → (Cpu → Cpu) → Machine S → Machine S
on_cpu f m = record m { cpu = f m.cpu }

unfoldable pub cpu_read_reg : Cpu → ℕ → ℕ
cpu_read_reg cpu reg_num =
    if reg_num == 0 then 0 else if leb 32 reg_num then 0 else cpu.regs reg_num

unfoldable pub cpu_write_reg : Cpu → ℕ → ℕ → Cpu
cpu_write_reg cpu reg_num value =
    if reg_num == 0
    then cpu
    else if leb 32 reg_num
    then cpu
    else record cpu { regs = update cpu.regs reg_num value }

unfoldable pub cpu_invalidate_reservation : Cpu → ℕ → ℕ → Cpu
cpu_invalidate_reservation cpu phys_addr size =
    let store_start = phys_addr in
    let store_end = add64 phys_addr size in
    let reservation_start = cpu.reservation.phys_addr in
    let reservation_end = add64 reservation_start cpu.reservation.size in
    if cpu.reservation.valid
    then (if ltb store_start reservation_end && ltb reservation_start store_end
        then record cpu { reservation = record (cpu.reservation) { valid = false } }
        else cpu)
    else cpu
