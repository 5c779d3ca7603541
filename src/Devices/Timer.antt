-- ===== src/Devices/Timer.antt =====
-- The timer: src/devices/timer.c and include/devices/timer.h. The messages of `log_error` are left
-- out.
pub mod Laws
use risc_v_virtual_machine.Common.{ℕ, ◌+◌, ◌-◌, ◌*◌, ◌/◌, ◌%◌, ◌^◌, bit_and, bit_or}
use risc_v_virtual_machine.Common.{◌==◌, if◌then◌else◌, u32, add64, field, ◌>>>◌, uint64_max}

pub record Timer : Type 0 where
  pub msip : ℕ
  pub mtime : ℕ
  pub mtimecmp : ℕ

abbrev pub irq_timer : ℕ
irq_timer = 7

abbrev pub irq_software : ℕ
irq_software = 3

abbrev pub timer_msip : ℕ
timer_msip = 0x0000

abbrev pub timer_mtimecmp : ℕ
timer_mtimecmp = 0x4000

abbrev pub timer_mtime : ℕ
timer_mtime = 0xBFF8

unfoldable pub timer_reset : Timer → Timer
timer_reset t = record t { msip = 0; mtime = 0; mtimecmp = uint64_max }

unfoldable pub timer_tick : Timer → Timer
timer_tick t = record t { mtime = add64 t.mtime 1 }

unfoldable pub timer_read32 : Timer → ℕ → ℕ
timer_read32 t offset =
    if offset == timer_msip
    then field t.msip 0 1
    else if offset == timer_mtimecmp
    then u32 (field t.mtimecmp 0 32)
    else if offset == timer_mtimecmp + 4
    then u32 (t.mtimecmp >>> 32)
    else if offset == timer_mtime
    then u32 (field t.mtime 0 32)
    else if offset == timer_mtime + 4
    then u32 (t.mtime >>> 32)
    else 0

unfoldable pub timer_read64 : Timer → ℕ → ℕ
timer_read64 t offset =
    if offset == timer_msip
    then field t.msip 0 1
    else if offset == timer_mtimecmp
    then t.mtimecmp
    else if offset == timer_mtime
    then t.mtime
    else 0

-- The four cases after the first compute a word and store it nowhere.
unfoldable pub timer_write32 : Timer → ℕ → ℕ → Timer
timer_write32 t offset value =
    if offset == timer_msip
    then record t { msip = field value 0 1 }
    else if offset == timer_mtimecmp
    then t
    else if offset == timer_mtimecmp + 4
    then t
    else if offset == timer_mtime
    then t
    else if offset == timer_mtime + 4
    then t
    else t

-- The first case falls through into the second.
unfoldable pub timer_write64 : Timer → ℕ → ℕ → Timer
timer_write64 t offset value =
    if offset == timer_msip
    then record t { msip = field value 0 1; mtimecmp = value }
    else if offset == timer_mtimecmp
    then record t { mtimecmp = value }
    else if offset == timer_mtime
    then record t { mtime = value }
    else t
