-- ===== src/Devices/Timer/Laws.antt =====
-- What the guest can read and write of the timer.
use risc_v_virtual_machine.Common.{ℕ, ◌+◌, ◌*◌, ◌%◌, ◌^◌, ◌<◌, ◌≡◌}
use risc_v_virtual_machine.Common.{arith, ◌⊎◌}
use risc_v_virtual_machine.Devices.Timer.{Timer, timer_msip, timer_mtimecmp, timer_mtime}
use risc_v_virtual_machine.Devices.Timer.{timer_reset, timer_tick, timer_read32, timer_read64}
use risc_v_virtual_machine.Devices.Timer.{timer_write32, timer_write64}

-- The fields hold words of their widths, and MSIP its one bit.
pub record IsValid (t : Timer) : Type 0 where
  pub msip_lt : t.msip < 2
  pub mtime_lt : t.mtime < 2 ^ 64
  pub mtimecmp_lt : t.mtimecmp < 2 ^ 64

pub timer_reset-IsValid : (t : Timer) → IsValid (timer_reset t)
unfolding timer_reset
timer_reset-IsValid t = ground arith

pub timer_tick-IsValid : {t : Timer} → IsValid t → IsValid (timer_tick t)
unfolding timer_tick
timer_tick-IsValid v = ground arith

pub timer_write32-IsValid :
    {t : Timer} (offset value : ℕ) → IsValid t → IsValid (timer_write32 t offset value)
unfolding timer_write32
timer_write32-IsValid offset value v = ground arith

pub timer_write64-IsValid :
    {t : Timer} (offset value : ℕ)
    → value < 2 ^ 64
    → IsValid t
    → IsValid (timer_write64 t offset value)
unfolding timer_write64
timer_write64-IsValid offset value h v = ground arith

pub timer_read32-lt : (t : Timer) (offset : ℕ) → timer_read32 t offset < 2 ^ 32
unfolding timer_read32
timer_read32-lt t offset = ground arith

pub timer_read64-lt : {t : Timer} (offset : ℕ) → IsValid t → timer_read64 t offset < 2 ^ 64
unfolding timer_read64
timer_read64-lt offset v = ground arith

-- At the offsets of MTIMECMP and MTIME a 64-bit write is read back by a 64-bit read, and by two
-- 32-bit reads, the low word at the offset and the high word four bytes further.
pub timer_read-timer_write64 :
    (t : Timer) (offset value : ℕ)
    → value < 2 ^ 64
    → (offset ≡ timer_mtimecmp) ⊎ (offset ≡ timer_mtime)
    → let t' = timer_write64 t offset value in
      (timer_read64 t' offset ≡ value)
      × (timer_read32 t' (offset + 4) * 2 ^ 32 + timer_read32 t' offset ≡ value)
unfolding timer_write64 timer_read64 timer_read32
timer_read-timer_write64 t offset value h o = ground arith

-- No 32-bit write, at whatever offset, changes MTIME or MTIMECMP.
pub timer_write32_keeps_time :
    (t : Timer) (offset value : ℕ)
    → ((timer_write32 t offset value).mtime ≡ t.mtime)
      × ((timer_write32 t offset value).mtimecmp ≡ t.mtimecmp)
unfolding timer_write32
timer_write32_keeps_time t offset value = ground arith

-- A 64-bit write to MSIP sets MTIMECMP to the value that is written too.
pub timer_write64_msip_clobbers :
    (t : Timer) (value : ℕ)
    → (timer_read64 (timer_write64 t timer_msip value) timer_msip ≡ value % 2)
      × (timer_read64 (timer_write64 t timer_msip value) timer_mtimecmp ≡ value)
      × ((timer_write64 t timer_msip value).mtime ≡ t.mtime)
unfolding timer_write64 timer_read64
timer_write64_msip_clobbers t value = ground arith
