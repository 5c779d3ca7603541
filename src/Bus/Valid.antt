-- ===== src/Bus/Valid.antt =====
-- The bus of src/memory/bus.c on sound devices: the bounds of its reads, and what it keeps.
use risc_v_virtual_machine.Common.{
  ℕ, arith, ◌-◌, ◌<◌, ◌≤◌, ◌≡◌, ◌∙◌, ◌^◌, sym, Bool, true, false, if◌then◌else◌,
}
use mathlib.Core.Path.{subst}
use risc_v_virtual_machine.Memory.{mem_base, mem_size, valid_access}
use risc_v_virtual_machine.Memory.Bytes.{
  size, Width, byte, half, word, double, mem_read, mem_write, load_bytes, load_bytes-lt,
  mem_read-eq-load_bytes,
}
use risc_v_virtual_machine.Memory.Bytes as Bytes
use risc_v_virtual_machine.Memory.RoundTrip.{mem_write-IsBytes, mem_write_beyond}
use risc_v_virtual_machine.Devices.Timer.{
  Timer, timer_read32, timer_read64, timer_write32, timer_write64,
}
use risc_v_virtual_machine.Devices.Uart.Valid.{
  IsRing, uart_init-IsBytes, uart_init-IsRing, uart_read8-IsBytes, uart_read8-IsRing, uart_read8-lt,
  uart_write8-IsBytes, uart_write8-IsRing,
}
use risc_v_virtual_machine.Devices.Uart.Valid as Port
use risc_v_virtual_machine.Bus.{
  Platform, vm_bus, addr_in_range, ram_base, ram_size, uart_base, uart_size, timer_base, timer_size,
  vm_bus_read8, vm_bus_read16, vm_bus_read32, vm_bus_read64, vm_bus_write8, vm_bus_write16,
  vm_bus_write32, vm_bus_write64,
}

-- The devices: bytes in RAM, zeros behind its end, bytes in the serial port, whose ring is sound, and
-- words in the timer.
pub record IsPlatform (p : Platform) : Type 0 where
  pub ram_ok : Bytes.IsBytes p.ram
  pub ram_end : (i : ℕ) → mem_size ≤ i → p.ram.mem i ≡ 0
  pub uart_ok : Port.IsBytes p.uart
  pub ring_ok : IsRing p.uart
  pub mtime_lt : p.timer.mtime < 2 ^ 64
  pub mtimecmp_lt : p.timer.mtimecmp < 2 ^ 64

mem_read-lt :
    (w : Width) (p : Platform) (addr : ℕ) → IsPlatform p → mem_read w p.ram addr < 256 ^ size w
mem_read-lt w p addr v =
    subst (λ x. x < 256 ^ size w) (sym (mem_read-eq-load_bytes v.ram_ok addr w))
      (bytes_or_zero w (valid_access addr (size w)) _
        (load_bytes-lt v.ram_ok (addr - mem_base) (size w)))
  where
    bytes_or_zero :
        (w : Width) (test : Bool) (x : ℕ)
        → x < 256 ^ size w
        → (if test then x else 0) < 256 ^ size w
    bytes_or_zero w true x h = h
    bytes_or_zero byte false x h = omega arith
    bytes_or_zero half false x h = omega arith
    bytes_or_zero word false x h = omega arith
    bytes_or_zero double false x h = omega arith

-- What a read of the bus gives: a number below a bound, and sound devices.
abbrev Answer : ℕ → ℕ × Platform → Type 0
Answer bound x = (x.0 < bound) × IsPlatform x.1

Answer-if :
    (bound : ℕ) (test : Bool) (x y : ℕ × Platform)
    → Answer bound x
    → Answer bound y
    → Answer bound (if test then x else y)
Answer-if bound true x y h k = h
Answer-if bound false x y h k = k

IsPlatform-if :
    (test : Bool) (x y : Platform)
    → IsPlatform x
    → IsPlatform y
    → IsPlatform (if test then x else y)
IsPlatform-if true x y h k = h
IsPlatform-if false x y h k = k

timer_read32-lt : (t : Timer) (offset : ℕ) → timer_read32 t offset < 2 ^ 32
unfolding timer_read32
timer_read32-lt t offset = ground arith

timer_read64-lt :
    (t : Timer) (offset : ℕ)
    → t.mtime < 2 ^ 64
    → t.mtimecmp < 2 ^ 64
    → timer_read64 t offset < 2 ^ 64
unfolding timer_read64
timer_read64-lt t offset h k = ground (arith, h, k)

with_ram :
    (w : Width) (p : Platform) (addr value : ℕ)
    → IsPlatform p
    → value < 256 ^ size w
    → IsPlatform (record p { ram = mem_write w p.ram addr value })
with_ram w p addr value v h = record {
  ram_ok = mem_write-IsBytes w addr value h v.ram_ok;
  ram_end = λ i beyond. mem_write_beyond w p.ram addr value i h beyond ∙ v.ram_end i beyond;
  uart_ok = v.uart_ok;
  ring_ok = v.ring_ok;
  mtime_lt = v.mtime_lt;
  mtimecmp_lt = v.mtimecmp_lt;
}

pub with_timer :
    (p : Platform) (t : Timer)
    → IsPlatform p
    → t.mtime < 2 ^ 64
    → t.mtimecmp < 2 ^ 64
    → IsPlatform (record p { timer = t })
with_timer p t v h k = record {
  ram_ok = v.ram_ok;
  ram_end = v.ram_end;
  uart_ok = v.uart_ok;
  ring_ok = v.ring_ok;
  mtime_lt = h;
  mtimecmp_lt = k;
}

timer_write32-lt :
    (t : Timer) (offset value : ℕ)
    → t.mtime < 2 ^ 64
    → t.mtimecmp < 2 ^ 64
    → ((timer_write32 t offset value).mtime < 2 ^ 64)
      × ((timer_write32 t offset value).mtimecmp < 2 ^ 64)
unfolding timer_write32
timer_write32-lt t offset value h k = (ground (arith, h), ground (arith, k))

timer_write64-lt :
    (t : Timer) (offset value : ℕ)
    → t.mtime < 2 ^ 64
    → t.mtimecmp < 2 ^ 64
    → value < 2 ^ 64
    → ((timer_write64 t offset value).mtime < 2 ^ 64)
      × ((timer_write64 t offset value).mtimecmp < 2 ^ 64)
unfolding timer_write64
timer_write64-lt t offset value h k l = (ground (arith, h, l), ground (arith, k, l))

pub vm_bus_read8-Answer :
    (p : Platform) (addr : ℕ) → IsPlatform p → Answer 256 (vm_bus_read8 p addr)
unfolding vm_bus_read8
vm_bus_read8-Answer p addr v =
    Answer-if 256 (addr_in_range addr ram_base ram_size) _ _ (mem_read-lt byte p addr v, v)
      (Answer-if 256 (addr_in_range addr uart_base uart_size) _ _
        (
          uart_read8-lt (addr - uart_base) v.uart_ok,
          record {
            ram_ok = v.ram_ok;
            ram_end = v.ram_end;
            uart_ok = uart_read8-IsBytes (addr - uart_base) v.uart_ok;
            ring_ok = uart_read8-IsRing (addr - uart_base) v.ring_ok;
            mtime_lt = v.mtime_lt;
            mtimecmp_lt = v.mtimecmp_lt;
          },
        )
        (Answer-if 256 (addr_in_range addr timer_base timer_size) _ _ (omega arith, v)
          (omega arith, v)))

pub vm_bus_read16-Answer :
    (p : Platform) (addr : ℕ) → IsPlatform p → Answer (2 ^ 16) (vm_bus_read16 p addr)
unfolding vm_bus_read16
vm_bus_read16-Answer p addr v =
    Answer-if (2 ^ 16) (addr_in_range addr ram_base ram_size) _ _ (mem_read-lt half p addr v, v)
      (Answer-if (2 ^ 16) (addr_in_range addr uart_base uart_size) _ _ (omega arith, v)
        (Answer-if (2 ^ 16) (addr_in_range addr timer_base timer_size) _ _ (omega arith, v)
          (omega arith, v)))

pub vm_bus_read32-Answer :
    (p : Platform) (addr : ℕ) → IsPlatform p → Answer (2 ^ 32) (vm_bus_read32 p addr)
unfolding vm_bus_read32
vm_bus_read32-Answer p addr v =
    Answer-if (2 ^ 32) (addr_in_range addr ram_base ram_size) _ _ (mem_read-lt word p addr v, v)
      (Answer-if (2 ^ 32) (addr_in_range addr uart_base uart_size) _ _ (omega arith, v)
        (Answer-if (2 ^ 32) (addr_in_range addr timer_base timer_size) _ _
          (timer_read32-lt p.timer (addr - timer_base), v) (omega arith, v)))

pub vm_bus_read64-Answer :
    (p : Platform) (addr : ℕ) → IsPlatform p → Answer (2 ^ 64) (vm_bus_read64 p addr)
unfolding vm_bus_read64
vm_bus_read64-Answer p addr v =
    Answer-if (2 ^ 64) (addr_in_range addr ram_base ram_size) _ _ (mem_read-lt double p addr v, v)
      (Answer-if (2 ^ 64) (addr_in_range addr uart_base uart_size) _ _ (omega arith, v)
        (Answer-if (2 ^ 64) (addr_in_range addr timer_base timer_size) _ _
          (timer_read64-lt p.timer (addr - timer_base) v.mtime_lt v.mtimecmp_lt, v)
          (omega arith, v)))

pub vm_bus_write8-IsPlatform :
    (p : Platform) (addr value : ℕ)
    → IsPlatform p
    → value < 256
    → IsPlatform (vm_bus_write8 p addr value)
unfolding vm_bus_write8
vm_bus_write8-IsPlatform p addr value v h =
    IsPlatform-if (addr_in_range addr ram_base ram_size) _ _ (with_ram byte p addr value v h) (
      IsPlatform-if (addr_in_range addr uart_base uart_size) _ _
        (record {
          ram_ok = v.ram_ok;
          ram_end = v.ram_end;
          uart_ok = uart_write8-IsBytes (addr - uart_base) value h v.uart_ok;
          ring_ok = uart_write8-IsRing (addr - uart_base) value v.ring_ok;
          mtime_lt = v.mtime_lt;
          mtimecmp_lt = v.mtimecmp_lt;
        })
        (IsPlatform-if (addr_in_range addr timer_base timer_size) _ _ v v))

pub vm_bus_write16-IsPlatform :
    (p : Platform) (addr value : ℕ)
    → IsPlatform p
    → value < 2 ^ 16
    → IsPlatform (vm_bus_write16 p addr value)
unfolding vm_bus_write16
vm_bus_write16-IsPlatform p addr value v h =
    IsPlatform-if (addr_in_range addr ram_base ram_size) _ _ (with_ram half p addr value v h) (
      IsPlatform-if (addr_in_range addr uart_base uart_size) _ _ v
        (IsPlatform-if (addr_in_range addr timer_base timer_size) _ _ v v))

pub vm_bus_write32-IsPlatform :
    (p : Platform) (addr value : ℕ)
    → IsPlatform p
    → value < 2 ^ 32
    → IsPlatform (vm_bus_write32 p addr value)
unfolding vm_bus_write32
vm_bus_write32-IsPlatform p addr value v h =
    let words = timer_write32-lt p.timer (addr - timer_base) value v.mtime_lt v.mtimecmp_lt in
    IsPlatform-if (addr_in_range addr ram_base ram_size) _ _ (with_ram word p addr value v h) (
      IsPlatform-if (addr_in_range addr uart_base uart_size) _ _ v (
        IsPlatform-if (addr_in_range addr timer_base timer_size) _ _
          (with_timer p _ v words.0 words.1) v))

pub vm_bus_write64-IsPlatform :
    (p : Platform) (addr value : ℕ)
    → IsPlatform p
    → value < 2 ^ 64
    → IsPlatform (vm_bus_write64 p addr value)
unfolding vm_bus_write64
vm_bus_write64-IsPlatform p addr value v h =
    let words = timer_write64-lt p.timer (addr - timer_base) value v.mtime_lt v.mtimecmp_lt h in
    IsPlatform-if (addr_in_range addr ram_base ram_size) _ _ (with_ram double p addr value v h) (
      IsPlatform-if (addr_in_range addr uart_base uart_size) _ _ v (
        IsPlatform-if (addr_in_range addr timer_base timer_size) _ _
          (with_timer p _ v words.0 words.1) v))
