-- ===== src/Bus.antt =====
-- The bus: `bus_t` of include/cpu/bus_def.h as the interface that the CPU uses, and the routing
-- of physical addresses in src/memory/bus.c, which implements it. The messages of `log_error`
-- are left out.
pub mod Routing
pub mod Valid
use risc_v_virtual_machine.Common.{ℕ, ◌+◌, ◌-◌, ◌*◌, Bool, ◌&&◌, leb, ltb, if◌then◌else◌}
use risc_v_virtual_machine.Memory.{Memory, mem_read8, mem_read16, mem_read32, mem_read64}
use risc_v_virtual_machine.Memory.{mem_write8, mem_write16, mem_write32, mem_write64}
use risc_v_virtual_machine.Devices.Timer.{Timer, timer_read32, timer_read64, timer_write32}
use risc_v_virtual_machine.Devices.Timer.{timer_write64}
use risc_v_virtual_machine.Devices.Uart.{Uart, uart_read8, uart_write8}

-- The operations over a context `S`: a read gives a value and the context after it, since a read
-- of a device register may change the device.
pub record Bus (S : Type 0) : Type 0 where
  pub read8 : S → ℕ → ℕ × S
  pub read16 : S → ℕ → ℕ × S
  pub read32 : S → ℕ → ℕ × S
  pub read64 : S → ℕ → ℕ × S
  pub write8 : S → ℕ → ℕ → S
  pub write16 : S → ℕ → ℕ → S
  pub write32 : S → ℕ → ℕ → S
  pub write64 : S → ℕ → ℕ → S

-- What the bus functions use of `vm_t`, their context.
pub record Platform : Type 0 where
  pub ram : Memory
  pub timer : Timer
  pub uart : Uart

abbrev pub uart_base : ℕ
uart_base = 0x10000000

abbrev pub uart_size : ℕ
uart_size = 0x100

abbrev pub timer_base : ℕ
timer_base = 0x02000000

abbrev pub timer_size : ℕ
timer_size = 0x10000

abbrev pub ram_base : ℕ
ram_base = 0x80000000

abbrev pub ram_size : ℕ
ram_size = 64 * 1024 * 1024

-- The second test is made only if the first holds, so the truncated `-` is exact.
abbrev pub addr_in_range : ℕ → ℕ → ℕ → Bool
addr_in_range address base size = leb base address && ltb (address - base) size

unfoldable pub vm_bus_read8 : Platform → ℕ → ℕ × Platform
vm_bus_read8 vm addr =
    if addr_in_range addr ram_base ram_size
    then (mem_read8 vm.ram addr, vm)
    else if addr_in_range addr uart_base uart_size
    then (
      (uart_read8 vm.uart (addr - uart_base)).0,
      record vm { uart = (uart_read8 vm.uart (addr - uart_base)).1 },
    )
    else if addr_in_range addr timer_base timer_size
    then (0, vm)
    else (0, vm)

unfoldable pub vm_bus_read16 : Platform → ℕ → ℕ × Platform
vm_bus_read16 vm addr =
    if addr_in_range addr ram_base ram_size
    then (mem_read16 vm.ram addr, vm)
    else if addr_in_range addr uart_base uart_size
    then (0, vm)
    else if addr_in_range addr timer_base timer_size
    then (0, vm)
    else (0, vm)

unfoldable pub vm_bus_read32 : Platform → ℕ → ℕ × Platform
vm_bus_read32 vm addr =
    if addr_in_range addr ram_base ram_size
    then (mem_read32 vm.ram addr, vm)
    else if addr_in_range addr uart_base uart_size
    then (0, vm)
    else if addr_in_range addr timer_base timer_size
    then (timer_read32 vm.timer (addr - timer_base), vm)
    else (0, vm)

unfoldable pub vm_bus_read64 : Platform → ℕ → ℕ × Platform
vm_bus_read64 vm addr =
    if addr_in_range addr ram_base ram_size
    then (mem_read64 vm.ram addr, vm)
    else if addr_in_range addr uart_base uart_size
    then (0, vm)
    else if addr_in_range addr timer_base timer_size
    then (timer_read64 vm.timer (addr - timer_base), vm)
    else (0, vm)

unfoldable pub vm_bus_write8 : Platform → ℕ → ℕ → Platform
vm_bus_write8 vm addr value =
    if addr_in_range addr ram_base ram_size
    then record vm { ram = mem_write8 vm.ram addr value }
    else if addr_in_range addr uart_base uart_size
    then record vm { uart = uart_write8 vm.uart (addr - uart_base) value }
    else if addr_in_range addr timer_base timer_size
    then vm
    else vm

unfoldable pub vm_bus_write16 : Platform → ℕ → ℕ → Platform
vm_bus_write16 vm addr value =
    if addr_in_range addr ram_base ram_size
    then record vm { ram = mem_write16 vm.ram addr value }
    else if addr_in_range addr uart_base uart_size
    then vm
    else if addr_in_range addr timer_base timer_size
    then vm
    else vm

unfoldable pub vm_bus_write32 : Platform → ℕ → ℕ → Platform
vm_bus_write32 vm addr value =
    if addr_in_range addr ram_base ram_size
    then record vm { ram = mem_write32 vm.ram addr value }
    else if addr_in_range addr uart_base uart_size
    then vm
    else if addr_in_range addr timer_base timer_size
    then record vm { timer = timer_write32 vm.timer (addr - timer_base) value }
    else vm

unfoldable pub vm_bus_write64 : Platform → ℕ → ℕ → Platform
vm_bus_write64 vm addr value =
    if addr_in_range addr ram_base ram_size
    then record vm { ram = mem_write64 vm.ram addr value }
    else if addr_in_range addr uart_base uart_size
    then vm
    else if addr_in_range addr timer_base timer_size
    then record vm { timer = timer_write64 vm.timer (addr - timer_base) value }
    else vm

-- The table of functions that `vm_init` fills in.
instance abbrev pub vm_bus : Bus Platform
vm_bus = record {
  read8 = vm_bus_read8;
  read16 = vm_bus_read16;
  read32 = vm_bus_read32;
  read64 = vm_bus_read64;
  write8 = vm_bus_write8;
  write16 = vm_bus_write16;
  write32 = vm_bus_write32;
  write64 = vm_bus_write64;
}
